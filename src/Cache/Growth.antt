-- ===== src/Cache/Growth.antt =====
-- What gossip and snapshots may change of a known peer (peer_cache.go).
use yuanyi.Base.{
  String, ℤ, pos, ◌||◌, false, Option, none, some, find, put, find-put, get_or, if_intro, ltb_ℤ,
  ◌≤ℤ◌, ◌≡◌, refl, sym, ◌∙◌, subst, true, List, [], ◌∷◌, ◌⊎◌, inl, inr, arith, Option-cases,
  Bool-cases, eq_iff, ◌==◌,
}
use yuanyi.Float.{Float64}
use yuanyi.Peer.{GpuInfo, PeerData}
use yuanyi.Cache.{
  PeerCache, keep_max, keep_max_score, merge_gossip, upsert_gossip, blank_peer, reconcile,
  merge_peer, load_snapshot, contribution,
}

keep_max_lem : (m n : ℤ) → m ≤ℤ keep_max m n
unfolding keep_max
keep_max_lem m n = ground arith

≤ℤ-refl : (m : ℤ) → m ≤ℤ m
≤ℤ-refl m = omega arith

module _ {F : Type 0} ⦃fl : Float64 F⦄ where
  keep_max_score_lem : (a b : F) → fl.lt (keep_max_score a b) a ≡ false
  unfolding keep_max_score
  keep_max_score_lem a b = ground (arith, fl.lt_trans a b a, fl.lt_irrefl a)

  -- An address that was seen on a connection is still the same, and still known to be so.
  abbrev pub AddressKept : PeerData F → PeerData F → Type 0
  AddressKept p q =
      (p.ip_verified ≡ false) ⊎ ((q.ip_address ≡ p.ip_address) × (q.ip_verified ≡ true))

  address_same :
      (p q : PeerData F)
      → q.ip_address ≡ p.ip_address
      → q.ip_verified ≡ p.ip_verified
      → AddressKept p q
  address_same p q same kept = elim (Bool-cases p.ip_verified) [
    | inl e ↦ inr (same, kept ∙ e)
    | inr e ↦ inl e
  ]

  -- The peer is still there, with counters at least as high and such an address.
  abbrev pub Grown : Option (PeerData F) → Option (PeerData F) → Type 0
  Grown none o = Unit
  Grown (some p) none = ⊥
  Grown (some p) (some q) =
      (p.total_requests ≤ℤ q.total_requests)
      × (p.total_tokens ≤ℤ q.total_tokens)
      × (p.in_tokens ≤ℤ q.in_tokens)
      × (p.out_tokens ≤ℤ q.out_tokens)
      × (fl.lt q.contribution_score p.contribution_score ≡ false)
      × AddressKept p q

  pub Grown-refl : (o : Option (PeerData F)) → Grown o o
  Grown-refl none = tt
  Grown-refl (some p) = (
    omega arith,
    omega arith,
    omega arith,
    omega arith,
    fl.lt_irrefl p.contribution_score,
    address_same p p refl refl,
  )

  Grown-trans : (a b c : Option (PeerData F)) → Grown a b → Grown b c → Grown a c
  Grown-trans none b c h k = tt
  Grown-trans (some p) none c h k = elim h [ ]
  Grown-trans (some p) (some q) none h k = elim k [ ]
  Grown-trans (some p) (some q) (some r) h k = (
    omega arith,
    omega arith,
    omega arith,
    omega arith,
    ground (arith, fl.lt_split r.contribution_score q.contribution_score p.contribution_score),
    elim (h.5) [
      | inl e ↦ inl e
      | inr (same, known) ↦ elim (k.5) [
        | inl e ↦ cc (known, e)
        | inr (same', known') ↦ inr (same' ∙ same, known')
      ]
    ],
  )

  address_gossip :
      (now gpu_data : String) (info : GpuInfo F) (p : PeerData F)
      → AddressKept p (merge_gossip now gpu_data info p)
  unfolding merge_gossip
  address_gossip now gpu_data info p = elim (Bool-cases p.ip_verified) [
    | inl e ↦ inr (rw e refl, e)
    | inr e ↦ inl e
  ]

  merge_gossip-Grown :
      (now gpu_data : String) (info : GpuInfo F) (p : PeerData F)
      → Grown (some p) (some (merge_gossip now gpu_data info p))
  unfolding merge_gossip
  merge_gossip-Grown now gpu_data info p =
      let counted = ltb_ℤ (pos 0) info.total_tokens || ltb_ℤ (pos 0) info.total_requests in
      (
        if_intro (λ (n : ℤ). p.total_requests ≤ℤ n) counted
            (keep_max p.total_requests info.total_requests) p.total_requests
            (keep_max_lem p.total_requests info.total_requests) (≤ℤ-refl p.total_requests),
        if_intro (λ (n : ℤ). p.total_tokens ≤ℤ n) counted
            (keep_max p.total_tokens info.total_tokens) p.total_tokens
            (keep_max_lem p.total_tokens info.total_tokens) (≤ℤ-refl p.total_tokens),
        ≤ℤ-refl p.in_tokens,
        ≤ℤ-refl p.out_tokens,
        if_intro (λ (x : F). fl.lt x p.contribution_score ≡ false) counted
            (keep_max_score p.contribution_score
              (contribution info.total_requests info.total_tokens))
            p.contribution_score
            (keep_max_score_lem p.contribution_score
              (contribution info.total_requests info.total_tokens))
            (fl.lt_irrefl p.contribution_score),
        address_gossip now gpu_data info p,
      )

  reconcile-Grown : (pd p : PeerData F) → Grown (some p) (some (reconcile pd p))
  unfolding reconcile
  reconcile-Grown pd p = (
    keep_max_lem p.total_requests pd.total_requests,
    keep_max_lem p.total_tokens pd.total_tokens,
    keep_max_lem p.in_tokens pd.in_tokens,
    keep_max_lem p.out_tokens pd.out_tokens,
    keep_max_score_lem p.contribution_score pd.contribution_score,
    address_same p (reconcile pd p) refl refl,
  )

  -- Writing one entry that has grown.
  put-Grown :
      (id k : String) (q : PeerData F) (pc : PeerCache F)
      → Grown (find id pc.peers) (some q)
      → Grown (find k pc.peers) (find k (put id q pc.peers))
  put-Grown id k q pc h =
      subst (Grown (find k pc.peers)) (sym (find-put id k q pc.peers))
        (elim (Bool-cases (id == k)) [
          | inl e ↦
              let same : id ≡ k = ground (arith, eq_iff id k) in
              rw e (subst (λ j. Grown (find j pc.peers) (some q)) same h)
          | inr n ↦ rw n (Grown-refl (find k pc.peers))
        ])

  merge-Grown :
      (now gpu_data : String) (info : GpuInfo F) (o : Option (PeerData F)) (fresh : PeerData F)
      → Grown o (some (merge_gossip now gpu_data info (get_or o fresh)))
  merge-Grown now gpu_data info none fresh = tt
  merge-Grown now gpu_data info (some p) fresh = merge_gossip-Grown now gpu_data info p

  -- A gossip broadcast, whatever it reports, keeps every peer, lowers no counter of any, and leaves
  -- an address that was seen on a connection alone.
  pub upsert_gossip-Grown :
      (marshal : GpuInfo F → Option String) (now : String) (info : GpuInfo F) (pc : PeerCache F)
      (k : String)
      → Grown (find k pc.peers) (find k (upsert_gossip marshal now info pc).0.peers)
  unfolding upsert_gossip
  upsert_gossip-Grown marshal now info pc k = elim (Option-cases (marshal info)) [
    | inl e ↦ rw (e, upsert_gossip) (Grown-refl (find k pc.peers))
    | inr (gpu_data, e) ↦
        rw (e, upsert_gossip)
          (put-Grown info.node_id k
            (merge_gossip now gpu_data info
              (get_or (find info.node_id pc.peers) (blank_peer info.node_id)))
            pc
            (merge-Grown now gpu_data info (find info.node_id pc.peers) (blank_peer info.node_id)))
  ]

  -- An entry of a snapshot, from the disk or from another hub, keeps every peer, lowers no counter
  -- of any, and leaves an address that was seen on a connection alone.
  pub merge_peer-Grown :
      (pd : PeerData F) (pc : PeerCache F) (k : String)
      → Grown (find k pc.peers) (find k (merge_peer pd pc).peers)
  unfolding merge_peer
  merge_peer-Grown pd pc k = elim (Option-cases (find pd.peer_id pc.peers)) [
    | inl e ↦
        rw (e, merge_peer)
          (put-Grown pd.peer_id k pd pc (subst (λ o. Grown o (some pd)) (sym e) tt))
    | inr (p, e) ↦
        rw (e, merge_peer)
          (put-Grown pd.peer_id k (reconcile pd p) pc
            (subst (λ o. Grown o (some (reconcile pd p))) (sym e) (reconcile-Grown pd p)))
  ]

  -- All entries of a snapshot.
  pub load_snapshot-Grown :
      (peers : List (PeerData F)) (pc : PeerCache F) (k : String)
      → Grown (find k pc.peers) (find k (load_snapshot peers pc).peers)
  unfolding load_snapshot
  load_snapshot-Grown [] pc k = Grown-refl (find k pc.peers)
  load_snapshot-Grown (p ∷ peers) pc k =
      Grown-trans (find k pc.peers) (find k (merge_peer p pc).peers)
        (find k (load_snapshot peers (merge_peer p pc)).peers) (merge_peer-Grown p pc k)
        (load_snapshot-Grown peers (merge_peer p pc) k)
