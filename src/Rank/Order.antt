-- ===== src/Rank/Order.antt =====
-- The order that TriggerUpdate publishes (server_rank.go).
use mathlib.Core.List.{Permᴰ}
use yuanyi.Base.{
  ℕ, zero, suc, ◌+◌, ◌<◌, pos, String, Bool, true, false, ◌||◌, List, [], ◌∷◌, some, ◌≡◌, refl, sym,
  ap, subst, map, arith, if◌then◌else◌, Bool-cases, inl, inr, All, get_elem?, All-get_elem?,
}
use yuanyi.Float.{Float64}
use yuanyi.Strings.{codes, text_eq}
use yuanyi.Peer.{PeerData}
use yuanyi.Sort.{All-Permᴰ, map-Permᴰ, slice_stable, IsSorted}
use yuanyi.Sort.Stable.{IsWeakOrder, slice_stable-IsSortOf}
use yuanyi.Rank.Score.{
  Ranker, RankInfo, RankedPeer, RankedResult, ranked_peer, higher, number_from, trigger_update,
  calculate_score, score_in, score_of, gpus_of, total_score, fallback, positive_score,
}

abbrev pub peer_of_result : {F : Type 0} → RankedResult F → PeerData F
peer_of_result r = r.peer

-- A relay, or a node that says that it has no GPU.
abbrev pub is_idle : RankInfo → Bool
is_idle info = text_eq info.role (codes "relay") || text_eq info.summary (codes "No GPU Detected")

module _ {F : Type 0} ⦃fl : Float64 F⦄ where
  higher-IsWeakOrder : IsWeakOrder (higher {F = F})
  higher-IsWeakOrder = record {
    trans = λ x y z h k. ground (arith, fl.lt_split x.score y.score z.score);
    asym = λ x y h. ground (arith, fl.lt_trans x.score y.score x.score, fl.lt_irrefl x.score);
  }

  or_fallback : (v : F) → positive_score (if positive_score v then v else fallback) ≡ true
  or_fallback v = elim (Bool-cases (positive_score v)) [
    | inl e ↦ rw (e, if◌then◌else◌) e
    | inr e ↦ rw (e, if◌then◌else◌) (fl.of_int_lt 0 4800 (omega arith) (omega arith))
  ]

  module _ (rm : Ranker F) (calls : PeerData F → ℕ) where
    -- Positions from i + 1 on, and no score above one before it.
    abbrev pub IsRanked : ℕ → List (RankedResult F) → Type 0
    IsRanked i [] = Unit
    IsRanked i (r ∷ rs) =
        (r.rank_position ≡ i + 1)
        × All (λ s. fl.lt (score_in rm calls r.peer) (score_in rm calls s.peer) ≡ false) rs
        × IsRanked (suc i) rs

    abbrev Scored : RankedPeer F → Type 0
    Scored rp = rp.score ≡ score_in rm calls rp.peer

    ranked-Scored : (peers : List (PeerData F)) → All Scored (map (ranked_peer rm calls) peers)
    ranked-Scored [] = tt
    ranked-Scored (p ∷ ps) = (refl, ranked-Scored ps)

    All-number_from :
        (P : RankedPeer F → Type 0) (Q : RankedResult F → Type 0)
        → ((rp : RankedPeer F) (k : ℕ)
            → P rp
            → Q (record { peer = rp.peer; score = fl.round rp.score; rank_position = k }))
        → (i : ℕ) (rs : List (RankedPeer F)) → All P rs
        → All Q (number_from i rs)
    unfolding number_from
    All-number_from P Q f i [] h = tt
    All-number_from P Q f i (r ∷ rs) h = (f r (i + 1) h.0, All-number_from P Q f (suc i) rs h.1)

    both :
        (P Q : RankedPeer F → Type 0) (rs : List (RankedPeer F))
        → All P rs
        → All Q rs
        → All (λ r. P r × Q r) rs
    both P Q [] h k = tt
    both P Q (r ∷ rs) h k = ((h.0, k.0), both P Q rs h.1 k.1)

    number_from-IsRanked :
        (i : ℕ) (rs : List (RankedPeer F))
        → All Scored rs
        → IsSorted higher rs
        → IsRanked i (number_from i rs)
    unfolding number_from
    number_from-IsRanked i [] h k = tt
    number_from-IsRanked i (r ∷ rs) h k = (
      refl,
      All-number_from (λ s. Scored s × (higher s r ≡ false))
          (λ s. fl.lt (score_in rm calls r.peer) (score_in rm calls s.peer) ≡ false)
          (λ rp n g. cc (g.0, g.1, h.0)) (suc i) rs
          (both Scored (λ s. higher s r ≡ false) rs h.1 k.0),
      number_from-IsRanked (suc i) rs h.1 k.1,
    )

    abbrev ranked_of : RankedPeer F → PeerData F
    ranked_of r = r.peer

    map-number_from :
        (i : ℕ) (rs : List (RankedPeer F))
        → map peer_of_result (number_from i rs) ≡ map ranked_of rs
    unfolding number_from
    map-number_from i [] = refl
    map-number_from i (r ∷ rs) = ap (◌∷◌ r.peer) (map-number_from (suc i) rs)

    map-ranked :
        (peers : List (PeerData F)) → map ranked_of (map (ranked_peer rm calls) peers) ≡ peers
    map-ranked [] = refl
    map-ranked (p ∷ ps) = ap (◌∷◌ p) (map-ranked ps)

    -- The list for top.json holds every peer of the snapshot once, with the positions 1, 2, 3 and
    -- so on, and no peer in it has a higher score than one before it.
    pub trigger_update_lem :
        (peers : List (PeerData F))
        → IsRanked 0 (trigger_update rm calls peers)
          × Permᴰ peers (map peer_of_result (trigger_update rm calls peers))
    unfolding trigger_update
    trigger_update_lem peers =
        let scored = map (ranked_peer rm calls) peers in
        let sorted = slice_stable higher scored in
        let s = slice_stable-IsSortOf higher higher-IsWeakOrder scored in
        (
          number_from-IsRanked 0 sorted (All-Permᴰ Scored s.perm (ranked-Scored peers)) s.sorted,
          subst (λ (l : List (PeerData F)). Permᴰ peers l) (sym (map-number_from 0 sorted))
              (subst (λ (l : List (PeerData F)). Permᴰ l (map ranked_of sorted)) (map-ranked peers)
                (map-Permᴰ ranked_of s.perm)),
        )

    IsRanked-lt :
        (k i j : ℕ) (r s : RankedResult F) (rs : List (RankedResult F))
        → IsRanked k rs
        → get_elem? rs i ≡ some r
        → get_elem? rs j ≡ some s
        → i < j
        → fl.lt (score_in rm calls r.peer) (score_in rm calls s.peer) ≡ false
    IsRanked-lt k i j r s [] h e f lt = cc
    IsRanked-lt k i zero r s (q ∷ rs) h e f lt = elim lt [ ]
    IsRanked-lt k zero (suc j) r s (q ∷ rs) h e f lt =
        let later =
          All-get_elem?
            (λ (t : RankedResult F).
              fl.lt (score_in rm calls q.peer) (score_in rm calls t.peer) ≡ false)
            rs j s h.1 f in
        ground arith
    IsRanked-lt k (suc i) (suc j) r s (q ∷ rs) h e f lt =
        IsRanked-lt (suc k) i j r s rs h.2 e f (omega arith)

    calculate_score-idle :
        (call : ℕ) (s : String) (info : RankInfo)
        → rm.unmarshal s ≡ some info
        → is_idle info ≡ true
        → calculate_score rm call s ≡ fl.of_int (pos 0)
    unfolding calculate_score
    calculate_score-idle call s info e h = rw (e, calculate_score) (rw (h, score_of) refl)

    calculate_score-working :
        (call : ℕ) (s : String) (info : RankInfo)
        → rm.unmarshal s ≡ some info
        → is_idle info ≡ false
        → fl.lt (fl.of_int (pos 0)) (calculate_score rm call s) ≡ true
    unfolding calculate_score
    calculate_score-working call s info e h =
        rw (e, calculate_score)
          (rw (h, score_of)
            (or_fallback (total_score rm call (fl.of_int (pos 0)) (gpus_of rm info))))

    -- In the list for top.json no node with a GPU stands behind one that is a relay or reports no
    -- GPU.
    pub idle_last :
        (peers : List (PeerData F)) (i j : ℕ) (r s : RankedResult F) (idle other : RankInfo)
        → get_elem? (trigger_update rm calls peers) i ≡ some r
        → get_elem? (trigger_update rm calls peers) j ≡ some s
        → i < j
        → rm.unmarshal r.peer.gpu_info ≡ some idle
        → rm.unmarshal s.peer.gpu_info ≡ some other
        → is_idle idle ≡ true
        → is_idle other ≡ true
    idle_last peers i j r s idle other er es lt ur us h = elim (Bool-cases (is_idle other)) [
      | inl done ↦ done
      | inr works ↦ cc (
        IsRanked-lt 0 i j r s (trigger_update rm calls peers) (trigger_update_lem peers).0 er es lt,
        calculate_score-idle (calls r.peer) r.peer.gpu_info idle ur h,
        calculate_score-working (calls s.peer) s.peer.gpu_info other us works,
      )
    ]
