-- ===== src/Health/Bounds.antt =====
-- What a ping may change (pingOnePeer of server_p2p.go).
use yuanyi.Base.{
  String, ℤ, pos, Bool, true, false, Option, none, some, find, find-put, if_intro, if_intro_false,
  if◌then◌else◌, ltb_ℤ, leb_ℤ, add64, ◌==◌, ◌≡◌, refl, sym, subst, Bool-cases, ◌∙◌, inl, inr, arith,
  Option-cases, eq_iff,
}
use yuanyi.Float.{Float64}
use yuanyi.Peer.{PeerData}
use yuanyi.Cache.{PeerCache, queue_event, set_ping, update_health, update_peer}
use yuanyi.Health.{max_fail, recover, fail, ping_one_peer}

max_fail_lem : (configured : ℤ) → ltb_ℤ (pos 0) (max_fail configured) ≡ true
unfolding max_fail
max_fail_lem configured = ground arith

module _ {F : Type 0} where
  abbrev change : (PeerData F → PeerData F) → Option (PeerData F) → Option (PeerData F)
  change f none = none
  change f (some a) = some (f a)

  -- The entry afterwards is the entry before, but for the ping and the health.
  abbrev pub HealthOnly : Option (PeerData F) → Option (PeerData F) → Type 0
  HealthOnly none none = Unit
  HealthOnly (some p) (some q) = q ≡ record p {
    last_ping = q.last_ping;
    fail_count = q.fail_count;
    penalty_points = q.penalty_points;
  }
  HealthOnly _ _ = ⊥

  HealthOnly-refl : (o : Option (PeerData F)) → HealthOnly o o
  HealthOnly-refl none = tt
  HealthOnly-refl (some p) = refl

  HealthOnly-trans :
      (a b c : Option (PeerData F)) → HealthOnly a b → HealthOnly b c → HealthOnly a c
  HealthOnly-trans none none c h k = k
  HealthOnly-trans none (some q) c h k = elim h [ ]
  HealthOnly-trans (some p) none c h k = elim h [ ]
  HealthOnly-trans (some p) (some q) none h k = k
  HealthOnly-trans (some p) (some q) (some r) h k = ground arith

module _ {F : Type 0} ⦃fl : Float64 F⦄ where
  find-update_peer :
      (id k : String) (f : PeerData F → PeerData F) (pc : PeerCache F)
      → find k (update_peer id f pc).peers
        ≡ (if id == k then change f (find k pc.peers) else find k pc.peers)
  unfolding update_peer
  find-update_peer id k f pc = elim (Option-cases (find id pc.peers)) [
    | inl miss ↦ rw (miss, update_peer) (ground (arith, eq_iff id k, miss))
    | inr (p, hit) ↦
        rw (hit, update_peer) (ground (arith, eq_iff id k, hit, find-put id k (f p) pc.peers))
  ]

  -- Every failure count is below the limit.
  abbrev pub Below : ℤ → PeerCache F → Type 0
  Below limit pc =
      (k : String) (p : PeerData F) → find k pc.peers ≡ some p → ltb_ℤ p.fail_count limit ≡ true

  change-Below :
      (limit : ℤ) (f : PeerData F → PeerData F) (o : Option (PeerData F)) (p : PeerData F)
      → ((q : PeerData F) → ltb_ℤ q.fail_count limit ≡ true → ltb_ℤ (f q).fail_count limit ≡ true)
      → ((q : PeerData F) → o ≡ some q → ltb_ℤ q.fail_count limit ≡ true)
      → change f o ≡ some p
      → ltb_ℤ p.fail_count limit ≡ true
  change-Below limit f none p h b e = cc
  change-Below limit f (some q) p h b e =
      let same : f q ≡ p = cc e in
      subst (λ r. ltb_ℤ r.fail_count limit ≡ true) same (h q (b q refl))

  update_peer-Below :
      (limit : ℤ) (id : String) (f : PeerData F → PeerData F) (pc : PeerCache F)
      → ((p : PeerData F) → ltb_ℤ p.fail_count limit ≡ true → ltb_ℤ (f p).fail_count limit ≡ true)
      → Below limit pc
      → Below limit (update_peer id f pc)
  update_peer-Below limit id f pc h b k p e =
      let found = sym (find-update_peer id k f pc) ∙ e in
      elim (Bool-cases (id == k)) [
        | inl y ↦ change-Below limit f (find k pc.peers) p h (b k) (rw y at found)
        | inr n ↦ b k p (rw n at found)
      ]

  change-HealthOnly :
      (f : PeerData F → PeerData F) (o : Option (PeerData F))
      → ((q : PeerData F) → HealthOnly (some q) (some (f q)))
      → HealthOnly o (change f o)
  change-HealthOnly f none h = tt
  change-HealthOnly f (some q) h = h q

  update_peer-HealthOnly :
      (id k : String) (f : PeerData F → PeerData F) (pc : PeerCache F)
      → ((q : PeerData F) → HealthOnly (some q) (some (f q)))
      → HealthOnly (find k pc.peers) (find k (update_peer id f pc).peers)
  update_peer-HealthOnly id k f pc h =
      subst (HealthOnly (find k pc.peers)) (sym (find-update_peer id k f pc)) (
        if_intro (HealthOnly (find k pc.peers)) (id == k) (change f (find k pc.peers))
          (find k pc.peers) (change-HealthOnly f (find k pc.peers) h)
          (HealthOnly-refl (find k pc.peers)))

  module _ (show : ℤ → String) (now : String) (configured : ℤ) (p : PeerData F) where
    recover-Below :
        (pc : PeerCache F)
        → Below (max_fail configured) pc
        → Below (max_fail configured) (recover show now p pc)
    unfolding recover queue_event update_health
    recover-Below pc h =
        if_intro (Below (max_fail configured)) (ltb_ℤ (pos 0) p.fail_count) _ pc
          (update_peer-Below (max_fail configured) p.peer_id _ pc (λ q b. max_fail_lem configured)
            h)
          h

    fail-Below :
        (pc : PeerCache F)
        → Below (max_fail configured) pc
        → Below (max_fail configured) (fail show now configured p pc)
    unfolding fail queue_event update_health
    fail-Below pc h =
        if_intro_false (Below (max_fail configured))
          (leb_ℤ (max_fail configured) (add64 p.fail_count (pos 1))) _ _ h
          (λ e. update_peer-Below (max_fail configured) p.peer_id _ pc (λ q b. ground arith) h)

    recover-HealthOnly :
        (k : String) (pc : PeerCache F)
        → HealthOnly (find k pc.peers) (find k (recover show now p pc).peers)
    unfolding recover queue_event update_health
    recover-HealthOnly k pc =
        if_intro (λ (x : PeerCache F). HealthOnly (find k pc.peers) (find k x.peers))
          (ltb_ℤ (pos 0) p.fail_count) _ pc (update_peer-HealthOnly p.peer_id k _ pc (λ q. refl))
          (HealthOnly-refl (find k pc.peers))

    fail-HealthOnly :
        (k : String) (pc : PeerCache F)
        → HealthOnly (find k pc.peers) (find k (fail show now configured p pc).peers)
    unfolding fail queue_event update_health
    fail-HealthOnly k pc =
        if_intro (λ (x : PeerCache F). HealthOnly (find k pc.peers) (find k x.peers))
          (leb_ℤ (max_fail configured) (add64 p.fail_count (pos 1))) _ _
          (HealthOnly-refl (find k pc.peers)) (update_peer-HealthOnly p.peer_id k _ pc (λ q. refl))

    -- A ping, whatever its outcome and however old the entry it was started for, adds and removes no
    -- peer, changes of every entry at most the last ping, the failures and the penalties, and keeps
    -- every failure count below the configured limit (3 if none is configured).
    pub ping_one_peer_lem :
        (decodes alive : Bool) (pc : PeerCache F)
        → Below (max_fail configured) pc
        → let after : PeerCache F = ping_one_peer show now decodes alive configured p pc in
          Below (max_fail configured) after
          × ((k : String) → HealthOnly (find k pc.peers) (find k after.peers))
    unfolding ping_one_peer set_ping
    ping_one_peer_lem false alive pc h = (h, λ k. HealthOnly-refl (find k pc.peers))
    ping_one_peer_lem true true pc h =
        let pinged = set_ping p.peer_id "OK" pc in
        (
          recover-Below pinged
              (update_peer-Below (max_fail configured) p.peer_id _ pc (λ q b. b) h),
          λ k.
              HealthOnly-trans (find k pc.peers) (find k pinged.peers) _
                (update_peer-HealthOnly p.peer_id k _ pc (λ q. refl)) (recover-HealthOnly k pinged),
        )
    ping_one_peer_lem true false pc h = (fail-Below pc h, λ k. fail-HealthOnly k pc)
