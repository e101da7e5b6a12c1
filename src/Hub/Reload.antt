-- ===== src/Hub/Reload.antt =====
-- The backends after a reload (reloadBackendsFromDB of server_proxy.go).
use mathlib.Core.List.{append_assoc, append-nil}
use yuanyi.Base.{
  Bool-cases, String, ℕ, suc, ◌≤◌, pos, pos_part, Bool, true, false, not, Option, none, some, List,
  [], ◌∷◌, ◌++◌, length, length-append, select, is_empty, All, All-append, All-imp, All-Elem-select,
  Elem, if◌then◌else◌, if_intro, ltb_ℤ, ◌≡◌, refl, ◌⊎◌, inl, inr, ◌∙◌, arith, Option-cases,
}
use yuanyi.Peer.{GpuInfo, PeerData}
use yuanyi.Hub.{
  Backend, ProxyServer, Cluster, is_pd_together, usable, backend_of, Split, place, place_decoded,
  place_all, reload_backends,
}

module _ {P : Type 0} (c : Cluster) where
  place-All :
      (Q : Backend P → Type 0) (i : ℕ) (b : Backend P) (s : Split P)
      → Q b
      → All Q s.prefill × All Q s.decode
      → All Q (place c i b s).prefill × All Q (place c i b s).decode
  unfolding place
  place-All Q i b s q h = ground (
    arith,
    All-append Q s.prefill (b ∷ []) h.0 (q, tt),
    All-append Q s.decode (b ∷ []) h.1 (q, tt),
  )

  -- The bounds on the lists after `i` peers.
  abbrev Caps : ℕ → Split P → Type 0
  Caps i s =
      (length s.prefill ≤ i)
      × (length s.prefill ≤ pos_part c.prefill_nodes)
      × (ltb_ℤ (pos 0) c.decode_nodes ≡ true → length s.decode ≤ pos_part c.decode_nodes)

  place-Caps :
      (i : ℕ) (b : Backend P) (s : Split P)
      → is_pd_together c ≡ false
      → Caps i s
      → Caps (suc i) (place c i b s)
  unfolding place
  place-Caps i b s e h =
      ground (arith, length-append s.prefill (b ∷ []), length-append s.decode (b ∷ []))

module _ {F P : Type 0} (decode_id : String → Option P) (c : Cluster) where
  place_decoded-All :
      (Q : Backend P → Type 0) (i : ℕ) (p : PeerData F) (o : Option P) (s : Split P)
      → ((pid : P) → o ≡ some pid → Q (backend_of pid p))
      → All Q s.prefill × All Q s.decode
      → All Q (place_decoded c i p o s).prefill × All Q (place_decoded c i p o s).decode
  unfolding place_decoded
  place_decoded-All Q i p none s q h = h
  place_decoded-All Q i p (some pid) s q h = place-All c Q i (backend_of pid p) s (q pid refl) h

  -- Both lists hold only what the peers' IDs decode to.
  place_all-All :
      (Q : Backend P → Type 0) (i : ℕ) (ps : List (PeerData F)) (s : Split P)
      → All (λ p. (pid : P) → decode_id p.peer_id ≡ some pid → Q (backend_of pid p)) ps
      → All Q s.prefill × All Q s.decode
      → All Q (place_all decode_id c i ps s).prefill × All Q (place_all decode_id c i ps s).decode
  unfolding place_all
  place_all-All Q i [] s h f = f
  place_all-All Q i (p ∷ ps) s h f =
      place_all-All Q (suc i) ps _ h.1 (place_decoded-All Q i p (decode_id p.peer_id) s h.0 f)

  place_decoded-Caps :
      (i : ℕ) (p : PeerData F) (o : Option P) (s : Split P)
      → is_pd_together c ≡ false
      → Caps c i s
      → Caps c (suc i) (place_decoded c i p o s)
  unfolding place_decoded
  place_decoded-Caps i p none s e h = (omega (arith, h.0), h.1, h.2)
  place_decoded-Caps i p (some pid) s e h = place-Caps c i (backend_of pid p) s e h

  place_all-Caps :
      (i : ℕ) (ps : List (PeerData F)) (s : Split P)
      → is_pd_together c ≡ false
      → Caps c i s
      → let r : Split P = place_all decode_id c i ps s in
        (length r.prefill ≤ pos_part c.prefill_nodes)
        × (ltb_ℤ (pos 0) c.decode_nodes ≡ true → length r.decode ≤ pos_part c.decode_nodes)
  unfolding place_all
  place_all-Caps i [] s e h = (h.1, h.2)
  place_all-Caps i (p ∷ ps) s e h =
      place_all-Caps (suc i) ps _ e (place_decoded-Caps i p (decode_id p.peer_id) s e h)

  abbrev push : Option P → PeerData F → List (Backend P) → List (Backend P)
  push none p bs = bs
  push (some pid) p bs = backend_of pid p ∷ bs

  -- The backends of the peers whose ID decodes, in order.
  abbrev pub decoded : List (PeerData F) → List (Backend P)
  decoded [] = []
  decoded (p ∷ ps) = push (decode_id p.peer_id) p (decoded ps)

  place_all_together :
      (i : ℕ) (ps : List (PeerData F)) (s : Split P)
      → is_pd_together c ≡ true
      → place_all decode_id c i ps s ≡ record s { prefill = s.prefill ++ decoded ps }
  unfolding place_all place
  place_all_together i [] s e = rw append-nil
  place_all_together i (p ∷ ps) s e = elim (Option-cases (decode_id p.peer_id)) [
    | inl n ↦ rw (n, place_decoded) (place_all_together (suc i) ps s e)
    | inr (pid, n) ↦
        rw (n, place_decoded, e)
          (place_all_together (suc i) ps (record s { prefill = s.prefill ++ backend_of pid p ∷ [] })
              e
            ∙ ground (arith, append_assoc s.prefill (backend_of pid p ∷ []) (decoded ps)))
  ]

if_not_empty {ℓ} : {A : Type ℓ} (xs : List A) → (if not (is_empty xs) then xs else []) ≡ xs
if_not_empty [] = refl
if_not_empty (x ∷ xs) = refl

if_or_eq {ℓ} :
    {A : Type ℓ} (b : Bool) (xs ys : List A) (n : ℕ)
    → length ys ≤ n
    → (length (if b then xs else ys) ≤ n) ⊎ ((if b then xs else ys) ≡ xs)
if_or_eq true xs ys n h = inr refl
if_or_eq false xs ys n h = inl h

-- A backend that stands for a usable peer of the snapshot.
abbrev pub ServesPeer :
    {F P : Type 0}
    → (String → Option (GpuInfo F))
    → (String → Option P)
    → List (PeerData F)
    → Backend P
    → Type 0
ServesPeer {F} unmarshal decode_id peers b =
    (p : PeerData F) × Elem p peers
    × (usable unmarshal p ≡ true)
    × (decode_id p.peer_id ≡ some b.peer_id)
    × (b ≡ backend_of b.peer_id p)

module _ {F P : Type 0} (decode_id : String → Option P) (unmarshal : String → Option (GpuInfo F))
    (c : Cluster) (peers : List (PeerData F)) (srv : ProxyServer P)
    (some_usable : is_empty (select (usable unmarshal) peers) ≡ false) where
  -- After a reload every backend, of either list, stands for a peer of the snapshot that is no
  -- relay and has a GPU.
  pub reload-usable :
      All
        (ServesPeer unmarshal decode_id peers)
        (reload_backends decode_id unmarshal c peers srv).prefill_backends
      × All
          (ServesPeer unmarshal decode_id peers)
          (reload_backends decode_id unmarshal c peers srv).decode_backends
  unfolding reload_backends backend_of
  reload-usable =
      let both =
        place_all-All decode_id c (ServesPeer unmarshal decode_id peers) 0
          (select (usable unmarshal) peers) (record { prefill = []; decode = [] })
          (All-imp _ (λ p h pid e. (p, h.0, h.1, e, refl))
            (All-Elem-select (usable unmarshal) peers))
          (tt, tt) in
      rw some_usable
        (both.0, if_intro (All (ServesPeer unmarshal decode_id peers)) _ _ _ both.0 both.1)

  -- Without dedicated nodes both lists are the usable peers in the order of the snapshot.
  pub reload-together :
      is_pd_together c ≡ true
      → ((reload_backends decode_id unmarshal c peers srv).prefill_backends
          ≡ decoded decode_id c (select (usable unmarshal) peers))
        × ((reload_backends decode_id unmarshal c peers srv).decode_backends
            ≡ decoded decode_id c (select (usable unmarshal) peers))
  unfolding reload_backends
  reload-together e =
      rw
        (
          some_usable,
          place_all_together decode_id c 0 (select (usable unmarshal) peers)
              (record { prefill = []; decode = [] }) e,
        )
        (refl, if_not_empty (decoded decode_id c (select (usable unmarshal) peers)))

  -- With dedicated nodes there are at most as many prefill backends as configured, and, unless the
  -- number of decode nodes is not positive, at most as many decode backends, or else no peer was
  -- left for decoding and the prefill backends decode too.
  pub reload-capped :
      is_pd_together c ≡ false
      → let r : ProxyServer P = reload_backends decode_id unmarshal c peers srv in
        (length r.prefill_backends ≤ pos_part c.prefill_nodes)
        × ((ltb_ℤ (pos 0) c.decode_nodes ≡ false)
            ⊎ ((length r.decode_backends ≤ pos_part c.decode_nodes)
                ⊎ (r.decode_backends ≡ r.prefill_backends)))
  unfolding reload_backends
  reload-capped e =
      let caps =
        place_all-Caps decode_id c 0 (select (usable unmarshal) peers)
          (record { prefill = []; decode = [] }) e (omega arith, omega arith, λ h. omega arith) in
      rw some_usable (
        caps.0,
        elim (Bool-cases (ltb_ℤ (pos 0) c.decode_nodes)) [
          | inl h ↦ inr (if_or_eq _ _ _ (pos_part c.decode_nodes) (caps.1 h))
          | inr n ↦ inl n
        ],
      )
