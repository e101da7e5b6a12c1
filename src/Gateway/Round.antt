-- ===== src/Gateway/Round.antt =====
-- A full round of the peers (handleProxyRequest of proxy.go).
use native.Mathlib.Nat.{mod-lt, mod-eq_of_lt, mod_self}
use yuanyi.Base.{
  String, ℕ, zero, suc, ◌+◌, ◌-◌, ◌%◌, ◌<◌, ◌≤◌, false, Option, none, some, List, [], ◌∷◌, length,
  get_elem?, get_elem?-some, is_empty, All, All-get_elem?, leb, ltb, Map, values, ◌≡◌, refl, ◌⊎◌,
  inl, inr, arith, Bool-cases,
}
use yuanyi.Peer.{GpuInfo}
use yuanyi.Gateway.{State, Net, Response, peer_ids, peer_vllm_port, uint16, too_short, served}
use yuanyi.Gateway.Request.{
  passed, Attempt, answered, unserved, Outgoing, peer_result, stream_to_peer_direct, call_target,
  attempt, try_peers, or_else, peer_attempts, try_local_first, after_peers, after_local,
  handle_together,
}

-- The next index of the round robin.
next_index :
    (p n : ℕ) → p < n → ((p + 1) % n ≡ p + 1) × (p + 1 < n) ⊎ ((p + 1) % n ≡ 0) × (p + 1 ≡ n)
next_index p n h = elim (Bool-cases (ltb (p + 1) n)) [
  | inl e ↦ let below : p + 1 < n = ground arith in inl (mod-eq_of_lt below, below)
  | inr e ↦ let last : p + 1 ≡ n = ground arith in inr (rw last (mod_self n), last)
]

one_or_more : (k : ℕ) → 1 ≤ k → (k ≡ 1) ⊎ (1 < k)
one_or_more k l = ground arith

-- The index i is q itself, or fewer than n turns away from it.
eq_or_away :
    (q i n : ℕ)
    → q < n
    → i < n
    → (q ≡ i) ⊎ ((k : ℕ) × (1 ≤ k) × (k < n) × ((q + k ≡ i) ⊎ (q + k ≡ i + n)))
eq_or_away q i n h l = elim (Bool-cases (ltb q i)) [
  | inl e ↦ inr (i - q, ground arith, ground arith, inl (ground arith))
  | inr e ↦ elim (Bool-cases (ltb i q)) [
    | inl f ↦ inr (i + n - q, ground arith, ground arith, inr (ground arith))
    | inr f ↦ inl (ground arith)
  ]
]

not_empty {ℓ} :
    {A : Type ℓ} (xs : List A) (i : ℕ) {x : A} → get_elem? xs i ≡ some x → is_empty xs ≡ false
not_empty [] i e = cc
not_empty (x ∷ xs) i e = refl

get_elem?-lt {ℓ} :
    {A : Type ℓ} (xs : List A) (i : ℕ) {x : A} → get_elem? xs i ≡ some x → i < length xs
get_elem?-lt [] i e = cc
get_elem?-lt (x ∷ xs) zero e = omega arith
get_elem?-lt (x ∷ xs) (suc i) e = omega (arith, get_elem?-lt xs i e)

module _ {W F : Type 0} (net : Net W) (peers : Map (GpuInfo F)) (out : Outgoing) where
  -- The peer answers whatever the state of the world, and with no server error.
  abbrev pub Serves : String → Type 0
  Serves id =
      (w : W)
      → (w' : W) × (r : Response) × (net.call_peer w id (uint16 (peer_vllm_port peers id)) out.path
            out.bytes
          ≡ (w', some r))
        × (leb 500 r.status ≡ false)

  abbrev Answered : State W × Attempt → Type 0
  Answered x = (t : State W) × (r : Response) × (x ≡ (t, answered r))

  -- No answer, and the index stands at i.
  abbrev MovedOn : ℕ → State W × Attempt → Type 0
  MovedOn i x = (t : State W) × (x ≡ (t, unserved)) × (t.decode_index ≡ i)

  peer_result-cases :
      (i : ℕ) (w : W) (r : Option Response) (s : State W)
      → s.decode_index ≡ i
      → Answered (peer_result net w r s) ⊎ MovedOn i (peer_result net w r s)
  unfolding peer_result
  peer_result-cases i w none s h = inr (record s { world = w }, refl, h)
  peer_result-cases i w (some r) s h = elim (Bool-cases (leb 500 r.status)) [
    | inl e ↦ inr (record s { world = w }, rw e, h)
    | inr e ↦ inl (record s { world = w; stats = served s.stats }, r, rw e)
  ]

  stream-cases :
      (id : String) (s : State W)
      → Answered (stream_to_peer_direct net peers out id s)
        ⊎ MovedOn s.decode_index (stream_to_peer_direct net peers out id s)
  unfolding stream_to_peer_direct
  stream-cases id s =
      let (w, r) = net.call_peer s.world id (uint16 (peer_vllm_port peers id)) out.path out.bytes in
      peer_result-cases s.decode_index w r s refl

  module _ (ids : List String) (long : All (λ id. too_short id ≡ false) ids)
      (quiet : (s : State W) → (net.others s).decode_index ≡ s.decode_index) where
    -- The state in which the peer at index i is called.
    abbrev at_index : ℕ → State W → State W
    at_index i s = record (net.others s) { decode_index = i }

    attempt_call :
        (s : State W) (i : ℕ) (id : String)
        → (s.decode_index + 1) % length ids ≡ i
        → get_elem? ids i ≡ some id
        → attempt net peers out ids s ≡ stream_to_peer_direct net peers out id (at_index i s)
    unfolding attempt call_target
    attempt_call s i id e g =
        rw (not_empty ids i g, quiet s, e, g, All-get_elem? _ ids i id long g) refl

    attempt-cases :
        (s : State W) (i : ℕ)
        → (s.decode_index + 1) % length ids ≡ i
        → i < length ids
        → Answered (attempt net peers out ids s) ⊎ MovedOn i (attempt net peers out ids s)
    unfolding stream_to_peer_direct
    attempt-cases s i e h =
        let (id, g) = get_elem?-some ids i h in
        rw (attempt_call s i id e g) (stream-cases id (at_index i s))

    attempt-Serves :
        (s : State W) (i : ℕ) (id : String)
        → (s.decode_index + 1) % length ids ≡ i
        → get_elem? ids i ≡ some id
        → Serves id
        → Answered (attempt net peers out ids s)
    unfolding stream_to_peer_direct peer_result
    attempt-Serves s i id e g serves =
        let (w, r, call, ok) = serves (net.others s).world in
        rw (attempt_call s i id e g) (
          record (at_index i s) { world = w; stats = served (at_index i s).stats },
          r,
          rw (call, ok),
        )

    try_peers-Answered :
        (m : ℕ) (s : State W)
        → Answered (attempt net peers out ids s)
        → Answered (try_peers net peers (suc m) out ids s)
    unfolding try_peers or_else
    try_peers-Answered m s (t, r, e) = (t, r, rw e refl)

    try_peers-MovedOn :
        (m i : ℕ) (s : State W) (h : MovedOn i (attempt net peers out ids s))
        → Answered (try_peers net peers m out ids h.0)
        → Answered (try_peers net peers (suc m) out ids s)
    unfolding try_peers or_else
    try_peers-MovedOn m i s (t, e, d) (u, r, f) = (u, r, rw e f)

    module _ (i : ℕ) (id : String) (g : get_elem? ids i ≡ some id) (serves : Serves id) where
      -- From index p the peer at i is k turns away.
      abbrev Away : ℕ → ℕ → Type 0
      Away p k = (p + k ≡ i) ⊎ (p + k ≡ i + length ids)

      round :
          (m k p : ℕ) (s : State W)
          → s.decode_index ≡ p
          → p < length ids
          → 1 ≤ k
          → k ≤ m
          → Away p k
          → Answered (try_peers net peers m out ids s)
      round zero k p s d b l u a = let none_left : zero < zero = omega arith in elim none_left [ ]
      round (suc m) k p s d b l u a =
          let q = (s.decode_index + 1) % length ids in
          let in_range : i < length ids = get_elem?-lt ids i g in
          let turn = next_index s.decode_index (length ids) (omega (arith, d)) in
          let near : q < length ids = ground (arith, turn) in
          elim (one_or_more k l) [
            | inl last ↦
                try_peers-Answered m s (attempt-Serves s i id (ground (arith, turn)) g serves)
            | inr more ↦ elim (attempt-cases s q refl near) [
              | inl done ↦ try_peers-Answered m s done
              | inr moved ↦ try_peers-MovedOn m q s moved (
                  round m (k - 1) q moved.0 moved.2 near (omega arith) (omega arith)
                    (ground (arith, turn)))
            ]
          ]

      -- With as many turns as there are peers, wherever the index stands.
      full_round :
          (m : ℕ) (s : State W) → length ids ≤ m → Answered (try_peers net peers m out ids s)
      full_round zero s h =
          let in_range : i < length ids = get_elem?-lt ids i g in
          let none_left : zero < zero = omega arith in elim none_left [ ]
      full_round (suc m) s h =
          let q = (s.decode_index + 1) % length ids in
          let in_range : i < length ids = get_elem?-lt ids i g in
          let near : q < length ids = mod-lt (s.decode_index + 1) (omega arith) in
          elim (eq_or_away q i (length ids) near in_range) [
            | inl e ↦ try_peers-Answered m s (attempt-Serves s i id e g serves)
            | inr (k, l, u, a) ↦ elim (attempt-cases s q refl near) [
              | inl done ↦ try_peers-Answered m s done
              | inr moved ↦
                  try_peers-MovedOn m q s moved (round m k q moved.0 moved.2 near l (omega arith) a)
            ]
          ]

  peer_attempts_lem : (ids : List String) → length ids ≤ peer_attempts net peers ids
  unfolding peer_attempts
  peer_attempts_lem ids = ground arith

  after_local-passed :
      (ids : List String)
      → ((s : State W) → Answered (try_peers net peers (peer_attempts net peers ids) out ids s))
      → (x : State W × Option Response)
      → (t : State W) × (r : Response) × (after_local net peers out ids x ≡ (t, passed r))
  unfolding after_local after_peers
  after_local-passed ids h (s, some r) = (s, r, refl)
  after_local-passed ids h (s, none) = let (t, r, e) = h s in (t, r, rw e refl)

  -- When no other request moves the round-robin index in between, every listed peer has an ID of
  -- eight bytes or more, and one of them serves whatever the state of the world, then the client
  -- gets an answer of the own engine or of a peer: no 502 and no panic.
  pub together-passed :
      (self : String) (s : State W) (i : ℕ) (id : String)
      → ((u : State W) → (net.others u).decode_index ≡ u.decode_index)
      → All (λ id'. too_short id' ≡ false) (peer_ids self (values peers))
      → get_elem? (peer_ids self (values peers)) i ≡ some id
      → Serves id
      → (t : State W) × (r : Response) × (handle_together net peers self out s ≡ (t, passed r))
  unfolding handle_together
  together-passed self s i id quiet long g serves =
      let ids = peer_ids self (values peers) in
      after_local-passed ids
        (λ t.
          full_round ids long quiet i id g serves (peer_attempts net peers ids) t
            (peer_attempts_lem ids))
        (try_local_first net peers out ids s)
