-- ===== src/Gossip/Crash.antt =====
-- Which broadcasts end the program (p2p.go).
use yuanyi.Base.{
  Bool, true, false, ◌||◌, List, [], ◌∷◌, Option, none, some, ◌≡◌, refl, ◌>>=◌, is_none, Bool-cases,
  inl, inr,
}
use yuanyi.Float.{Float64}
use yuanyi.Peer.{GpuInfo}
use yuanyi.Gateway.{too_short}
use yuanyi.Console.{record_peer_info}
use yuanyi.Gossip.{
  NodeView, Broadcast, NodeEnv, start_local_proxy_for_peer, warn_proxy, learn_address, to_hub,
  log_broadcast, receive, accepted, receive_as, receive_one, gossip_subscriber,
}
use yuanyi.Gossip.Learned.{IsLong, receive_as-tables}

abbrev pub has_short_id : {F : Type 0} → Option (GpuInfo F) → Bool
has_short_id none = false
has_short_id (some info) = too_short info.node_id

is_long : {F : Type 0} (info : Option (GpuInfo F)) → has_short_id info ≡ false → IsLong info
is_long none h = tt
is_long (some info) h = h

-- A chain fails whose rest always fails.
fails_after {ℓ κ} :
    {A : Type ℓ} {B : Type κ} (o : Option A) (f : A → Option B)
    → ((a : A) → f a ≡ none)
    → (o >>= f) ≡ none
fails_after none f h = refl
fails_after (some a) f h = h a

module _ {F : Type 0} ⦃fl : Float64 F⦄ (env : NodeEnv F) where
  abbrev pub any_short : List (Broadcast F) → Bool
  any_short [] = false
  any_short (m ∷ ms) = has_short_id (accepted env m) || any_short ms

  -- Whatever happened before, the last line of the loop panics.
  receive_crash :
      (m : Broadcast F) (info : GpuInfo F) (v : NodeView F)
      → too_short info.node_id ≡ true
      → receive env m info v ≡ none
  unfolding receive log_broadcast
  receive_crash m info v h =
      let recorded = record v { tui = record_peer_info m.now info v.tui } in
      let next = λ (w : NodeView F).
        log_broadcast env m.clock info (to_hub env m.stamp info (learn_address env info.addr w)) in
      let crash : (w : NodeView F) → next w ≡ none = λ w. rw h refl in
      fails_after (start_local_proxy_for_peer env m.clock info.node_id recorded)
        (λ x. warn_proxy env m.clock info.node_id x >>= next)
        (λ x. fails_after (warn_proxy env m.clock info.node_id x) next crash)

  receive_as_crash :
      (m : Broadcast F) (info : Option (GpuInfo F)) (v : NodeView F)
      → has_short_id info ≡ true
      → receive_as env m info v ≡ none
  unfolding receive_as
  receive_as_crash m none v h = cc
  receive_as_crash m (some info) v h = receive_crash m info v h

  -- The subscriber ends in a panic exactly if some broadcast that is decoded and comes from another
  -- node has an ID of fewer than eight bytes.
  pub gossip_subscriber-any_short :
      (ms : List (Broadcast F)) (v : NodeView F)
      → is_none (gossip_subscriber env ms v) ≡ any_short ms
  unfolding gossip_subscriber receive_one
  gossip_subscriber-any_short [] v = refl
  gossip_subscriber-any_short (m ∷ ms) v = elim (Bool-cases (has_short_id (accepted env m))) [
    | inl e ↦ rw (receive_as_crash m (accepted env m) v e, e) refl
    | inr e ↦
        let (u, taken, t) =
          receive_as-tables env m (accepted env m) v (is_long (accepted env m) e) in
        rw (taken, e) (gossip_subscriber-any_short ms u)
  ]
