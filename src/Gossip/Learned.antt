-- ===== src/Gossip/Learned.antt =====
-- What a node learns from broadcasts (p2p.go).
use yuanyi.Base.{
  String, Bool, true, false, List, [], ◌∷◌, All, Option, none, some, ◌≡◌, ◌∙◌, refl, ap, ◌>>=◌,
  if◌then◌else◌, contains, Bool-cases, inl, inr, Map, put,
}
use yuanyi.Float.{Float64}
use yuanyi.Peer.{GpuInfo}
use yuanyi.Cache.{PeerCache}
use yuanyi.Health.{process_gossip}
use yuanyi.Gateway.{too_short}
use yuanyi.Strings.{Text, codes}
use yuanyi.Console.{PeerRecord, record_peer_info, add_log}
use yuanyi.Gossip.{
  NodeView, log_to, opened, warned, broadcast_text, Broadcast, NodeEnv, start_local_proxy_for_peer,
  warn_proxy, learn_address, to_hub, log_broadcast, receive, accepted, receive_as, receive_one,
  gossip_subscriber,
}

-- The cuts of an ID are in range.
abbrev pub IsLong : {F : Type 0} → Option (GpuInfo F) → Type 0
IsLong none = Unit
IsLong (some info) = too_short info.node_id ≡ false

module _ {F : Type 0} where
  -- The tables that a broadcast is for: the hub's cache and the terminal's peers.
  abbrev pub tables : NodeView F → PeerCache F × Map (PeerRecord F)
  tables v = (v.cache, v.tui.peer_records)

  start_tables :
      (env : NodeEnv F) (clock : Text) (id : String) (v : NodeView F)
      → too_short id ≡ false
      → (x : NodeView F × Bool) × (start_local_proxy_for_peer env clock id v ≡ some x)
        × (tables x.0 ≡ tables v)
  unfolding start_local_proxy_for_peer add_log
  start_tables env clock id v h = elim (Bool-cases (contains id v.active_proxies)) [
    | inl e ↦ ((v, true), rw e refl, refl)
    | inr e ↦ elim (Bool-cases (env.listen id)) [
      | inl l ↦ ((opened env clock id v, true), rw (e, l, h) refl, refl)
      | inr l ↦ ((v, false), rw (e, l) refl, refl)
    ]
  ]

  warn_tables :
      (env : NodeEnv F) (clock : Text) (id : String) (x : NodeView F × Bool)
      → too_short id ≡ false
      → (v : NodeView F) × (warn_proxy env clock id x ≡ some v) × (tables v ≡ tables x.0)
  unfolding warn_proxy add_log
  warn_tables env clock id (v, true) h = (v, refl, refl)
  warn_tables env clock id (v, false) h = (warned env clock id v, rw h refl, refl)

module _ {F : Type 0} ⦃fl : Float64 F⦄ (env : NodeEnv F) where
  -- The hub takes every broadcast by process_gossip, the terminal records it.
  abbrev pub learn_one :
      Broadcast F → GpuInfo F → PeerCache F × Map (PeerRecord F) → PeerCache F × Map (PeerRecord F)
  learn_one m info (pc, peers) = (
    if env.hub_mode then process_gossip env.marshal env.parse_gpus m.stamp info pc else pc,
    put info.node_id (record { info = info; last_seen = m.now }) peers,
  )

  abbrev pub learn_as :
      Broadcast F
      → Option (GpuInfo F)
      → PeerCache F × Map (PeerRecord F)
      → PeerCache F × Map (PeerRecord F)
  learn_as m none t = t
  learn_as m (some info) t = learn_one m info t

  abbrev pub learn_all :
      List (Broadcast F) → PeerCache F × Map (PeerRecord F) → PeerCache F × Map (PeerRecord F)
  learn_all [] t = t
  learn_all (m ∷ ms) t = learn_all ms (learn_as m (accepted env m) t)

  tables-to_hub :
      (stamp : String) (info : GpuInfo F) (v : NodeView F)
      → tables (to_hub env stamp info v) ≡ (
        if env.hub_mode
            then process_gossip env.marshal env.parse_gpus stamp info v.cache
            else v.cache,
        v.tui.peer_records,
      )
  unfolding to_hub
  tables-to_hub stamp info v = elim (Bool-cases env.hub_mode) [
    | inl e ↦ rw e refl
    | inr e ↦ rw e refl
  ]

  log_broadcast_lem :
      (clock : Text) (info : GpuInfo F) (v : NodeView F)
      → too_short info.node_id ≡ false
      → log_broadcast env clock info v
        ≡ some (log_to clock (codes "[GOSSIP]") (broadcast_text env info) v)
  unfolding log_broadcast
  log_broadcast_lem clock info v h = rw h refl

  -- The tables before and after the address book, the hub and the log.
  finish_tables :
      (m : Broadcast F) (info : GpuInfo F) (u : NodeView F) (t : PeerCache F × Map (PeerRecord F))
      → tables u ≡ (t.0, put info.node_id (record { info = info; last_seen = m.now }) t.1)
      → tables (
          log_to m.clock
            (codes "[GOSSIP]")
            (broadcast_text env info)
            (to_hub env m.stamp info (learn_address env info.addr u)))
        ≡ learn_one m info t
  unfolding learn_address add_log
  finish_tables m info u t h =
      tables-to_hub m.stamp info (learn_address env info.addr u)
      ∙ ap
          (λ (x : PeerCache F × Map (PeerRecord F)). (
            if env.hub_mode
                then process_gossip env.marshal env.parse_gpus m.stamp info x.0
                else x.0,
            x.1,
          ))
          h

  receive-tables :
      (m : Broadcast F) (info : GpuInfo F) (v : NodeView F)
      → too_short info.node_id ≡ false
      → (w : NodeView F) × (receive env m info v ≡ some w)
        × (tables w ≡ learn_one m info (tables v))
  unfolding receive record_peer_info
  receive-tables m info v h =
      let recorded = record v { tui = record_peer_info m.now info v.tui } in
      let (x, started, kept) = start_tables env m.clock info.node_id recorded h in
      let (u, opened_or_not, kept') = warn_tables env m.clock info.node_id x h in
      let last = to_hub env m.stamp info (learn_address env info.addr u) in
      let next = λ (w : NodeView F).
        log_broadcast env m.clock info (to_hub env m.stamp info (learn_address env info.addr w)) in
      (
        log_to m.clock (codes "[GOSSIP]") (broadcast_text env info) last,
        ap (λ o. o >>= λ y. warn_proxy env m.clock info.node_id y >>= next) started
            ∙ ap (λ o. o >>= next) opened_or_not
            ∙ log_broadcast_lem m.clock info last h,
        finish_tables m info u (tables v) (kept' ∙ kept),
      )

  pub receive_as-tables :
      (m : Broadcast F) (info : Option (GpuInfo F)) (v : NodeView F)
      → IsLong info
      → (w : NodeView F) × (receive_as env m info v ≡ some w)
        × (tables w ≡ learn_as m info (tables v))
  unfolding receive_as
  receive_as-tables m none v h = (v, refl, refl)
  receive_as-tables m (some info) v h = receive-tables m info v h

  -- If every broadcast that is decoded and comes from another node has an ID of eight bytes or
  -- more, the subscriber takes them all without a panic, whatever becomes of their addresses and
  -- local proxies: the cache of a hub is then the one that the gossip handler makes of them in
  -- their order, on another node it is as before, and the terminal's table holds the last report
  -- and its time under each ID.
  pub tables-gossip_subscriber :
      (ms : List (Broadcast F)) (v : NodeView F)
      → All (λ m. IsLong (accepted env m)) ms
      → (w : NodeView F) × (gossip_subscriber env ms v ≡ some w)
        × (tables w ≡ learn_all ms (tables v))
  unfolding gossip_subscriber receive_one
  tables-gossip_subscriber [] v h = (v, refl, refl)
  tables-gossip_subscriber (m ∷ ms) v h =
      let (u, e, t) = receive_as-tables m (accepted env m) v h.0 in
      let (w, e', t') = tables-gossip_subscriber ms u h.1 in
      (w, ap (λ o. o >>= gossip_subscriber env ms) e ∙ e', t' ∙ ap (learn_all ms) t)
