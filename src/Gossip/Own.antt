-- ===== src/Gossip/Own.antt =====
-- What a hub makes of the report that a node publishes (p2p.go, server_p2p.go, server_proxy.go).
use yuanyi.Base.{
  ℕ, String, Bool, true, false, ◌&&◌, not, List, [], ◌∷◌, Option, some, ◌≡◌, ◌∙◌, sym, subst, refl,
  ap, Bool-cases, inl, inr, find, get_or, is_empty, eq_iff, find-put, eq_refl, ◌==◌,
}
use yuanyi.Float.{Float64}
use yuanyi.Peer.{GpuEntry, GpuInfo, PeerData, role_relay, no_gpu}
use yuanyi.Strings.{Text}
use yuanyi.Cache.{PeerCache, upsert_gossip, merge_gossip, blank_peer, queue_event}
use yuanyi.Health.{with_gpus, announce, process_gossip}
use yuanyi.Hub.{usable}
use yuanyi.Console.{LocalStats, get_local_stats}
use yuanyi.Gateway.{too_short}
use yuanyi.Gossip.{NodeView, Broadcast, NodeEnv, gossip_subscriber, accepted}
use yuanyi.Gossip.Learned.{IsLong, tables, learn_as, learn_all, tables-gossip_subscriber}
use yuanyi.Gossip.Publish.{Sources, own_info, own_summary, publish}

-- json.Marshal takes a report, and json.Unmarshal reads it back.
abbrev pub IsRead :
    {F : Type 0} → (GpuInfo F → Option String) → (String → Option (GpuInfo F)) → GpuInfo F → Type 0
IsRead marshal unmarshal i = (d : String) × (marshal i ≡ some d) × (unmarshal d ≡ some i)

long_id : (id : String) → too_short id ≡ false → (id == "") ≡ false
unfolding too_short
long_id id h = elim (Bool-cases (id == "")) [
  | inl e ↦ cc (ap too_short ((eq_iff id "").0 e), h)
  | inr e ↦ e
]

module _ {F : Type 0} ⦃fl : Float64 F⦄ where
  -- What decides whether the hub sends requests to the node.
  abbrev pub is_worker : GpuInfo F → Bool
  is_worker info = not (info.role == role_relay) && not (info.summary == no_gpu)

  with_gpus-is_worker :
      (parse : String → List GpuEntry) (info : GpuInfo F)
      → ((with_gpus parse info).node_id ≡ info.node_id)
        × (is_worker (with_gpus parse info) ≡ is_worker info)
  unfolding with_gpus
  with_gpus-is_worker parse info =
      elim (Bool-cases (is_empty info.gpus && not (info.summary == ""))) [
        | inl e ↦ rw e (refl, refl)
        | inr e ↦ rw e (refl, refl)
      ]

  announce_peers :
      (now : String) (info : GpuInfo F) (x : PeerCache F × Bool)
      → (announce now info x).peers ≡ x.0.peers
  unfolding announce queue_event
  announce_peers now info (pc, true) = refl
  announce_peers now info (pc, false) = refl

module _ {F : Type 0} ⦃fl : Float64 F⦄ (unmarshal : String → Option (GpuInfo F)) where
  usable_entry :
      (p : PeerData F) (info : GpuInfo F)
      → p.role ≡ info.role
      → unmarshal p.gpu_info ≡ some info
      → usable unmarshal p ≡ is_worker info
  unfolding usable
  usable_entry p info role decoded = elim (Bool-cases (info.role == role_relay)) [
    | inl e ↦ rw (role, e) refl
    | inr e ↦ rw (role, e, decoded) refl
  ]

  upsert_gossip_entry :
      (marshal : GpuInfo F → Option String) (now : String) (info : GpuInfo F) (pc : PeerCache F)
      → IsRead marshal unmarshal info
      → (p : PeerData F) × (find info.node_id (upsert_gossip marshal now info pc).0.peers ≡ some p)
        × (p.role ≡ info.role)
        × (unmarshal p.gpu_info ≡ some info)
  unfolding upsert_gossip merge_gossip
  upsert_gossip_entry marshal now info pc (d, encoded, decoded) =
      let p =
        merge_gossip now d info (get_or (find info.node_id pc.peers) (blank_peer info.node_id)) in
      (
        p,
        rw (encoded, upsert_gossip)
            (find-put info.node_id info.node_id p pc.peers ∙ rw (eq_refl info.node_id) refl),
        refl,
        decoded,
      )

  -- What the gossip handler leaves under the sender's ID.
  process_gossip_entry :
      (marshal : GpuInfo F → Option String) (parse : String → List GpuEntry) (now : String)
      (info : GpuInfo F) (pc : PeerCache F)
      → IsRead marshal unmarshal (with_gpus parse info)
      → (info.node_id == "") ≡ false
      → (p : PeerData F) × (find info.node_id (process_gossip marshal parse now info pc).peers
          ≡ some p)
        × (usable unmarshal p ≡ is_worker info)
  unfolding process_gossip
  process_gossip_entry marshal parse now info pc codec named =
      let full = with_gpus parse info in
      let (same, worker) = with_gpus-is_worker parse info in
      let (p, found, role, decoded) = upsert_gossip_entry marshal now full pc codec in
      (
        p,
        rw named (
            ap (λ id. find id (announce now full (upsert_gossip marshal now full pc)).peers)
              (sym same)
            ∙ ap (find full.node_id) (announce_peers now full (upsert_gossip marshal now full pc))
            ∙ found),
        usable_entry p full role decoded ∙ worker,
      )

module _ {F : Type 0} ⦃fl : Float64 F⦄ (string_of : Text → String) where
  -- What the node tells of itself.
  abbrev pub report : NodeEnv F → Sources F → NodeView F → GpuInfo F
  report env src v = own_info string_of env.own_id src (get_local_stats src.uptime v.tui.stats)

  -- The first GPU summary that the node has, if any, decides with the role.
  abbrev pub works : Sources F → Bool
  works src = not src.relay_only && not (own_summary string_of src.readings == no_gpu)

  own_info-works :
      (id : String) (src : Sources F) (st : LocalStats)
      → is_worker (own_info string_of id src st) ≡ works src
  unfolding own_info
  own_info-works id src st = elim (Bool-cases src.relay_only) [
    | inl e ↦ rw e refl
    | inr e ↦ rw e refl
  ]

module _ {F : Type 0} ⦃fl : Float64 F⦄ (unmarshal : String → Option (GpuInfo F)) where
  -- What a hub other than the sender takes from the topic.
  abbrev pub heard : String → String → ℕ → String → Text → Broadcast F
  heard id sent now stamp clock = record {
    received_from = id;
    info = unmarshal sent;
    now = now;
    stamp = stamp;
    clock = clock;
  }

  accepted-heard :
      (hub : NodeEnv F) (info : GpuInfo F) (id sent stamp : String) (now : ℕ) (clock : Text)
      → unmarshal sent ≡ some info
      → (id == hub.own_id) ≡ false
      → accepted hub (heard id sent now stamp clock) ≡ some info
  unfolding accepted
  accepted-heard hub info id sent stamp now clock decoded other = rw other decoded

  learn_all-heard :
      (hub : NodeEnv F) (m : Broadcast F) (info : GpuInfo F) (u : NodeView F)
      → accepted hub m ≡ some info
      → hub.hub_mode ≡ true
      → (learn_all hub (m ∷ []) (tables u)).0
        ≡ process_gossip hub.marshal hub.parse_gpus m.stamp info u.cache
  learn_all-heard hub m info u taken central =
      ap (λ o. (learn_as hub m o (tables u)).0) taken ∙ rw central refl

  -- If what the sender publishes can be encoded and decoded, and the same report with the entries of
  -- its summary on the hub, and the sender's ID has eight bytes or more and is not the hub's, then the
  -- hub takes the broadcast without a panic whatever its state, and has an entry under the sender's ID
  -- afterwards: usable for requests exactly if the sender is not relay-only and its summary is not
  -- that of a node with no GPU.
  pub usable-publish :
      (string_of : Text → String) (sender hub : NodeEnv F) (src : Sources F) (v u : NodeView F)
      (now now' : ℕ) (stamp stamp' : String) (clock : Text)
      → IsRead sender.marshal unmarshal (report string_of sender src v)
      → IsRead hub.marshal unmarshal (with_gpus hub.parse_gpus (report string_of sender src v))
      → too_short sender.own_id ≡ false
      → (sender.own_id == hub.own_id) ≡ false
      → hub.hub_mode ≡ true
      → (sent : String) × (w : NodeView F) × (p : PeerData F) × ((publish string_of sender now stamp
            src v).1
          ≡ some sent)
        × (gossip_subscriber hub (heard sender.own_id sent now' stamp' clock ∷ []) u ≡ some w)
        × (find sender.own_id w.cache.peers ≡ some p)
        × (usable unmarshal p ≡ works string_of src)
  unfolding publish
  usable-publish string_of sender hub src v u now now' stamp stamp' clock (sent, encoded, decoded)
        codec long other central =
      let info = report string_of sender src v in
      let message = heard sender.own_id sent now' stamp' clock in
      let taken : accepted hub message ≡ some info =
        accepted-heard hub info sender.own_id sent stamp' now' clock decoded other in
      let (w, went, t) =
        tables-gossip_subscriber hub (message ∷ []) u (subst IsLong (sym taken) long, tt) in
      let (p, found, worth) =
        process_gossip_entry unmarshal hub.marshal hub.parse_gpus stamp' info u.cache codec
          (long_id sender.own_id long) in
      (
        sent,
        w,
        p,
        encoded,
        went,
        ap (λ x. find sender.own_id x.0.peers) t
            ∙ ap (λ (c : PeerCache F). find sender.own_id c.peers)
                (learn_all-heard hub message info u taken central)
            ∙ found,
        worth ∙ own_info-works string_of sender.own_id src (get_local_stats src.uptime v.tui.stats),
      )
