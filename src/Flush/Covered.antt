-- ===== src/Flush/Covered.antt =====
-- Rows of the table, live peers and pending deletions (peer_cache.go).
use yuanyi.Base.{
  String, Bool, true, ◌||◌, not, Option, none, List, [], ◌∷◌, Map, find, remove, is_none, get_or,
  if◌then◌else◌, find-put, find-remove, contains, ◌≡◌, refl, ◌∙◌, arith, inl, inr, Option-cases,
}
use yuanyi.Float.{Float64}
use yuanyi.Peer.{GpuInfo, PeerData}
use yuanyi.Cache.{
  PeerCache, merge_gossip, blank_peer, connected_peer, upsert_gossip, upsert_connection,
  remove_peer, set_ping, update_health, update_peer, increment_contribution,
  increment_tokens_detail,
}
use yuanyi.Cache.Invariant.{
  IsValid, upsert_gossip-IsValid, upsert_connection-IsValid, remove_peer-IsValid, set_ping-IsValid,
  update_health-IsValid, increment_contribution-IsValid, increment_tokens_detail-IsValid,
}
use yuanyi.Db.{Row}
use yuanyi.Mirror.{
  Call, gossip, connect, disconnect, ping, health, credit, credit_detail, cache_step,
}
use yuanyi.Flush.{cancel_all}

-- `_, ok := m[k]`
abbrev pub has {ℓ} : {V : Type ℓ} → String → Map V → Bool
has k m = not (is_none (find k m))

abbrev pub Covered : {F : Type 0} → PeerCache F → Map (Row F) → Type 0
Covered pc rows =
    (k : String) → has k rows ≡ true → (has k pc.peers || has k pc.pending_deletes) ≡ true

pub find-cancel_all :
    (k : String) (ids : List String) (m : Map (Unit {0}))
    → find k (cancel_all ids m) ≡ (if contains k ids then none else find k m)
unfolding cancel_all
find-cancel_all k [] m = refl
find-cancel_all k (id ∷ ids) m =
    find-cancel_all k ids (remove id m) ∙ ground (arith, find-remove id k m)

module _ {F : Type 0} ⦃fl : Float64 F⦄ (marshal : GpuInfo F → Option String) where
  update_peer-has :
      (id : String) (f : PeerData F → PeerData F) (pc : PeerCache F) (k : String)
      → (has k pc.peers || has k pc.pending_deletes) ≡ true
      → (has k (update_peer id f pc).peers || has k (update_peer id f pc).pending_deletes) ≡ true
  unfolding update_peer
  update_peer-has id f pc k h = elim (Option-cases (find id pc.peers)) [
    | inl miss ↦ rw (miss, update_peer) h
    | inr (p, hit) ↦ rw (hit, update_peer) (ground (arith, find-put id k (f p) pc.peers))
  ]

  -- A call forgets no peer: one that stops being live waits for its deletion.
  pub cache_step-has :
      (c : Call F) (pc : PeerCache F) (k : String)
      → (has k pc.peers || has k pc.pending_deletes) ≡ true
      → (has k (cache_step marshal c pc).peers || has k (cache_step marshal c pc).pending_deletes)
        ≡ true
  unfolding cache_step upsert_gossip upsert_connection remove_peer
  cache_step-has (gossip now info) pc k h = elim (Option-cases (marshal info)) [
    | inl e ↦ ground arith
    | inr (gpu_data, e) ↦ ground (
      arith,
      find-put info.node_id k
          (merge_gossip now gpu_data info
            (get_or (find info.node_id pc.peers) (blank_peer info.node_id)))
          pc.peers,
      find-remove info.node_id k pc.pending_deletes,
    )
  ]
  cache_step-has (connect now id ip) pc k h = ground (
    arith,
    find-put id k (connected_peer now id ip (find id pc.peers)) pc.peers,
    find-remove id k pc.pending_deletes,
  )
  cache_step-has (disconnect id) pc k h =
      ground (arith, find-remove id k pc.peers, find-put id k tt pc.pending_deletes)
  cache_step-has (ping id value) pc k h = unfold set_ping in update_peer-has id _ pc k h
  cache_step-has (health id fails penalty) pc k h =
      unfold update_health in update_peer-has id _ pc k h
  cache_step-has (credit id requests tokens) pc k h =
      unfold increment_contribution in update_peer-has id _ pc k h
  cache_step-has (credit_detail id requests in_tokens out_tokens) pc k h =
      unfold increment_tokens_detail in update_peer-has id _ pc k h

  update_peer-events :
      (id : String) (f : PeerData F → PeerData F) (pc : PeerCache F)
      → (update_peer id f pc).pending_events ≡ pc.pending_events
  unfolding update_peer
  update_peer-events id f pc = ground arith

  -- The event queue is QueueEvent's and Flush's alone.
  pub cache_step-events :
      (c : Call F) (pc : PeerCache F) → (cache_step marshal c pc).pending_events ≡ pc.pending_events
  unfolding cache_step upsert_gossip upsert_connection remove_peer
  cache_step-events (gossip now info) pc = ground arith
  cache_step-events (connect now id ip) pc = refl
  cache_step-events (disconnect id) pc = refl
  cache_step-events (ping id value) pc = unfold set_ping in update_peer-events id _ pc
  cache_step-events (health id fails penalty) pc =
      unfold update_health in update_peer-events id _ pc
  cache_step-events (credit id requests tokens) pc =
      unfold increment_contribution in update_peer-events id _ pc
  cache_step-events (credit_detail id requests in_tokens out_tokens) pc =
      unfold increment_tokens_detail in update_peer-events id _ pc

  -- Every gossip, connection, removal, ping, health and credit call keeps the cache valid: one entry
  -- for each peer, under its own ID, and no peer both live and waiting for its deletion.
  pub cache_step-IsValid :
      (c : Call F) (pc : PeerCache F) → IsValid pc → IsValid (cache_step marshal c pc)
  unfolding cache_step
  cache_step-IsValid (gossip now info) pc v = upsert_gossip-IsValid marshal now info pc v
  cache_step-IsValid (connect now id ip) pc v = upsert_connection-IsValid now id ip pc v
  cache_step-IsValid (disconnect id) pc v = remove_peer-IsValid id pc v
  cache_step-IsValid (ping id value) pc v = set_ping-IsValid id value pc v
  cache_step-IsValid (health id fails penalty) pc v = update_health-IsValid id fails penalty pc v
  cache_step-IsValid (credit id requests tokens) pc v =
      increment_contribution-IsValid id requests tokens pc v
  cache_step-IsValid (credit_detail id requests in_tokens out_tokens) pc v =
      increment_tokens_detail-IsValid id requests in_tokens out_tokens pc v
