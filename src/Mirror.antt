-- ===== src/Mirror.antt =====
-- The methods of PeerCache (peer_cache.go) beside the statements of DBManager (server_db.go) that
-- they replaced on the hot path, call by call.
pub mod Agree
pub mod Calls
use yuanyi.Base.{String, ℤ, Option, none, some, List, [], ◌∷◌}
use yuanyi.Float.{Float64}
use yuanyi.Peer.{GpuInfo}
use yuanyi.Cache.{
  PeerCache, upsert_gossip, upsert_connection, remove_peer, set_ping, update_health,
  increment_contribution, increment_tokens_detail,
}
use yuanyi.Db.{
  SqlSum, Db, upsert_peer, sync_peer_stats, upsert_peer_connection, delete_peer, update_peer_ping,
  update_peer_health, increment_peer_contribution, increment_peer_tokens_detail,
}

pub data Call (F : Type 0) : Type 0 where
  gossip : String → GpuInfo F → Call F
  connect : String → String → String → Call F
  disconnect : String → Call F
  ping : String → String → Call F
  health : String → ℤ → ℤ → Call F
  credit : String → ℤ → ℤ → Call F
  credit_detail : String → ℤ → ℤ → ℤ → Call F

module _ {F : Type 0} ⦃fl : Float64 F⦄ (marshal : GpuInfo F → Option String) where
  unfoldable pub cache_step : Call F → PeerCache F → PeerCache F
  cache_step (gossip now info) pc = (upsert_gossip marshal now info pc).0
  cache_step (connect now peer_id ip) pc = upsert_connection now peer_id ip pc
  cache_step (disconnect peer_id) pc = remove_peer peer_id pc
  cache_step (ping peer_id value) pc = set_ping peer_id value pc
  cache_step (health peer_id fails penalty) pc = update_health peer_id fails penalty pc
  cache_step (credit peer_id requests tokens) pc = increment_contribution peer_id requests tokens pc
  cache_step (credit_detail peer_id requests in_tokens out_tokens) pc =
      increment_tokens_detail peer_id requests in_tokens out_tokens pc

  -- A gossip broadcast was UpsertPeer and then SyncPeerStats.
  unfoldable pub db_step : SqlSum → Call F → Db F → Db F
  db_step sql (gossip now info) db = elim (marshal info) [
    | none ↦ db
    | some gpu_data ↦ sync_peer_stats info.node_id info.total_requests info.total_tokens (
        upsert_peer now info.node_id info.addr gpu_data info.bootstrap_addr info.engine_id info.role
          db)
  ]
  db_step sql (connect now peer_id ip) db = upsert_peer_connection now peer_id ip db
  db_step sql (disconnect peer_id) db = delete_peer peer_id db
  db_step sql (ping peer_id value) db = update_peer_ping peer_id value db
  db_step sql (health peer_id fails penalty) db = update_peer_health peer_id fails penalty db
  db_step sql (credit peer_id requests tokens) db =
      increment_peer_contribution sql peer_id requests tokens db
  db_step sql (credit_detail peer_id requests in_tokens out_tokens) db =
      increment_peer_tokens_detail sql peer_id requests in_tokens out_tokens db

  unfoldable pub cache_run : List (Call F) → PeerCache F → PeerCache F
  cache_run [] pc = pc
  cache_run (c ∷ calls) pc = cache_run calls (cache_step c pc)

  unfoldable pub db_run : SqlSum → List (Call F) → Db F → Db F
  db_run sql [] db = db
  db_run sql (c ∷ calls) db = db_run sql calls (db_step sql c db)
