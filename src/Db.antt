-- ===== src/Db.antt =====
-- server_db.go: the two tables of peers.db and the statements that the hub runs on them. The engine
-- is SQLite: what its `+` gives outside 64 bits, and whether a statement fails, are parameters.
pub mod Batch
pub mod Retention
pub mod Events
use yuanyi.Base.{
  String, ℤ, pos, Bool, true, false, ◌&&◌, Option, none, some, List, Map, find, put, remove, values,
  if◌then◌else◌, ltb_ℤ, leb_ℤ, add64, get_or, ◌+ℤ◌, InInt64, ◌≡◌, ℕ, map,
}
use yuanyi.Float.{Float64}
use yuanyi.Peer.{PeerData, PeerEvent}
use yuanyi.Cache.{contribution, at_least_one}

-- The `+` of the engine on integer columns is exact within 64 bits; beyond, it answers otherwise.
pub record SqlSum : Type 0 where
  pub sum : ℤ → ℤ → ℤ
  pub sum_exact : (a b : ℤ) → InInt64 (a +ℤ b) → sum a b ≡ a +ℤ b

-- A row of `peers`. The two columns that UpsertPeerConnection leaves out may be NULL; the counters
-- have a default.
pub record Row (F : Type 0) : Type 0 where
  pub peer_id : String
  pub gpu_info : String
  pub ip_address : String
  pub last_ping : String
  pub bootstrap_addr : Option String
  pub engine_id : Option String
  pub fail_count : ℤ
  pub penalty_points : ℤ
  pub total_requests : ℤ
  pub total_tokens : ℤ
  pub in_tokens : ℤ
  pub out_tokens : ℤ
  pub contribution_score : F
  pub role : String
  pub ip_verified : Bool

-- The `peers` table by its primary key, and `peer_events`, oldest first.
pub record Db (F : Type 0) : Type 0 where
  pub peers : Map (Row F)
  pub events : List PeerEvent
  pub next_id : ℕ

module _ {F : Type 0} ⦃fl : Float64 F⦄ where
  -- The projection peerColumns, with its COALESCE guards.
  unfoldable pub scan_row : Row F → PeerData F
  scan_row r = record {
    peer_id = r.peer_id;
    gpu_info = r.gpu_info;
    ip_address = r.ip_address;
    last_ping = r.last_ping;
    bootstrap_addr = get_or r.bootstrap_addr "";
    engine_id = get_or r.engine_id "";
    fail_count = r.fail_count;
    penalty_points = r.penalty_points;
    total_requests = r.total_requests;
    total_tokens = r.total_tokens;
    in_tokens = r.in_tokens;
    out_tokens = r.out_tokens;
    contribution_score = r.contribution_score;
    role = r.role;
    ip_verified = r.ip_verified;
  }

  -- A row with a key, the columns NULL or at their defaults.
  unfoldable pub default_row : String → Row F
  default_row peer_id = record {
    peer_id = peer_id;
    gpu_info = "";
    ip_address = "";
    last_ping = "";
    bootstrap_addr = none;
    engine_id = none;
    fail_count = pos 0;
    penalty_points = pos 0;
    total_requests = pos 0;
    total_tokens = pos 0;
    in_tokens = pos 0;
    out_tokens = pos 0;
    contribution_score = fl.of_int (pos 0);
    role = "";
    ip_verified = false;
  }

  -- INSERT … ON CONFLICT(peer_id) DO UPDATE
  unfoldable pub upsert : String → Row F → (Row F → Row F) → Db F → Db F
  upsert peer_id fresh change db =
      let row = elim (find peer_id db.peers) as (λ _. Row F) [ none ↦ fresh | some r ↦ change r ] in
      record db { peers = put peer_id row db.peers }

  -- UPDATE peers SET … WHERE peer_id = ?
  unfoldable pub update : String → (Row F → Row F) → Db F → Db F
  update peer_id change db = elim (find peer_id db.peers) [
    | none ↦ db
    | some r ↦ record db { peers = put peer_id (change r) db.peers }
  ]

  -- The VALUES of UpsertPeer.
  unfoldable pub inserted_row : String → String → String → String → String → String → String → Row F
  unfolding default_row
  inserted_row now peer_id ip_address gpu_info bootstrap_addr engine_id role =
      record (default_row peer_id) {
        ip_address = ip_address;
        last_ping = now;
        gpu_info = gpu_info;
        bootstrap_addr = some bootstrap_addr;
        engine_id = some engine_id;
        role = role;
      }

  -- Its DO UPDATE SET.
  unfoldable pub refreshed_row : String → String → String → String → String → String → Row F → Row F
  refreshed_row now ip_address gpu_info bootstrap_addr engine_id role r = record r {
    ip_address = if r.ip_verified then r.ip_address else ip_address;
    last_ping = now;
    gpu_info = gpu_info;
    bootstrap_addr = some bootstrap_addr;
    engine_id = some engine_id;
    role = role;
  }

  unfoldable pub upsert_peer :
      String → String → String → String → String → String → String → Db F → Db F
  unfolding upsert inserted_row refreshed_row
  upsert_peer now peer_id ip_address gpu_info bootstrap_addr engine_id role =
      upsert peer_id (inserted_row now peer_id ip_address gpu_info bootstrap_addr engine_id role)
        (refreshed_row now ip_address gpu_info bootstrap_addr engine_id role)

  unfoldable pub upsert_peer_connection : String → String → String → Db F → Db F
  unfolding upsert default_row
  upsert_peer_connection now peer_id ip_address =
      upsert peer_id
        (record (default_row peer_id) {
          ip_address = ip_address;
          last_ping = now;
          gpu_info = "[]";
          role = "";
          ip_verified = true;
        })
        (λ r. record r { ip_address = ip_address; last_ping = now; ip_verified = true })

  unfoldable pub update_peer_ping : String → String → Db F → Db F
  unfolding update
  update_peer_ping peer_id rtt = update peer_id λ r. record r { last_ping = rtt }

  unfoldable pub delete_peer : String → Db F → Db F
  delete_peer peer_id db = record db { peers = remove peer_id db.peers }

  unfoldable pub update_peer_health : String → ℤ → ℤ → Db F → Db F
  unfolding update
  update_peer_health peer_id fail_count penalty_points =
      update peer_id λ r. record r { fail_count = fail_count; penalty_points = penalty_points }

  -- The columns that IncrementPeerContribution adds to.
  unfoldable pub add_row : SqlSum → ℤ → ℤ → F → Row F → Row F
  add_row sql requests tokens added_score r = record r {
    total_requests = sql.sum r.total_requests requests;
    total_tokens = sql.sum r.total_tokens tokens;
    contribution_score = fl.add r.contribution_score added_score;
  }

  unfoldable pub increment_peer_contribution : SqlSum → String → ℤ → ℤ → Db F → Db F
  unfolding update add_row at_least_one
  increment_peer_contribution sql peer_id requests tokens =
      let n = at_least_one requests in update peer_id (add_row sql n tokens (contribution n tokens))

  unfoldable pub increment_peer_tokens_detail : SqlSum → String → ℤ → ℤ → ℤ → Db F → Db F
  unfolding update add_row at_least_one
  increment_peer_tokens_detail sql peer_id requests in_tokens out_tokens =
      let n = at_least_one requests in
      let total = add64 in_tokens out_tokens in
      update peer_id λ r. record (add_row sql n total (contribution n total) r) {
        in_tokens = sql.sum r.in_tokens in_tokens;
        out_tokens = sql.sum r.out_tokens out_tokens;
      }

  unfoldable pub sync_peer_stats : String → ℤ → ℤ → Db F → Db F
  unfolding update
  sync_peer_stats peer_id requests tokens db =
      if leb_ℤ requests (pos 0) && leb_ℤ tokens (pos 0)
      then db
      else update peer_id
          (λ r. record r {
            total_requests = if ltb_ℤ r.total_requests requests then requests else r.total_requests;
            total_tokens = if ltb_ℤ r.total_tokens tokens then tokens else r.total_tokens;
            contribution_score =
                if fl.lt r.contribution_score (contribution requests tokens)
                then contribution requests tokens
                else r.contribution_score;
          })
          db

  unfoldable pub get_all_peers : Db F → List (PeerData F)
  unfolding scan_row
  get_all_peers db = map scan_row (values db.peers)
