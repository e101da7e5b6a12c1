-- ===== src/Db/Batch.antt =====
-- BatchFlush (server_db.go): one transaction. `runs` says whether the engine executes a statement;
-- at the first that it does not, the transaction is rolled back.
pub mod Laws
use yuanyi.Base.{
  String, ℤ, pos, ℕ, ◌+◌, Bool, true, false, ◌&&◌, ◌||◌, Option, none, some, List, [], ◌∷◌, ◌++◌,
  Map, find, put, remove, if◌then◌else◌, is_empty, ◌>>=◌, ◌>>◌, guard,
}
use yuanyi.Float.{Float64}
use yuanyi.Peer.{PeerData, PeerEvent}
use yuanyi.Db.{Row, Db}

pub data Statement (F : Type 0) : Type 0 where
  begin commit prepare_peers prepare_events : Statement F
  delete_rows : List String → Statement F
  write_peer : PeerData F → Statement F
  write_event : PeerEvent → Statement F

module _ {F : Type 0} where
  -- The columns that the upsert of BatchFlush sets, in a new row as in an old one.
  unfoldable pub row_of : PeerData F → Row F
  row_of p = record {
    peer_id = p.peer_id;
    gpu_info = p.gpu_info;
    ip_address = p.ip_address;
    last_ping = p.last_ping;
    bootstrap_addr = some p.bootstrap_addr;
    engine_id = some p.engine_id;
    fail_count = p.fail_count;
    penalty_points = p.penalty_points;
    total_requests = p.total_requests;
    total_tokens = p.total_tokens;
    in_tokens = p.in_tokens;
    out_tokens = p.out_tokens;
    contribution_score = p.contribution_score;
    role = p.role;
    ip_verified = p.ip_verified;
  }

  -- DELETE FROM peers WHERE peer_id IN (…)
  unfoldable pub delete_all : List String → Map (Row F) → Map (Row F)
  delete_all [] m = m
  delete_all (id ∷ ids) m = delete_all ids (remove id m)

  -- INSERT INTO peer_events: the engine numbers the row.
  unfoldable pub append_event : PeerEvent → Db F → Db F
  append_event e db = record db {
    events = db.events ++ record e { id = pos db.next_id } ∷ [];
    next_id = db.next_id + 1;
  }

  unfoldable pub write_peers :
      (Statement F → Bool) → List (PeerData F) → Map (Row F) → Option (Map (Row F))
  unfolding row_of
  write_peers runs [] m = some m
  write_peers runs (p ∷ ps) m = do
    guard (runs (write_peer p))
    write_peers runs ps (put p.peer_id (row_of p) m)

  unfoldable pub write_events : (Statement F → Bool) → List PeerEvent → Db F → Option (Db F)
  unfolding append_event
  write_events runs [] db = some db
  write_events runs (e ∷ es) db = do
    guard (runs (write_event e))
    write_events runs es (append_event e db)

  -- The statements between Begin and Commit, in order.
  unfoldable pub transaction :
      (Statement F → Bool) → List (PeerData F) → List PeerEvent → List String → Db F → Option (Db F)
  unfolding delete_all write_peers write_events
  transaction runs peers events deletes db = do
    guard (runs begin)
    guard (is_empty deletes || runs (delete_rows deletes))
    guard (is_empty peers || runs prepare_peers)
    rows ← write_peers runs peers (delete_all deletes db.peers)
    guard (is_empty events || runs prepare_events)
    flushed ← write_events runs events (record db { peers = rows })
    guard (runs commit)
    some flushed

  -- `none` is an error, and then the database is as it was before.
  unfoldable pub batch_flush :
      (Statement F → Bool) → List (PeerData F) → List PeerEvent → List String → Db F → Option (Db F)
  unfolding transaction
  batch_flush runs peers events deletes db =
      if is_empty peers && is_empty events && is_empty deletes
      then some db
      else transaction runs peers events deletes db
