-- ===== src/Cache.antt =====
-- peer_cache.go: the hub's store of live peer state. Each method takes the formatted time `now`
-- where the code calls time.Now(), and returns the new cache; the mutex makes each of them one step.
pub mod Invariant
pub mod Growth
use yuanyi.Base.{
  String, ℤ, pos, Bool, true, false, ◌||◌, not, Option, none, some, List, [], ◌∷◌, ◌++◌, Map, find,
  put, remove, values, if◌then◌else◌, ltb_ℤ, leb_ℤ, add64, get_or, is_none, ℕ, length,
}
use yuanyi.Float.{Float64}
use yuanyi.Peer.{GpuInfo, PeerData, PeerEvent}

-- `done`, the channel that ends the flusher, is left out.
pub record PeerCache (F : Type 0) : Type 0 where
  pub peers : Map (PeerData F)
  pub pending_events : List PeerEvent
  -- a map into struct{}: a set of peer IDs
  pub pending_deletes : Map (Unit {0})

-- The larger of the stored and the reported value.
unfoldable pub keep_max : ℤ → ℤ → ℤ
keep_max stored reported = if ltb_ℤ stored reported then reported else stored

-- `if requests <= 0 { requests = 1 }`
unfoldable pub at_least_one : ℤ → ℤ
at_least_one requests = if leb_ℤ requests (pos 0) then pos 1 else requests

module _ {F : Type 0} ⦃fl : Float64 F⦄ where
  unfoldable pub new_peer_cache : PeerCache F
  new_peer_cache = record { peers = []; pending_events = []; pending_deletes = [] }

  -- &PeerData{PeerID: id}
  unfoldable pub blank_peer : String → PeerData F
  blank_peer peer_id = record {
    peer_id = peer_id;
    gpu_info = "";
    ip_address = "";
    last_ping = "";
    bootstrap_addr = "";
    engine_id = "";
    fail_count = pos 0;
    penalty_points = pos 0;
    total_requests = pos 0;
    total_tokens = pos 0;
    in_tokens = pos 0;
    out_tokens = pos 0;
    contribution_score = fl.of_int (pos 0);
    role = "";
    ip_verified = false;
  }

  -- requests*10 + tokens/10
  unfoldable pub contribution : ℤ → ℤ → F
  contribution requests tokens =
      fl.add (fl.mul (fl.of_int requests) (fl.of_int (pos 10)))
        (fl.div (fl.of_int tokens) (fl.of_int (pos 10)))

  unfoldable pub keep_max_score : F → F → F
  keep_max_score stored reported = if fl.lt stored reported then reported else stored

  -- The assignments of UpsertGossip to one entry.
  unfoldable pub merge_gossip : String → String → GpuInfo F → PeerData F → PeerData F
  merge_gossip now gpu_data info p =
      let counted = ltb_ℤ (pos 0) info.total_tokens || ltb_ℤ (pos 0) info.total_requests in
      record p {
        ip_address = if p.ip_verified then p.ip_address else info.addr;
        last_ping = now;
        gpu_info = gpu_data;
        bootstrap_addr = info.bootstrap_addr;
        engine_id = info.engine_id;
        role = info.role;
        total_requests =
            if counted then keep_max p.total_requests info.total_requests else p.total_requests;
        total_tokens =
            if counted then keep_max p.total_tokens info.total_tokens else p.total_tokens;
        contribution_score =
            if counted
            then keep_max_score p.contribution_score
                (contribution info.total_requests info.total_tokens)
            else p.contribution_score;
      }

  -- `marshal` is json.Marshal, which may fail. The Boolean tells whether the peer is new.
  unfoldable pub upsert_gossip :
      (GpuInfo F → Option String) → String → GpuInfo F → PeerCache F → PeerCache F × Bool
  upsert_gossip marshal now info pc = elim (marshal info) [
    | none ↦ (pc, false)
    | some gpu_data ↦
        let p = get_or (find info.node_id pc.peers) (blank_peer info.node_id) in
        (
          record pc {
            peers = put info.node_id (merge_gossip now gpu_data info p) pc.peers;
            pending_deletes = remove info.node_id pc.pending_deletes;
          },
          is_none (find info.node_id pc.peers),
        )
  ]

  unfoldable pub connected_peer : String → String → String → Option (PeerData F) → PeerData F
  unfolding blank_peer
  connected_peer now peer_id ip_address none = record (blank_peer peer_id) {
    gpu_info = "[]";
    ip_address = ip_address;
    last_ping = now;
    ip_verified = true;
  }
  connected_peer now peer_id ip_address (some p) = record p {
    ip_address = ip_address;
    last_ping = now;
    ip_verified = true;
  }

  unfoldable pub upsert_connection : String → String → String → PeerCache F → PeerCache F
  upsert_connection now peer_id ip_address pc = record pc {
    peers = put peer_id (connected_peer now peer_id ip_address (find peer_id pc.peers)) pc.peers;
    pending_deletes = remove peer_id pc.pending_deletes;
  }

  unfoldable pub remove_peer : String → PeerCache F → PeerCache F
  remove_peer peer_id pc = record pc {
    peers = remove peer_id pc.peers;
    pending_deletes = put peer_id tt pc.pending_deletes;
  }

  -- `if p, ok := pc.peers[id]; ok { … }`: nothing happens to an unknown peer.
  unfoldable pub update_peer : String → (PeerData F → PeerData F) → PeerCache F → PeerCache F
  update_peer peer_id change pc = elim (find peer_id pc.peers) [
    | none ↦ pc
    | some p ↦ record pc { peers = put peer_id (change p) pc.peers }
  ]

  unfoldable pub set_ping : String → String → PeerCache F → PeerCache F
  unfolding update_peer
  set_ping peer_id value = update_peer peer_id λ p. record p { last_ping = value }

  unfoldable pub update_health : String → ℤ → ℤ → PeerCache F → PeerCache F
  unfolding update_peer
  update_health peer_id fail_count penalty_points =
      update_peer peer_id λ p. record p { fail_count = fail_count; penalty_points = penalty_points }

  unfoldable pub queue_event :
      String → String → String → String → ℤ → ℤ → String → PeerCache F → PeerCache F
  queue_event now peer_id ip_address event_type fail_count penalty_points detail pc = record pc {
    pending_events =
        pc.pending_events
        ++ record {
          id = pos 0;
          peer_id = peer_id;
          ip_address = ip_address;
          event_type = event_type;
          fail_count = fail_count;
          penalty_points = penalty_points;
          timestamp = now;
          detail = detail;
        }
          ∷ [];
  }

  unfoldable pub add_contribution : ℤ → ℤ → PeerData F → PeerData F
  add_contribution requests tokens p = record p {
    total_requests = add64 p.total_requests requests;
    total_tokens = add64 p.total_tokens tokens;
    contribution_score = fl.add p.contribution_score (contribution requests tokens);
  }

  unfoldable pub increment_contribution : String → ℤ → ℤ → PeerCache F → PeerCache F
  unfolding update_peer at_least_one
  increment_contribution peer_id requests tokens =
      update_peer peer_id (add_contribution (at_least_one requests) tokens)

  unfoldable pub add_tokens_detail : ℤ → ℤ → ℤ → PeerData F → PeerData F
  unfolding add_contribution
  add_tokens_detail requests in_tokens out_tokens p =
      record (add_contribution requests (add64 in_tokens out_tokens) p) {
        in_tokens = add64 p.in_tokens in_tokens;
        out_tokens = add64 p.out_tokens out_tokens;
      }

  unfoldable pub increment_tokens_detail : String → ℤ → ℤ → ℤ → PeerCache F → PeerCache F
  unfolding update_peer at_least_one
  increment_tokens_detail peer_id requests in_tokens out_tokens =
      update_peer peer_id (add_tokens_detail (at_least_one requests) in_tokens out_tokens)

  unfoldable pub clear_stats : PeerData F → PeerData F
  clear_stats p = record p {
    total_requests = pos 0;
    total_tokens = pos 0;
    in_tokens = pos 0;
    out_tokens = pos 0;
    contribution_score = fl.of_int (pos 0);
  }

  -- The loop of ResetStats over the map.
  unfoldable pub clear_all : Map (PeerData F) → Map (PeerData F)
  unfolding clear_stats
  clear_all [] = []
  clear_all ((k, p) ∷ m) = (k, clear_stats p) ∷ clear_all m

  unfoldable pub reset_stats : PeerCache F → PeerCache F × ℕ
  unfolding clear_all
  reset_stats pc = (record pc { peers = clear_all pc.peers }, length pc.peers)

  -- The `less` of Snapshot: by score, highest first, then by peer ID.
  unfoldable pub snapshot_less : (String → String → Bool) → PeerData F → PeerData F → Bool
  snapshot_less str_lt a b =
      if not (fl.eq a.contribution_score b.contribution_score)
      then fl.lt b.contribution_score a.contribution_score
      else str_lt a.peer_id b.peer_id

  -- `sort` is sort.Slice, `str_lt` is `<` on strings.
  unfoldable pub snapshot :
      ((PeerData F → PeerData F → Bool) → List (PeerData F) → List (PeerData F))
      → (String → String → Bool)
      → PeerCache F
      → List (PeerData F)
  snapshot sort str_lt pc = sort (snapshot_less str_lt) (values pc.peers)

  -- The branch of mergePeer for a peer that is already there.
  unfoldable pub reconcile : PeerData F → PeerData F → PeerData F
  unfolding keep_max keep_max_score
  reconcile pd p = record p {
    total_requests = keep_max p.total_requests pd.total_requests;
    total_tokens = keep_max p.total_tokens pd.total_tokens;
    contribution_score = keep_max_score p.contribution_score pd.contribution_score;
    in_tokens = keep_max p.in_tokens pd.in_tokens;
    out_tokens = keep_max p.out_tokens pd.out_tokens;
  }

  unfoldable pub merge_peer : PeerData F → PeerCache F → PeerCache F
  unfolding reconcile
  merge_peer pd pc = elim (find pd.peer_id pc.peers) [
    | none ↦ record pc { peers = put pd.peer_id pd pc.peers }
    | some p ↦ record pc { peers = put pd.peer_id (reconcile pd p) pc.peers }
  ]

  unfoldable pub load_snapshot : List (PeerData F) → PeerCache F → PeerCache F
  load_snapshot [] pc = pc
  load_snapshot (p ∷ peers) pc = load_snapshot peers (merge_peer p pc)
