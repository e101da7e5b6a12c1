-- ===== src/Tests/HubWebs.antt =====
-- The hub API (server_web.go) at concrete requests.
use yuanyi.Base.{String, ℤ, pos, true, false, [], ◌∷◌, none, some, ◌≡◌, refl}
use yuanyi.Strings.{codes, text_eq, strip_prefix}
use yuanyi.Node.{replied, apply_calls, write, write_header, hub_api_stream, served_path}
use yuanyi.HubWeb.{HubState, HubEnv, Encoders, route_of, hub_mux, handle_route}
use yuanyi.HubWeb.ReadOnly.{hub_api_stream-hub_mux}
use yuanyi.Tests.Sample.{integers, empty_db, always}
use yuanyi.Tests.Caches.{one_peer}

abbrev json : Encoders ℤ
json = record {
  peers_json = λ l. codes "peers";
  events_json = λ l. codes "events";
  topology_json = λ t. codes "topology";
  board_json = λ l. codes "board";
  stats_json = λ s. codes "stats";
  snapshot_json = λ l. codes "snapshot";
  reset_text = λ n. codes "reset";
  error_text = codes "error";
}

abbrev env : HubEnv ℤ String
env = record {
  json = json;
  sort = λ less l. l;
  str_lt = λ a b. false;
  rank = none;
  calls = λ p. 0;
  runs = always;
  reads = true;
  cluster = record { prefill_nodes = pos 0; decode_nodes = pos 0 };
  decode_id = λ id. some id;
  show_id = λ id. id;
  unmarshal = λ s. none;
  unmarshal_map = λ s. none;
  trunc = λ n. n;
  atoi = λ s. none;
  unrouted = λ path. write_header 404 ∷ [];
}

abbrev state : HubState ℤ String
state = record {
  cache = one_peer;
  db = empty_db;
  proxy = record { prefill_backends = []; decode_backends = []; decode_index = 0 };
}

hub_api_stream-hub_mux_example :
    (hub_api_stream
      (some (hub_mux env (codes "POST")))
      (some (codes "/hub/api/debug/reset_stats"))
      state).0
    ≡ state
hub_api_stream-hub_mux_example =
    hub_api_stream-hub_mux env (codes "POST") (some (codes "/hub/api/debug/reset_stats")) state

-- The same request to the mux of the hub itself does reset.
reset_here :
    (hub_mux env (codes "POST") state (codes "/hub/api/debug/reset_stats")).1
    ≡ write_header 200 ∷ write (codes "reset") ∷ []
unfolding hub_mux route_of handle_route text_eq
reset_here = refl

board_served :
    (hub_api_stream
      (some (hub_mux env (codes "GET")))
      (some (codes "/hub/api/leaderboard"))
      state).1
    ≡ replied 200 (codes "board")
unfolding hub_api_stream served_path hub_mux route_of handle_route apply_calls text_eq strip_prefix
board_served = refl
