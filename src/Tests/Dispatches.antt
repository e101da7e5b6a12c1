-- ===== src/Tests/Dispatches.antt =====
-- A request to the hub and a ping of one of its peers.
use yuanyi.Base.{
  none, Option, List, ◌≡◌, contains, All, ltb_ℤ, eq_ℤ, ◌||◌, if◌then◌else◌, ◌==◌, String, ℤ, pos,
  true, false, some, [], ◌∷◌, refl, find,
}
use yuanyi.Cache.{PeerCache, new_peer_cache, blank_peer}
use yuanyi.Hub.{Backend, Cluster}
use yuanyi.Hub.Dispatch.{Site, Links, hub_handle}
use yuanyi.Hub.Dispatch.Credit.{Earned, hub_handle-Earned}
use yuanyi.Health.{ping_one_peer, max_fail}
use yuanyi.Health.Bounds.{Below, HealthOnly, ping_one_peer_lem}
use yuanyi.Health.{Match, parse_summary_gpus, id_of}
use yuanyi.Health.Summary.{Distinct, ids_of, total, parse_summary_gpus_lem}
use yuanyi.Peer.{GpuEntry}
use yuanyi.Config.{
  ClientConfig, fill_defaults, used, positive_or, clear_of, apply_server_mode_defaults,
}
use yuanyi.Config.Ports.{fill_defaults_lem}
use yuanyi.Tests.Sample.{empty_cache, integers}
use yuanyi.Tests.Gateways.{json, post}

abbrev links : Links (Unit {0}) String (Unit {0}) ℤ
links = record {
  tunnel = λ w id port path bytes. (w, some "done");
  client_gone = λ w. false;
  marshal = λ m. some "{}";
  show = λ id. id;
  others = λ s. s;
}

abbrev backend : Backend String
backend = record { peer_id = "peer-one"; ip_address = ""; bootstrap_addr = ""; engine_id = "" }

abbrev site : Site (Unit {0}) String ℤ
site = record {
  world = tt;
  server = record {
    prefill_backends = backend ∷ [];
    decode_backends = backend ∷ [];
    decode_index = 0;
  };
  cache = empty_cache;
}

abbrev dedicated : Cluster
dedicated = record { prefill_nodes = pos 1; decode_nodes = pos 1 }

hub_handle-Earned_example :
    Earned links json
      (hub_handle links json dedicated post site).1
      site.cache
      (hub_handle links json dedicated post site).0.cache
hub_handle-Earned_example = hub_handle-Earned links json (λ s. refl) dedicated post site

empty-Below : Below (max_fail (pos 0)) empty_cache
unfolding new_peer_cache find
empty-Below k p e = cc e

ping_one_peer_lem_example :
    let after : PeerCache ℤ =
      ping_one_peer (λ n. "1") "12:00" true false (pos 0) (blank_peer "peer-one") empty_cache in
    Below (max_fail (pos 0)) after
    × ((k : String) → HealthOnly (find k empty_cache.peers) (find k after.peers))
ping_one_peer_lem_example =
    ping_one_peer_lem (λ n. "1") "12:00" (pos 0) (blank_peer "peer-one") true false empty_cache
      empty-Below

abbrev trim : String → String
trim s = s

abbrev atoi : String → Option ℤ
atoi s = if s == "2" then some (pos 2) else none

abbrev matches : String → List Match
matches s =
    record { name = "RTX 4090"; vram = "24576"; times = "2"; pieces = "" }
    ∷ record { name = "RTX 3090"; vram = "24576"; times = ""; pieces = "2" }
    ∷ record { name = "RTX 4090"; vram = "24576"; times = "x"; pieces = "" }
    ∷ []

parse_summary_gpus_lem_example :
    let es : List GpuEntry = parse_summary_gpus trim atoi matches "three cards" in
    Distinct (ids_of es)
    × All (λ e. e.num ≡ total trim atoi e.id (matches "three cards") (pos 0)) es
    × All (λ m. contains (id_of trim atoi m) (ids_of es) ≡ true) (matches "three cards")
parse_summary_gpus_lem_example = parse_summary_gpus_lem trim atoi matches "three cards"

abbrev blank_config : ClientConfig
blank_config = record {
  iface = "";
  web_port = pos 0;
  proxy_port = pos 0;
  vllm_port = pos 50006;
  bootstrap_port = pos 0;
  max_num_seqs = pos 0;
  server_mode = record {
    enabled = false;
    relay_only = true;
    p2p_port = pos 50007;
    proxy_port = pos 0;
    database_path = "";
    max_fail_count = pos 0;
    check_interval_sec = pos 0;
    flush_interval_sec = pos 0;
  };
}

fill_defaults_lem_example :
    let r : ClientConfig = fill_defaults "eth0" blank_config in
    ((ltb_ℤ (pos 0) r.web_port ≡ true)
      × (ltb_ℤ (pos 0) r.proxy_port ≡ true)
      × (ltb_ℤ (pos 0) r.vllm_port ≡ true)
      × (ltb_ℤ (pos 0) r.bootstrap_port ≡ true))
    × (eq_ℤ r.vllm_port r.proxy_port ≡ false)
    × (eq_ℤ r.bootstrap_port r.proxy_port ≡ false)
    × (((ltb_ℤ (pos 0) r.server_mode.proxy_port ≡ true) × (used r r.server_mode.proxy_port ≡ false))
        × ((ltb_ℤ (pos 0) r.server_mode.p2p_port ≡ true)
            × ((used r r.server_mode.p2p_port
                  || eq_ℤ r.server_mode.p2p_port r.server_mode.proxy_port)
                ≡ false)))
unfolding fill_defaults apply_server_mode_defaults used positive_or clear_of
fill_defaults_lem_example = fill_defaults_lem "eth0" blank_config refl refl refl refl refl
