-- ===== src/Tests/Reports.antt =====
-- What a node publishes (p2p.go) at concrete readings.
use yuanyi.Base.{ℕ, ◌+◌, none, String, ℤ, pos, true, false, [], ◌∷◌, Option, some, ◌≡◌, refl, find}
use yuanyi.Peer.{GpuInfo, PeerData}
use yuanyi.Strings.{Text, codes}
use yuanyi.Hub.{usable}
use yuanyi.Gateway.{too_short}
use yuanyi.Telemetry.{no_gpu_telemetry}
use yuanyi.Gossip.{useless, private, NodeView, NodeEnv, gossip_subscriber}
use yuanyi.Console.{get_local_stats}
use yuanyi.Gossip.Reach.{PeerLinks, keep_peer, log_reconnected, has_no_public_interface_addr}
use yuanyi.Gossip.Publish.{own_info, own_summary, Sources, publish, own_addr}
use yuanyi.Gossip.Own.{report, heard, works, usable-publish}
use yuanyi.Health.{with_gpus}
use yuanyi.Tests.Sample.{integers}
use yuanyi.Tests.Broadcasts.{env, quiet}

abbrev string_of : Text → String
string_of [] = ""
string_of (c ∷ s) = "RTX 4090(24564MB) x1"

abbrev sources : Sources ℤ
sources = record {
  announce_addr = "";
  best_addr = some "/ip4/10.0.0.1/tcp/4001";
  readings = some (record {
    gpu_summaries = codes "RTX 4090(24564MB) x1" ∷ [];
    metrics = record {
      kv_cache_usage = pos 0;
      active_requests = pos 0;
      prefill_speed = pos 0;
      gen_speed = pos 0;
      avg_ttft = pos 0;
    };
    telemetry = no_gpu_telemetry;
  });
  relay_only = false;
  vllm_port = pos 8100;
  vip = "127.1.2.3:4000";
  unix = pos 1000;
  uptime = pos 10;
}

abbrev sender : NodeEnv ℤ
sender = record env { own_id = "peer-nine"; marshal = λ i. some "report" }

abbrev hub : NodeEnv ℤ
hub = record env { marshal = λ i. some "report" }

abbrev unmarshal : String → Option (GpuInfo ℤ)
unmarshal s = some (report string_of sender sources quiet)

usable-publish_example :
    (sent : String) × (w : NodeView ℤ) × (p : PeerData ℤ) × ((publish string_of sender 5 "11:59"
        sources quiet).1
      ≡ some sent)
    × (gossip_subscriber hub
          (heard unmarshal "peer-nine" sent 7 "12:00" (codes "12:00:00") ∷ [])
          quiet
        ≡ some w)
    × (find "peer-nine" w.cache.peers ≡ some p)
    × (usable unmarshal p ≡ works string_of sources)
unfolding with_gpus too_short own_info get_local_stats integers
usable-publish_example =
    usable-publish unmarshal string_of sender hub sources quiet quiet 5 7 "11:59" "12:00"
      (codes "12:00:00") ("report", refl, refl) ("report", refl, refl) refl refl refl

works_here : works string_of sources ≡ true
unfolding own_summary
works_here = refl

-- Without an announce address the best of the host's is sent.
addr_here :
    own_addr "peer-nine" "" (some "/ip4/10.0.0.1/tcp/4001") ≡ "/ip4/10.0.0.1/tcp/4001/p2p/peer-nine"
unfolding own_addr
addr_here = refl

-- A peer that can be reached again, with an ID too short for the log.
abbrev links : PeerLinks ℕ
links = record {
  connected = λ w id. false;
  connect = λ w id. (w + 1, none);
  decode = λ id. some id;
  own_id = "peer-zero";
  text_of = λ id. codes id;
  short = λ id. codes id;
}

panics : keep_peer links [] "x" (report string_of sender sources quiet) (0, quiet.tui) ≡ none
unfolding keep_peer log_reconnected too_short
panics = refl

behind_nat : has_no_public_interface_addr (some (useless ∷ private ∷ [])) ≡ true
unfolding has_no_public_interface_addr
behind_nat = refl
