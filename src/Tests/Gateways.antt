-- ===== src/Tests/Gateways.antt =====
-- Requests to a gateway with two peers, one of which serves.
use yuanyi.Base.{
  String, ℤ, pos, true, false, none, some, [], ◌∷◌, Map, ◌≡◌, refl, if◌then◌else◌, ◌==◌,
}
use yuanyi.Peer.{GpuInfo}
use yuanyi.Gateway.{
  BackendInfo, State, Net, Response, Stats, unreachable, peer_ids, dispatchable, too_short,
}
use yuanyi.Gateway.Request.{passed, Outgoing, handle_together}
use yuanyi.Gateway.Round.{together-passed}
use yuanyi.Gateway.Split.{Json, Request}
use yuanyi.Tests.Sample.{node}

abbrev fine : Response
fine = record { status = 200; body = "ok" }

abbrev net : Net (Unit {0})
net = record {
  call_local = λ w path body. (w, none);
  call_peer = λ w id port path body. (w, if id == "peer-two" then some fine else none);
  fetch_local = λ w path body. (w, unreachable);
  fetch_peer = λ w id port path body. (w, some "{}");
  others = λ s. s;
}

abbrev peers : Map (GpuInfo ℤ)
peers =
    ("peer-one", node "peer-one" "RTX 4090" (pos 0) (pos 0))
    ∷ ("peer-two", node "peer-two" "RTX 3090" (pos 0) (pos 0))
    ∷ []

abbrev no_stats : Stats
no_stats = record {
  requests = pos 0;
  in_tokens = pos 0;
  out_tokens = pos 0;
  prefill = pos 0;
  decode = pos 0;
  error_count = pos 0;
  success_count = pos 0;
}

abbrev gateway : State (Unit {0})
gateway = record {
  world = tt;
  vllm_ready = true;
  local_busy = false;
  decode_index = 7;
  topology = record { is_pd_together = true; prefill_backends = []; decode_backends = [] };
  stats = no_stats;
}

abbrev out : Outgoing
out = record { path = "/v1/completions"; raw_query = ""; bytes = "{}" }

abbrev pub json : Json (Unit {0})
json = record {
  parse = λ s. if s == "{}" then some (some []) else none;
  encode = λ m. "{}";
  usage = λ s. none;
  one = tt;
  yes = tt;
  zero_float = tt;
  text = λ s. tt;
}

abbrev pub post : Request
post = record { method = "POST"; path = "/v1/completions"; raw_query = ""; body = some "{}" }

together-passed_example :
    (t : State (Unit {0})) × (r : Response) × (handle_together net peers "peer-zero" out gateway
      ≡ (t, passed r))
unfolding peer_ids dispatchable too_short
together-passed_example =
    together-passed net peers out "peer-zero" gateway 1 "peer-two" (λ u. refl) (refl, (refl, tt))
      refl (λ w. (w, fine, refl, refl))

abbrev backend : String → BackendInfo
backend id = record { peer_id = id; ip_address = ""; bootstrap_addr = ""; engine_id = id }

-- With dedicated nodes.
abbrev divided : State (Unit {0})
divided = record gateway {
  topology = record {
    is_pd_together = false;
    prefill_backends = backend "peer-one" ∷ [];
    decode_backends = backend "peer-two" ∷ [];
  };
}
