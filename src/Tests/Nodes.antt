-- ===== src/Tests/Nodes.antt =====
-- Streams and addresses of a node (p2p.go) at concrete inputs.
use yuanyi.Base.{
  ℕ, pos, true, List, [], ◌∷◌, none, some, ◌≡◌, refl, if◌then◌else◌, nat_eq, inl, inr,
}
use yuanyi.Strings.{digits, codes}
use yuanyi.Node.{
  replied, Ports, TunnelRequest, NodeState, Wire, Target, local_port, remote, trip_failed, received,
  redirected, proxy_stream, write, write_header, Mux, fetch_from, port_number, is_inference,
}
use yuanyi.Node.Tunnel.{IsOpen, Counted, proxy_stream-Counted, proxy_stream-allowed}

abbrev ports : Ports
ports = record { vllm_port = pos 8100; bootstrap_port = pos 8998 }

abbrev start : NodeState (List ℕ)
start = record {
  world = [];
  stats = record {
    requests = pos 0;
    in_tokens = pos 0;
    out_tokens = pos 0;
    prefill = pos 0;
    decode = pos 0;
    error_count = pos 0;
    success_count = pos 0;
  };
}

abbrev chat : TunnelRequest
chat = record { path = codes "/v1/chat/completions"; content = [] }

-- Every port answers, and the world remembers which were called.
abbrev open_machine : Wire (List ℕ)
open_machine = record {
  send = λ s target req. elim target [
    | local_port port ↦ (record s { world = port ∷ s.world }, received 200 (codes "ok"))
    | remote host ↦ (s, trip_failed (codes "refused"))
  ];
  too_many = codes "stopped after 10 redirects";
}

-- Ray's dashboard answers otherwise.
abbrev other_machine : Wire (List ℕ)
other_machine = record {
  send = λ s target req. elim target [
    | local_port port ↦
        if nat_eq port 8275
        then (record s { world = 1 ∷ s.world }, trip_failed (codes "refused"))
        else (record s { world = port ∷ s.world }, received 200 (codes "ok"))
    | remote host ↦ (s, trip_failed (codes "refused"))
  ];
  too_many = codes "stopped after 10 redirects";
}

-- vLLM sends every client on to Ray's dashboard.
abbrev redirecting : Wire (List ℕ)
redirecting = record {
  send = λ s target req. elim target [
    | local_port port ↦
        if nat_eq port 8100
        then (s, redirected (local_port 8275) req)
        else (record s { world = port ∷ s.world }, received 200 (codes "jobs"))
    | remote host ↦ (s, trip_failed (codes "refused"))
  ];
  too_many = codes "stopped after 10 redirects";
}

-- The redirect leads past the allowlist.
jobs_reached :
    (proxy_stream redirecting ports (some 8100) (some chat) start).1 ≡ replied 200 (codes "jobs")
unfolding proxy_stream
jobs_reached = refl

served_chat :
    (proxy_stream open_machine ports (some 8100) (some chat) start).1 ≡ replied 200 (codes "ok")
unfolding proxy_stream
served_chat = refl

rejected :
    (proxy_stream open_machine ports (some 8275) (some chat) start).1
    ≡ replied 403 (codes "target port 8275 is not allowed")
unfolding proxy_stream digits
rejected = refl

nobody_counts :
    (t : NodeState (List ℕ)) (target : Target) (req : TunnelRequest)
    → (open_machine.send t target req).0.stats ≡ t.stats
nobody_counts t (local_port port) req = refl
nobody_counts t (remote host) req = refl

proxy_stream-Counted_example :
    Counted true start.stats (proxy_stream open_machine ports (some 8100) (some chat) start)
unfolding is_inference
proxy_stream-Counted_example =
    proxy_stream-Counted open_machine ports nobody_counts (some 8100) (some chat) start

same_machines :
    (t : NodeState (List ℕ)) (p : ℕ) (r : TunnelRequest)
    → IsOpen ports p
    → open_machine.send t (local_port p) r ≡ other_machine.send t (local_port p) r
unfolding port_number
same_machines t p r (inl e) = rw e refl
same_machines t p r (inr e) = rw e refl

proxy_stream-allowed_example :
    proxy_stream open_machine ports (some 8100) (some chat) start
    ≡ proxy_stream other_machine ports (some 8100) (some chat) start
proxy_stream-allowed_example =
    proxy_stream-allowed open_machine other_machine ports (some 8100) (some chat) start
      same_machines (λ t p r h. refl)

-- A hub that asks itself takes its own error page for an answer; from a peer it does not.
abbrev failing : Mux ℕ
failing world path = (world, write_header 500 ∷ write (codes "database is locked") ∷ [])

fetch_self :
    (fetch_from
      (codes "me")
      (some failing)
      (λ w seed path. (w, some (500, codes "database is locked")))
      (codes "/hub/api/events")
      (codes "other" ∷ codes "me" ∷ [])
      0).1
    ≡ some (codes "database is locked")
unfolding fetch_from
fetch_self = refl

fetch_peer :
    (fetch_from
      (codes "me")
      (some failing)
      (λ w seed path. (w, some (500, codes "database is locked")))
      (codes "/hub/api/events")
      (codes "other" ∷ [])
      0).1
    ≡ none
unfolding fetch_from
fetch_peer = refl
