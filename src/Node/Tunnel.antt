-- ===== src/Node/Tunnel.antt =====
-- The tunnel's allowlist and counters (p2p.go).
use yuanyi.Base.{
  ℕ, zero, suc, Bool, true, false, Option, none, some, ◌≡◌, refl, ap, arith, if◌then◌else◌,
  Bool-cases, inl, inr, nat_eq, ◌∙◌, ◌⊎◌,
}
use yuanyi.Gateway.{Stats, inc}
use yuanyi.Node.{
  StreamReply, closed, replied, CallResult, failed, answered, Ports, TunnelRequest, NodeState,
  Target, local_port, RoundTrip, trip_failed, received, redirected, Wire, Sender, after_trip,
  client_do, allowed_port, is_inference, port_number, count_start, count_error, count_status,
  tunnel_answer, forward, proxy_stream,
}

-- A completion request for the port of vLLM.
abbrev pub is_counted : Ports → Option ℕ → Option TunnelRequest → Bool
is_counted cfg none req = false
is_counted cfg (some port) none = false
is_counted cfg (some port) (some req) = is_inference cfg port req

-- The peer gets a 200.
abbrev pub is_ok : StreamReply → Bool
is_ok closed = false
is_ok (replied code content) = nat_eq code 200

-- One request more, with its outcome.
abbrev pub one_request : Bool → Stats → Stats
one_request success st = record st {
  requests = inc st.requests;
  decode = inc st.decode;
  success_count = if success then inc st.success_count else st.success_count;
  error_count = if success then st.error_count else inc st.error_count;
}

is_inference-allowed :
    (cfg : Ports) (port : ℕ) (req : TunnelRequest)
    → is_inference cfg port req ≡ true
    → allowed_port cfg port ≡ true
unfolding is_inference allowed_port
is_inference-allowed cfg port req h = ground arith

allowed_port-ports :
    (cfg : Ports) (port : ℕ)
    → allowed_port cfg port ≡ true
    → (port ≡ port_number cfg.vllm_port) ⊎ (port ≡ port_number cfg.bootstrap_port)
unfolding allowed_port
allowed_port-ports cfg port h = ground arith

-- The ports that the tunnel may reach.
abbrev pub IsOpen : Ports → ℕ → Type 0
IsOpen cfg port = (port ≡ port_number cfg.vllm_port) ⊎ (port ≡ port_number cfg.bootstrap_port)

abbrev pub is_redirect : RoundTrip → Bool
is_redirect (trip_failed e) = false
is_redirect (received code content) = false
is_redirect (redirected target req) = true

module _ {W : Type 0} where
  tunnel_answer-counts :
      (port : ℕ) (s t : NodeState W) (result : CallResult)
      → t.stats ≡ (count_start s).stats
      → (tunnel_answer true port t result).0.stats
        ≡ one_request (is_ok (tunnel_answer true port t result).1) s.stats
  unfolding tunnel_answer count_start count_error count_status
  tunnel_answer-counts port s t (failed e) h = ground arith
  tunnel_answer-counts port s t (answered code content) h = ground arith

  tunnel_answer-quiet :
      (port : ℕ) (s : NodeState W) (result : CallResult)
      → (tunnel_answer false port s result).0.stats ≡ s.stats
  unfolding tunnel_answer
  tunnel_answer-quiet port s (failed e) = refl
  tunnel_answer-quiet port s (answered code content) = refl

  -- The counters after a stream.
  abbrev pub Counted : Bool → Stats → NodeState W × StreamReply → Type 0
  Counted counted before (after, reply) =
      after.stats ≡ (if counted then one_request (is_ok reply) before else before)

  stats-after_trip :
      (next : Sender W) (t : NodeState W) (x : NodeState W × RoundTrip)
      → x.0.stats ≡ t.stats
      → ((u : NodeState W) (target : Target) (req : TunnelRequest)
          → (next u target req).0.stats ≡ u.stats)
      → (after_trip next x).0.stats ≡ t.stats
  unfolding after_trip
  stats-after_trip next t (s, trip_failed e) h k = h
  stats-after_trip next t (s, received code content) h k = h
  stats-after_trip next t (s, redirected target req) h k = k s target req ∙ h

  module _ (wire : Wire W) (cfg : Ports)
      (quiet : (t : NodeState W) (target : Target) (req : TunnelRequest)
        → (wire.send t target req).0.stats ≡ t.stats) where
    stats-client_do :
        (n : ℕ) (t : NodeState W) (target : Target) (req : TunnelRequest)
        → (client_do wire n t target req).0.stats ≡ t.stats
    unfolding client_do
    stats-client_do zero t target req = refl
    stats-client_do (suc n) t target req =
        stats-after_trip (client_do wire n) t (wire.send t target req) (quiet t target req)
          (stats-client_do n)

    forward-Counted :
        (port : ℕ) (req : TunnelRequest) (s : NodeState W)
        → Counted (is_inference cfg port req) s.stats (forward wire cfg port (some req) s)
    unfolding forward
    forward-Counted port req s = elim (Bool-cases (is_inference cfg port req)) [
      | inl e ↦
          let after = client_do wire 10 (count_start s) (local_port port) req in
          rw (e, forward)
            (tunnel_answer-counts port s after.0 after.1
              (stats-client_do 10 (count_start s) (local_port port) req))
      | inr e ↦
          let after = client_do wire 10 s (local_port port) req in
          rw (e, forward)
            (tunnel_answer-quiet port after.0 after.1 ∙ stats-client_do 10 s (local_port port) req)
    ]

    -- If nobody else touches the counters during the call of the local service, a tunnel stream
    -- changes them exactly if it carries a completion request for the port of vLLM: then by one
    -- request and one decoding, and by one success if the peer gets a 200, by one error if not.
    pub proxy_stream-Counted :
        (port : Option ℕ) (req : Option TunnelRequest) (s : NodeState W)
        → Counted (is_counted cfg port req) s.stats (proxy_stream wire cfg port req s)
    unfolding proxy_stream forward
    proxy_stream-Counted none req s = refl
    proxy_stream-Counted (some port) none s = ground arith
    proxy_stream-Counted (some port) (some req) s = elim (Bool-cases (allowed_port cfg port)) [
      | inl e ↦ rw e (forward-Counted port req s)
      | inr e ↦ rw e (ground (arith, is_inference-allowed cfg port req))
    ]

  after_trip_final :
      (next next' : Sender W) (x : NodeState W × RoundTrip)
      → is_redirect x.1 ≡ false
      → after_trip next x ≡ after_trip next' x
  unfolding after_trip
  after_trip_final next next' (s, trip_failed e) h = refl
  after_trip_final next next' (s, received code content) h = refl
  after_trip_final next next' (s, redirected target req) h = cc

  -- Without a redirect the first request is the only one.
  client_do_once :
      (wire wire' : Wire W) (n : ℕ) (s : NodeState W) (target : Target) (req : TunnelRequest)
      → wire.send s target req ≡ wire'.send s target req
      → is_redirect (wire.send s target req).1 ≡ false
      → client_do wire (suc n) s target req ≡ client_do wire' (suc n) s target req
  unfolding client_do
  client_do_once wire wire' n s target req same final =
      after_trip_final (client_do wire n) (client_do wire' n) (wire.send s target req) final
      ∙ ap (after_trip (client_do wire' n)) same

  -- If the services on the ports of vLLM and of its bootstrap server send no redirect, then the
  -- tunnel reaches no other local port and no other host: two machines that answer alike on these
  -- two answer every stream alike.
  pub proxy_stream-allowed :
      (wire wire' : Wire W) (cfg : Ports) (port : Option ℕ) (req : Option TunnelRequest)
      (s : NodeState W)
      → ((t : NodeState W) (p : ℕ) (r : TunnelRequest)
          → IsOpen cfg p
          → wire.send t (local_port p) r ≡ wire'.send t (local_port p) r)
      → ((t : NodeState W) (p : ℕ) (r : TunnelRequest)
          → IsOpen cfg p
          → is_redirect (wire.send t (local_port p) r).1 ≡ false)
      → proxy_stream wire cfg port req s ≡ proxy_stream wire' cfg port req s
  unfolding proxy_stream forward
  proxy_stream-allowed wire wire' cfg none req s same final = refl
  proxy_stream-allowed wire wire' cfg (some port) none s same final = refl
  proxy_stream-allowed wire wire' cfg (some port) (some req) s same final =
      elim (Bool-cases (allowed_port cfg port)) [
        | inl e ↦
            let inference = is_inference cfg port req in
            let start = if inference then count_start s else s in
            let reached = allowed_port-ports cfg port e in
            rw e (
              ap (λ (x : NodeState W × CallResult). tunnel_answer inference port x.0 x.1)
                (client_do_once wire wire' 9 start (local_port port) req
                  (same start port req reached) (final start port req reached)))
        | inr e ↦ rw e refl
      ]
