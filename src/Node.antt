-- ===== src/Node.antt =====
-- p2p.go: the streams that a node serves to its peers, the hub API that it fetches from them, and
-- the virtual addresses of peers. `W` is the rest of the world.
pub mod Tunnel
pub mod HubApi
pub mod Addresses
use yuanyi.Base.{
  ℕ, zero, suc, ℤ, pos, negsuc, ◌+◌, ◌-◌, ◌*◌, ◌%◌, ◌^◌, Bool, true, false, ◌&&◌, ◌||◌, not, List,
  [], ◌∷◌, ◌++◌, Option, none, some, is_empty, if◌then◌else◌, nat_eq, leb,
}
use yuanyi.Strings.{Text, codes, text_eq, has_infix, has_prefix, strip_prefix, decimal, digits}
use yuanyi.Gateway.{Stats, inc}

-- What a stream handler writes before it closes the stream.
pub data StreamReply : Type 0 where
  closed : StreamReply
  replied : ℕ → Text → StreamReply

-- What client.Do gives: an error with its message, or the status and the body.
pub data CallResult : Type 0 where
  failed : Text → CallResult
  answered : ℕ → Text → CallResult

-- uint16(n)
unfoldable pub port_number : ℤ → ℕ
port_number (pos n) = n % 2 ^ 16
port_number (negsuc n) = 2 ^ 16 - 1 - n % 2 ^ 16

-- `content` is all but the path: the method, the headers with Host, and the body.
pub record TunnelRequest : Type 0 where
  pub path : Text
  pub content : Text

pub record NodeState (W : Type 0) : Type 0 where
  pub world : W
  pub stats : Stats

-- Config.VLLM, as far as the tunnel reads it.
pub record Ports : Type 0 where
  pub vllm_port : ℤ
  pub bootstrap_port : ℤ

-- allowedPorts
unfoldable pub allowed_port : Ports → ℕ → Bool
unfolding port_number
allowed_port cfg port =
    nat_eq port (port_number cfg.vllm_port) || nat_eq port (port_number cfg.bootstrap_port)

unfoldable pub is_inference : Ports → ℕ → TunnelRequest → Bool
unfolding port_number has_infix
is_inference cfg port req =
    nat_eq port (port_number cfg.vllm_port) && has_infix (codes "/completions") req.path

-- Where a request is sent: a port of 127.0.0.1, or another host.
pub data Target : Type 0 where
  local_port : ℕ → Target
  remote : Text → Target

-- What one request meets: an error, a response, or a redirect, as net/http reads it, with the
-- request that follows it.
pub data RoundTrip : Type 0 where
  trip_failed : Text → RoundTrip
  received : ℕ → Text → RoundTrip
  redirected : Target → TunnelRequest → RoundTrip

-- One request, with what other goroutines do meanwhile, and the error of too many redirects.
pub record Wire (W : Type 0) : Type 0 where
  pub send : NodeState W → Target → TunnelRequest → NodeState W × RoundTrip
  pub too_many : Text

abbrev pub Sender : Type 0 → Type 0
Sender W = NodeState W → Target → TunnelRequest → NodeState W × CallResult

-- A redirect is followed.
unfoldable pub after_trip :
    {W : Type 0} → Sender W → NodeState W × RoundTrip → NodeState W × CallResult
after_trip next (s, trip_failed e) = (s, failed e)
after_trip next (s, received code content) = (s, answered code content)
after_trip next (s, redirected target req) = next s target req

-- `client.Do` of a default client, with the number of requests it may still send.
unfoldable pub client_do : {W : Type 0} → Wire W → ℕ → Sender W
unfolding after_trip
client_do wire zero s target req = (s, failed wire.too_many)
client_do wire (suc n) s target req = after_trip (client_do wire n) (wire.send s target req)

module _ {W : Type 0} where
  -- The three closures passed to UpdateStats.
  unfoldable pub count_start : NodeState W → NodeState W
  count_start s = record s {
    stats = record s.stats { requests = inc s.stats.requests; decode = inc s.stats.decode };
  }

  unfoldable pub count_error : NodeState W → NodeState W
  count_error s = record s { stats = record s.stats { error_count = inc s.stats.error_count } }

  unfoldable pub count_status : ℕ → NodeState W → NodeState W
  unfolding count_error
  count_status code s =
      if nat_eq code 200
      then record s { stats = record s.stats { success_count = inc s.stats.success_count } }
      else count_error s

  -- After client.Do.
  unfoldable pub tunnel_answer : Bool → ℕ → NodeState W → CallResult → NodeState W × StreamReply
  unfolding count_error count_status
  tunnel_answer inference port s (failed e) = (
    if inference then count_error s else s,
    replied 502 (codes "Failed to reach local port " ++ (decimal port ++ (codes ": " ++ e))),
  )
  tunnel_answer inference port s (answered code content) =
      (if inference then count_status code s else s, replied code content)

  unfoldable pub forward :
      Wire W → Ports → ℕ → Option TunnelRequest → NodeState W → NodeState W × StreamReply
  unfolding tunnel_answer count_start is_inference client_do
  forward wire cfg port none s = (s, closed)
  forward wire cfg port (some req) s =
      let inference = is_inference cfg port req in
      let (after, result) =
        client_do wire 10 (if inference then count_start s else s) (local_port port) req in
      tunnel_answer inference port after result

  -- The handler of ProxyProtocolID: the port that was read, and the request after it.
  unfoldable pub proxy_stream :
      Wire W → Ports → Option ℕ → Option TunnelRequest → NodeState W → NodeState W × StreamReply
  unfolding forward allowed_port
  proxy_stream wire cfg none req s = (s, closed)
  proxy_stream wire cfg (some port) req s =
      if allowed_port cfg port
      then forward wire cfg port req s
      else (s, replied 403 (codes "target port " ++ (decimal port ++ codes " is not allowed")))

-- What a handler does to the response writer.
pub data WriterCall : Type 0 where
  write : Text → WriterCall
  write_header : ℕ → WriterCall

pub record StreamResponseWriter : Type 0 where
  pub code : ℕ
  pub body : Text

unfoldable pub apply_call : WriterCall → StreamResponseWriter → StreamResponseWriter
apply_call (write b) w = record {
  code = if nat_eq w.code 0 then 200 else w.code;
  body = w.body ++ b;
}
apply_call (write_header c) w = record w { code = if nat_eq w.code 0 then c else w.code }

unfoldable pub apply_calls : List WriterCall → StreamResponseWriter → StreamResponseWriter
unfolding apply_call
apply_calls [] w = w
apply_calls (c ∷ cs) w = apply_calls cs (apply_call c w)

abbrev pub new_writer : StreamResponseWriter
new_writer = record { code = 0; body = [] }

-- The paths that peers may ask for.
unfoldable pub served_path : Text → Bool
unfolding strip_prefix
served_path path =
    has_prefix (codes "/hub/api/") path && not (has_prefix (codes "/hub/api/debug/") path)

-- ServeMux.ServeHTTP: the world after it and the calls of the handler.
abbrev pub Mux : Type 0 → Type 0
Mux W = W → Text → W × List WriterCall

module _ {W : Type 0} where
  abbrev pub response_of : W × List WriterCall → W × StreamReply
  response_of (world, calls) =
      let rec = apply_calls calls new_writer in
      (world, replied (if nat_eq rec.code 0 then 200 else rec.code) rec.body)

  -- The handler of HubAPIProtocolID: the mux, if the node is a hub, and the path of the request.
  unfoldable pub hub_api_stream : Option (Mux W) → Option Text → W → W × StreamReply
  unfolding served_path apply_calls
  hub_api_stream mux none world = (world, closed)
  hub_api_stream none (some path) world =
      (world, replied 404 (codes "{\"error\":\"hub mode is not enabled on this node\"}"))
  hub_api_stream (some mux) (some path) world =
      if served_path path
      then response_of (mux world path)
      else (world, replied 403 (codes "{\"error\":\"path not served over libp2p\"}"))

  -- fetchHubAPIFromPeer: an error unless the answer is a 200.
  abbrev pub body_of_answer : W × Option (ℕ × Text) → W × Option Text
  body_of_answer (world, none) = (world, none)
  body_of_answer (world, some (code, content)) =
      (world, if nat_eq code 200 then some content else none)

  -- The loop of FetchHubAPI over the seeds; `none` is the last error. `ask` is the request to a
  -- peer up to the end of its answer.
  unfoldable pub fetch_from :
      Text
      → Option (Mux W)
      → (W → Text → Text → W × Option (ℕ × Text))
      → Text
      → List Text
      → W
      → W × Option Text
  unfolding apply_calls text_eq
  fetch_from self mux ask path [] world = (world, none)
  fetch_from self mux ask path (seed ∷ seeds) world =
      let peer = body_of_answer (ask world seed path) in
      elim (text_eq seed self) [
        | true ↦ elim mux [
          | none ↦ fetch_from self mux ask path seeds world
          | some m ↦
              let (after, calls) = m world path in (after, some (apply_calls calls new_writer).body)
        ]
        | false ↦ elim peer.1 [
          | some content ↦ peer
          | none ↦ fetch_from self mux ask path seeds peer.0
        ]
      ]

-- generateVIP: the first five bytes of the SHA-256 of the peer's ID. The octets after 127 and the
-- port.
pub record Vip : Type 0 where
  pub ip2 : ℕ
  pub ip3 : ℕ
  pub ip4 : ℕ
  pub port : ℕ

unfoldable pub generate_vip : (h0 h1 h2 h3 h4 : ℕ) → Vip
generate_vip h0 h1 h2 h3 h4 = record {
  ip2 = h0;
  ip3 = h1;
  ip4 = if nat_eq h0 0 && nat_eq h1 0 && nat_eq h2 1 then 2 else h2;
  port = 1024 + (256 * h3 + h4) % (65536 - 1024);
}
