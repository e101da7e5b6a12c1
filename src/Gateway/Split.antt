-- ===== src/Gateway/Split.antt =====
-- The branch of handleProxyRequest (proxy.go) for dedicated prefill and decode nodes, and the
-- whole handler. `V` is the type of JSON values.
pub mod Kept
pub mod Sources
pub mod Totals
use yuanyi.Base.{
  String, ℕ, zero, suc, ◌+◌, ◌%◌, ℤ, pos, Bool, true, false, ◌&&◌, ◌||◌, not, Option, none, some,
  List, [], ◌∷◌, length, get_elem?, is_empty, is_none, get_or, if◌then◌else◌, Map, find, put, ◌==◌,
}
use yuanyi.Peer.{GpuInfo}
use yuanyi.Gateway.{
  State, Net, Response, BackendInfo, Topology, Fetched, unreachable, broken, received, Usage,
  record_failure, record_metrics, peer_vllm_port, uint16, too_short,
}
use yuanyi.Gateway.Request.{
  Answer, passed, json_error, json_body, preflight, crashed, Outgoing, handle_together,
}

-- encoding/json, as far as the handler calls it. The inner option is the nil map that the text
-- `null` leaves.
pub record Json (V : Type 0) : Type 0 where
  pub parse : String → Option (Option (Map V))
  pub encode : Option (Map V) → String
  pub usage : String → Option Usage
  pub one : V
  pub yes : V
  pub zero_float : V
  pub text : String → V

pub record Request : Type 0 where
  pub method : String
  pub path : String
  pub raw_query : String
  -- `none` is an error of io.ReadAll
  pub body : Option String

module _ {V : Type 0} where
  -- `for k, v := range reqData {  reqData[k] = v }`
  unfoldable pub copy_map : Map V → Map V → Map V
  copy_map [] acc = acc
  copy_map ((k, v) ∷ m) acc = copy_map m (put k v acc)

  module _ (json : Json V) where
    unfoldable pub prefill_request : BackendInfo → Map V → Map V
    unfolding copy_map
    prefill_request decode req = put "mooncake_engine" (json.text decode.engine_id) (
        put "mooncake_peer" (json.text decode.bootstrap_addr) (
          put "temperature" json.zero_float
            (put "ignore_eos" json.yes (put "max_tokens" json.one (copy_map req [])))))

    unfoldable pub decode_request : BackendInfo → Map V → Map V
    unfolding copy_map
    decode_request prefill req =
        put "mooncake_engine" (json.text prefill.engine_id)
          (put "mooncake_peer" (json.text prefill.bootstrap_addr) (copy_map req []))

    abbrev has_key : Option (Option (Map V)) → Bool
    has_key (some (some m)) = not (is_none (find "error" m))
    has_key _ = false

    -- A JSON object with a member "error".
    unfoldable pub has_error : String → Bool
    has_error resp = has_key (json.parse resp)

-- How one attempt at both phases ends. The flag tells whether the own vLLM decoded.
pub data Phased : Type 0 where
  decoded : String → Bool → Phased
  retry panicked : Phased

module _ {W : Type 0} (net : Net W) where
  unfoldable pub fetched : W × Fetched → State W → State W × Option String
  fetched (w, unreachable) s = (record s { world = w; vllm_ready = false }, none)
  fetched (w, broken) s = (record s { world = w }, none)
  fetched (w, received body) s = (record s { world = w }, some body)

  -- streamToLocalVLLM
  unfoldable pub stream_to_local : String → String → State W → State W × Option String
  unfolding fetched
  stream_to_local path bytes s =
      if not s.vllm_ready then (s, none) else fetched (net.fetch_local s.world path bytes) s

  module _ {F : Type 0} (peers : Map (GpuInfo F)) where
    -- streamToPeer
    unfoldable pub stream_to_peer : String → String → String → State W → State W × Option String
    stream_to_peer id path bytes s =
        let (w, r) = net.fetch_peer s.world id (uint16 (peer_vllm_port peers id)) path bytes in
        (record s { world = w }, r)

    -- The own vLLM if the backend is the own host, and otherwise the tunnel.
    unfoldable pub stream_to : String → String → String → String → State W → State W × Option String
    unfolding stream_to_local stream_to_peer
    stream_to self id path bytes s =
        if id == self then stream_to_local path bytes s else stream_to_peer id path bytes s

    module _ {V : Type 0} (json : Json V) (self : String) where
      unfoldable pub decode_result : BackendInfo → State W × Option String → State W × Phased
      decode_result decode (s, none) = (s, retry)
      decode_result decode (s, some resp) = (s, decoded resp (decode.peer_id == self))

      -- Phase 2.
      unfoldable pub decode_phase :
          BackendInfo → BackendInfo → String → Map V → State W × Option String → State W × Phased
      unfolding decode_result stream_to decode_request has_error
      decode_phase prefill decode path req (s, none) = (s, retry)
      decode_phase prefill decode path req (s, some resp) =
          if has_error json resp
          then (s, retry)
          else decode_result decode (
              stream_to self decode.peer_id path
                (json.encode (some (decode_request json prefill req))) s)

      -- Both phases with the chosen backends; the log line cuts both IDs.
      unfoldable pub both_phases :
          Option BackendInfo → Option BackendInfo → String → Map V → State W → State W × Phased
      unfolding decode_phase stream_to prefill_request too_short
      both_phases (some prefill) (some decode) path req s =
          if too_short prefill.peer_id || too_short decode.peer_id
          then (s, panicked)
          else decode_phase prefill decode path req (
              stream_to self prefill.peer_id path
                (json.encode (some (prefill_request json decode req))) s)
      both_phases _ _ path req s = (s, panicked)

      -- One turn of the loop, with backends in both lists.
      unfoldable pub split_attempt : Topology → String → Map V → State W → State W × Phased
      unfolding both_phases
      split_attempt top path req s =
          let t = net.others s in
          let i = (t.decode_index + 1) % length top.decode_backends in
          both_phases (get_elem? top.prefill_backends 0) (get_elem? top.decode_backends i) path req
            (record t { decode_index = i })

      unfoldable pub count_decoded : String → Bool → State W → State W
      unfolding record_metrics
      count_decoded resp is_local s =
          if is_local then record s { stats = record_metrics json.usage resp false s.stats } else s

      -- The answer of a decoded attempt; a retry goes on.
      unfoldable pub settle : (State W → State W × Answer) → State W × Phased → State W × Answer
      unfolding count_decoded
      settle next (t, decoded resp is_local) = (count_decoded resp is_local t, json_body resp)
      settle next (t, panicked) = (t, crashed)
      settle next (t, retry) = next t

      -- The own vLLM as the last resort, and the error if it fails.
      unfoldable pub fallback_result : ℕ → String → State W × Option String → State W × Answer
      unfolding record_metrics record_failure
      fallback_result code message (s, none) =
          (record s { stats = record_failure false s.stats }, json_error code message)
      fallback_result code message (s, some resp) =
          if resp == ""
          then (record s { stats = record_failure false s.stats }, json_error code message)
          else (record s { stats = record_metrics json.usage resp false s.stats }, json_body resp)

      unfoldable pub fall_back : ℕ → String → String → String → State W → State W × Answer
      unfolding fallback_result stream_to_local
      fall_back code message path raw s = fallback_result code message (stream_to_local path raw s)

      -- `n` is the number of attempts left.
      unfoldable pub split_attempts :
          ℕ → Topology → String → String → Map V → State W → State W × Answer
      unfolding split_attempt settle fall_back
      split_attempts zero top path raw req s =
          fall_back 502 "All P/D execution attempts failed" path raw s
      split_attempts (suc n) top path raw req s =
          settle (split_attempts n top path raw req) (split_attempt top path req s)

      unfoldable pub handle_split : Topology → String → String → Map V → State W → State W × Answer
      unfolding split_attempts fall_back
      handle_split top path raw req s =
          if is_empty top.prefill_backends || is_empty top.decode_backends
          then fall_back 503 "No P/D backends available" path raw s
          else split_attempts 3 top path raw req s

      -- The choice between the two modes.
      unfoldable pub dispatch : Request → Option (Map V) → State W → State W × Answer
      unfolding handle_together handle_split
      dispatch r req s =
          let raw = json.encode req in
          let top = s.topology in
          if top.is_pd_together || is_empty top.prefill_backends && is_empty top.decode_backends
          then handle_together net peers self
              (record { path = r.path; raw_query = r.raw_query; bytes = raw }) s
          else handle_split top r.path raw (get_or req []) s

      unfoldable pub refuse_body : String → State W → State W × Answer
      unfolding record_failure
      refuse_body message s =
          (record s { stats = record_failure false s.stats }, json_error 400 message)

      unfoldable pub on_json : Request → Option (Option (Map V)) → State W → State W × Answer
      unfolding dispatch refuse_body
      on_json r none s = refuse_body "Invalid JSON" s
      on_json r (some req) s = dispatch r req s

      unfoldable pub on_body : Request → Option String → State W → State W × Answer
      unfolding on_json refuse_body
      on_body r none s = refuse_body "Failed to read request body" s
      on_body r (some body) s = on_json r (json.parse body) s

      -- handleProxyRequest
      unfoldable pub handle_proxy_request : Request → State W → State W × Answer
      unfolding on_body
      handle_proxy_request r s =
          if r.method == "OPTIONS"
          then (s, preflight)
          else if not (r.method == "POST")
          then (s, json_error 405 "Only POST allowed")
          else on_body r r.body s
