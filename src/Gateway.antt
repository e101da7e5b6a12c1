-- ===== src/Gateway.antt =====
-- proxy.go: the node's own OpenAI gateway. A handler is a function of the dispatcher's state; the
-- network and the other goroutines are the parameter `Net`. The panic of an index or a slice out of
-- range is an outcome of its own.
pub mod Request
pub mod Split
pub mod Round
pub mod Accounting
use Prim.Native.String.{len}
use yuanyi.Base.{
  String, ℕ, zero, suc, ◌+◌, ◌%◌, ◌^◌, ℤ, pos, negsuc, ◌-◌, Bool, true, false, ◌&&◌, ◌||◌, not,
  Option, none, some, List, [], ◌∷◌, ◌++◌, length, get_elem?, is_empty, if◌then◌else◌, ltb, leb,
  ltb_ℤ, add64, ◌==◌, Map, find, values,
}
use yuanyi.Peer.{GpuInfo, role_relay, no_gpu}

-- The counters of Stats (tui.go) that the gateway writes; int64.
pub record Stats : Type 0 where
  pub requests : ℤ
  pub in_tokens : ℤ
  pub out_tokens : ℤ
  pub prefill : ℤ
  pub decode : ℤ
  pub error_count : ℤ
  pub success_count : ℤ

pub record Response : Type 0 where
  pub status : ℕ
  pub body : String

-- BackendInfo and ClusterTopologyResponse, as far as the gateway reads them.
pub record BackendInfo : Type 0 where
  pub peer_id : String
  pub ip_address : String
  pub bootstrap_addr : String
  pub engine_id : String

pub record Topology : Type 0 where
  pub is_pd_together : Bool
  pub prefill_backends : List BackendInfo
  pub decode_backends : List BackendInfo

-- LocalDispatcher, the statistics of the TUI, and the rest of the world.
pub record State (W : Type 0) : Type 0 where
  pub world : W
  pub vllm_ready : Bool
  pub local_busy : Bool
  pub decode_index : ℕ
  pub topology : Topology
  pub stats : Stats

-- A buffered request to the local vLLM: no connection, a body that breaks off, or the whole body.
pub data Fetched : Type 0 where
  unreachable broken : Fetched
  received : String → Fetched

pub record Net (W : Type 0) : Type 0 where
  -- http.DefaultClient.Do to the local vLLM: the path with its query, and the body
  pub call_local : W → String → String → W × Option Response
  -- the libp2p tunnel to a peer, from peer.Decode to http.ReadResponse: peer, port, path and body
  pub call_peer : W → String → ℕ → String → String → W × Option Response
  -- the same two with the body read to its end: streamToLocalVLLM and streamToPeer
  pub fetch_local : W → String → String → W × Fetched
  pub fetch_peer : W → String → ℕ → String → String → W × Option String
  -- what other goroutines do between two attempts, the pause included
  pub others : State W → State W

-- `n++` on an int64
abbrev pub inc : ℤ → ℤ
inc n = add64 n (pos 1)

-- The closure that both transparent proxies pass to UpdateStats.
unfoldable pub served : Stats → Stats
served st = record st {
  requests = inc st.requests;
  decode = inc st.decode;
  success_count = inc st.success_count;
}

-- recordMetrics with an error.
unfoldable pub record_failure : Bool → Stats → Stats
record_failure is_prefill st = record st {
  requests = inc st.requests;
  prefill = if is_prefill then inc st.prefill else st.prefill;
  decode = if is_prefill then st.decode else inc st.decode;
  error_count = inc st.error_count;
}

-- `usage` of a response, as far as recordMetrics reads it.
pub record Usage : Type 0 where
  pub has_error : Bool
  pub prompt_tokens : ℤ
  pub completion_tokens : ℤ

-- recordMetrics with a response: `parse` is json.Unmarshal.
unfoldable pub record_metrics : (String → Option Usage) → String → Bool → Stats → Stats
unfolding record_failure
record_metrics parse body is_prefill st =
    if body == "" then record_failure is_prefill st else elim (parse body) [
      | none ↦ record_failure is_prefill st
      | some u ↦ if u.has_error then record_failure is_prefill st else record st {
        requests = inc st.requests;
        prefill = if is_prefill then inc st.prefill else st.prefill;
        decode = if is_prefill then st.decode else inc st.decode;
        in_tokens = add64 st.in_tokens u.prompt_tokens;
        out_tokens = add64 st.out_tokens u.completion_tokens;
        success_count = inc st.success_count;
      }
    ]

module _ {F : Type 0} where
  -- The `continue`s of the loop over GetPeers.
  unfoldable pub dispatchable : String → GpuInfo F → Bool
  dispatchable self p =
      not (p.node_id == "" || p.node_id == self)
      && not (p.role == role_relay || p.summary == no_gpu)

  -- peerIDs, in the order in which the loop meets the peers
  unfoldable pub peer_ids : String → List (GpuInfo F) → List String
  unfolding dispatchable
  peer_ids self [] = []
  peer_ids self (p ∷ ps) =
      let rest = peer_ids self ps in if dispatchable self p then p.node_id ∷ rest else rest

  unfoldable pub port_of : Option (GpuInfo F) → ℤ
  port_of none = pos 8100
  port_of (some info) = if ltb_ℤ (pos 0) info.vllm_port then info.vllm_port else pos 8100

  unfoldable pub peer_vllm_port : Map (GpuInfo F) → String → ℤ
  unfolding port_of
  peer_vllm_port peers id = port_of (find id peers)

-- uint16(n)
unfoldable pub uint16 : ℤ → ℕ
uint16 (pos n) = n % 2 ^ 16
uint16 (negsuc n) = 2 ^ 16 - 1 - n % 2 ^ 16

-- `id[:8]` panics on a text of fewer than eight bytes.
unfoldable pub too_short : String → Bool
too_short id = ltb (len id) 8
