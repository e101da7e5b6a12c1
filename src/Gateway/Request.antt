-- ===== src/Gateway/Request.antt =====
-- The PD-Together branch of handleProxyRequest (proxy.go): local first, then every peer in turn,
-- then the local queue, then 502.
use Prim.Native.String.{◌++◌}
use yuanyi.Base.{
  String, ℕ, zero, suc, ◌+◌, ◌%◌, true, false, ◌&&◌, not, Option, none, some, List, length,
  get_elem?, is_empty, if◌then◌else◌, ltb, leb, Map, values, ◌==◌,
}
use yuanyi.Peer.{GpuInfo}
use yuanyi.Gateway.{
  State, Net, Response, served, record_failure, peer_ids, peer_vllm_port, uint16, too_short,
}

-- What the client is sent. `crashed` is a panic in the handler.
pub data Answer : Type 0 where
  passed : Response → Answer
  json_error : ℕ → String → Answer
  json_body : String → Answer
  preflight : Answer
  crashed : Answer

-- How one attempt, or a row of them, ends.
pub data Attempt : Type 0 where
  answered : Response → Attempt
  unserved panicked : Attempt

-- A request as the dispatcher forwards it: path, raw query, and the encoded body.
pub record Outgoing : Type 0 where
  pub path : String
  pub raw_query : String
  pub bytes : String

module _ {W : Type 0} (net : Net W) where
  unfoldable pub local_result : W → Option Response → State W → State W × Option Response
  local_result w none s = (record s { world = w; vllm_ready = false }, none)
  local_result w (some r) s = (record s { world = w; stats = served s.stats }, some r)

  -- proxyToLocalVLLMDirect. The health checker that a failure starts is one of `others`.
  unfoldable pub proxy_to_local : Outgoing → State W → State W × Option Response
  unfolding local_result
  proxy_to_local out s =
      if not s.vllm_ready
      then (s, none)
      else let url = if out.raw_query == "" then out.path else out.path ++ "?" ++ out.raw_query in
        let (w, r) = net.call_local s.world url out.bytes in local_result w r s

  unfoldable pub peer_result : W → Option Response → State W → State W × Attempt
  peer_result w none s = (record s { world = w }, unserved)
  peer_result w (some r) s =
      if leb 500 r.status
      then (record s { world = w }, unserved)
      else (record s { world = w; stats = served s.stats }, answered r)

  -- An answer or a panic ends the loop.
  unfoldable pub or_else : (State W → State W × Attempt) → State W × Attempt → State W × Attempt
  or_else next (t, answered r) = (t, answered r)
  or_else next (t, panicked) = (t, panicked)
  or_else next (t, unserved) = next t

  module _ {F : Type 0} (peers : Map (GpuInfo F)) where
    -- streamToPeerDirect: a 5xx of the peer is a failure of the peer, all else goes to the client.
    unfoldable pub stream_to_peer_direct : Outgoing → String → State W → State W × Attempt
    unfolding peer_result
    stream_to_peer_direct out id s =
        let (w, r) =
          net.call_peer s.world id (uint16 (peer_vllm_port peers id)) out.path out.bytes in
        peer_result w r s

    -- `targetPeerID := peerIDs[d.decodeIndex]`, its log line, and the call
    unfoldable pub call_target : Outgoing → Option String → State W → State W × Attempt
    unfolding stream_to_peer_direct too_short
    call_target out none s = (s, panicked)
    call_target out (some id) s =
        if too_short id then (s, panicked) else stream_to_peer_direct out id s

    -- One turn of the loop: the others run, the index moves on, the peer is called.
    unfoldable pub attempt : Outgoing → List String → State W → State W × Attempt
    unfolding call_target
    attempt out ids s =
        if is_empty ids
        then (s, unserved)
        else let t = net.others s in
          let i = (t.decode_index + 1) % length ids in
          call_target out (get_elem? ids i) (record t { decode_index = i })

    -- `n` is the number of attempts left.
    unfoldable pub try_peers : ℕ → Outgoing → List String → State W → State W × Attempt
    unfolding attempt or_else
    try_peers zero out ids s = (s, unserved)
    try_peers (suc n) out ids s = or_else (try_peers n out ids) (attempt out ids s)

    -- maxRetries, but at least one attempt for each peer
    unfoldable pub peer_attempts : List String → ℕ
    peer_attempts ids = if ltb 3 (length ids) then length ids else 3

    -- Step 1: take the local slot if it is free, or queue locally if there is no peer.
    unfoldable pub try_local_first : Outgoing → List String → State W → State W × Option Response
    unfolding proxy_to_local
    try_local_first out ids s =
        if s.vllm_ready && not s.local_busy
        then (let (t, r) = proxy_to_local out (record s { local_busy = true }) in
            (record t { local_busy = false }, r))
        else if s.vllm_ready && is_empty ids
        then proxy_to_local out s
        else (s, none)

    -- Steps 3 and 4.
    unfoldable pub refuse : State W → State W × Answer
    refuse s = (record s { stats = record_failure false s.stats }, json_error 502 "Proxy error")

    unfoldable pub last_result : State W × Option Response → State W × Answer
    unfolding refuse
    last_result (s, some r) = (s, passed r)
    last_result (s, none) = refuse s

    unfoldable pub after_peers : Outgoing → State W × Attempt → State W × Answer
    unfolding last_result proxy_to_local
    after_peers out (s, answered r) = (s, passed r)
    after_peers out (s, panicked) = (s, crashed)
    after_peers out (s, unserved) = last_result (proxy_to_local out s)

    unfoldable pub after_local :
        Outgoing → List String → State W × Option Response → State W × Answer
    unfolding after_peers try_peers peer_attempts
    after_local out ids (s, some r) = (s, passed r)
    after_local out ids (s, none) = after_peers out (try_peers (peer_attempts ids) out ids s)

    -- `self` is the ID of the own host.
    unfoldable pub handle_together : String → Outgoing → State W → State W × Answer
    unfolding after_local try_local_first peer_ids
    handle_together self out s =
        let ids = peer_ids self (values peers) in after_local out ids (try_local_first out ids s)
