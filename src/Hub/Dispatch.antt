-- ===== src/Hub/Dispatch.antt =====
-- handleProxyRequest of the hub (server_proxy.go) with its two modes. The semaphore only delays a
-- request. `P` is libp2p's peer.ID and `V` the type of JSON values.
pub mod Credit
use yuanyi.Base.{
  String, ℕ, zero, suc, ◌+◌, ◌%◌, ℤ, pos, Bool, true, false, ◌&&◌, not, Option, none, some, List,
  [], length, get_elem?, is_empty, get_or, ◌||◌, if◌then◌else◌, ltb_ℤ, eq_ℤ, Map, ◌==◌,
}
use yuanyi.Float.{Float64}
use yuanyi.Cache.{PeerCache, increment_contribution, increment_tokens_detail}
use yuanyi.Hub.{Backend, ProxyServer, Cluster, is_pd_together}
use yuanyi.Gateway.{Usage}
use yuanyi.Gateway.Split.{Json, Request, prefill_request, decode_request, has_error}
use yuanyi.Gateway.{BackendInfo}

-- The dispatcher, the cache that it credits, and the rest of the world.
pub record Site (W P F : Type 0) : Type 0 where
  pub world : W
  pub server : ProxyServer P
  pub cache : PeerCache F

pub record Links (W P V F : Type 0) : Type 0 where
  -- the libp2p tunnel, from NewStream to io.ReadAll: the peer, the port, the path and the body
  pub tunnel : W → P → ℕ → String → String → W × Option String
  -- r.Context().Err() != nil
  pub client_gone : W → Bool
  -- json.Marshal, which may fail
  pub marshal : Option (Map V) → Option String
  -- (peer.ID).String
  pub show : P → String
  -- what other goroutines do before an attempt, the pause after a failure included
  pub others : Site W P F → Site W P F

-- What the client is sent: a JSON error, a plain one, or the body of the peer.
pub data Reply : Type 0 where
  json_error plain_error : ℕ → String → Reply
  body : String → Reply
  preflight crashed : Reply

-- `again` is the result `false` of a dispatch: nothing was sent yet.
pub data Verdict : Type 0 where
  sent : Reply → Verdict
  again : Verdict

module _ {W P V F : Type 0} ⦃fl : Float64 F⦄ (links : Links W P V F) (json : Json V) where
  -- Tokens of a response that reports none.
  unfoldable pub token_counts : Usage → ℤ × ℤ
  token_counts u =
      if eq_ℤ u.prompt_tokens (pos 0) && eq_ℤ u.completion_tokens (pos 0)
      then (pos 20, pos 30)
      else (u.prompt_tokens, u.completion_tokens)

  -- A failed call: the client has left, or the next attempt follows.
  unfoldable pub lost : Site W P F → Site W P F × Verdict
  lost s =
      if links.client_gone s.world
      then (s, sent (plain_error 499 "Client Disconnected"))
      else (s, again)

  unfoldable pub credit_together : String → Option Usage → PeerCache F → PeerCache F
  unfolding token_counts
  credit_together id none pc = increment_contribution id (pos 1) (pos 50) pc
  credit_together id (some u) pc =
      let (p_in, p_out) = token_counts u in increment_tokens_detail id (pos 1) p_in p_out pc

  abbrev reports_error : Option Usage → Bool
  reports_error none = false
  reports_error (some u) = u.has_error

  unfoldable pub together_response : P → Site W P F × Option String → Site W P F × Verdict
  unfolding lost credit_together
  together_response pid (s, none) = lost s
  together_response pid (s, some resp) = if reports_error (json.usage resp) then (s, again) else (
    record s { cache = credit_together (links.show pid) (json.usage resp) s.cache },
    sent (body resp),
  )

  -- (*Backend).StreamRequest: the port is fixed, and the status of the response is not looked at.
  unfoldable pub stream : P → String → String → Site W P F → Site W P F × Option String
  stream pid path bytes s =
      let (w, r) = links.tunnel s.world pid 8100 path bytes in (record s { world = w }, r)

  unfoldable pub together_call :
      Option (Backend P) → String → Option String → Site W P F → Site W P F × Verdict
  unfolding together_response stream
  together_call none path bytes s = (s, sent crashed)
  together_call (some b) path none s = (s, sent (json_error 500 "Failed to encode request"))
  together_call (some b) path (some bytes) s =
      together_response b.peer_id (stream b.peer_id path bytes s)

  unfoldable pub advance : List (Backend P) → Site W P F → Site W P F
  advance backends s = record s {
    server = record s.server { decode_index = (s.server.decode_index + 1) % length backends };
  }

  -- dispatchPDTogether
  unfoldable pub dispatch_together : String → Option (Map V) → Site W P F → Site W P F × Verdict
  unfolding together_call advance
  dispatch_together path req s =
      let backends = s.server.prefill_backends in
      if is_empty backends
      then (s, sent (json_error 503 "No backends available"))
      else let t = advance backends s in
        together_call (get_elem? backends t.server.decode_index) path (links.marshal req) t

  abbrev or_default : ℤ → ℤ → ℤ
  or_default n d = if ltb_ℤ (pos 0) n then n else d

  -- pIn and pOut.
  unfoldable pub split_tokens : Option Usage → ℤ × ℤ
  split_tokens none = (pos 20, pos 80)
  split_tokens (some u) =
      (or_default u.prompt_tokens (pos 20), or_default u.completion_tokens (pos 80))

  unfoldable pub credit_split : String → String → Option Usage → PeerCache F → PeerCache F
  unfolding split_tokens
  credit_split prefill decode usage pc =
      let (p_in, p_out) = split_tokens usage in
      increment_tokens_detail decode (pos 1) (pos 0) p_out
        (increment_tokens_detail prefill (pos 1) p_in (pos 0) pc)

  unfoldable pub split_response : P → P → Site W P F × Option String → Site W P F × Verdict
  unfolding lost credit_split
  split_response prefill decode (s, none) = lost s
  split_response prefill decode (s, some resp) =
      if reports_error (json.usage resp) then (s, again) else (
        record s {
          cache = credit_split (links.show prefill) (links.show decode) (json.usage resp) s.cache;
        },
        sent (body resp),
      )

  abbrev info_of : Backend P → BackendInfo
  info_of b = record {
    peer_id = links.show b.peer_id;
    ip_address = b.ip_address;
    bootstrap_addr = b.bootstrap_addr;
    engine_id = b.engine_id;
  }

  unfoldable pub decode_call :
      Backend P → Backend P → String → Option String → Site W P F → Site W P F × Verdict
  unfolding split_response stream
  decode_call p d path none s = (s, sent (plain_error 500 "Failed to encode decode request"))
  decode_call p d path (some bytes) s =
      split_response p.peer_id d.peer_id (stream d.peer_id path bytes s)

  -- What follows the prefill stage.
  unfoldable pub prefill_response :
      Backend P → Backend P → String → Map V → Site W P F × Option String → Site W P F × Verdict
  unfolding lost decode_call has_error decode_request
  prefill_response p d path req (s, none) = lost s
  prefill_response p d path req (s, some resp) =
      if has_error json resp
      then (s, again)
      else decode_call p d path (links.marshal (some (decode_request json (info_of p) req))) s

  unfoldable pub prefill_call :
      Backend P → Backend P → String → Map V → Option String → Site W P F → Site W P F × Verdict
  unfolding prefill_response stream
  prefill_call p d path req none s = (s, sent (plain_error 500 "Failed to encode prefill request"))
  prefill_call p d path req (some bytes) s =
      prefill_response p d path req (stream p.peer_id path bytes s)

  unfoldable pub split_call :
      Option (Backend P) → Option (Backend P) → String → Map V → Site W P F → Site W P F × Verdict
  unfolding prefill_call prefill_request
  split_call (some p) (some d) path req s =
      prefill_call p d path req (links.marshal (some (prefill_request json (info_of d) req))) s
  split_call _ _ path req s = (s, sent crashed)

  -- dispatchPDSplit
  unfoldable pub dispatch_split : String → Option (Map V) → Site W P F → Site W P F × Verdict
  unfolding split_call advance
  dispatch_split path req s =
      if is_empty s.server.prefill_backends || is_empty s.server.decode_backends
      then (s, sent (plain_error 503 "No backends available"))
      else let t = advance s.server.decode_backends s in
        split_call (get_elem? s.server.prefill_backends 0)
          (get_elem? s.server.decode_backends t.server.decode_index) path (get_or req []) t

  -- The result `false` leads to the next attempt.
  unfoldable pub go_on :
      (Site W P F → Site W P F × Reply) → Site W P F × Verdict → Site W P F × Reply
  go_on next (s, sent r) = (s, r)
  go_on next (s, again) = next s

  -- The loop: `n` is the number of attempts left.
  unfoldable pub attempts : ℕ → Cluster → String → Option (Map V) → Site W P F → Site W P F × Reply
  unfolding go_on dispatch_together dispatch_split
  attempts zero c path req s = (s, plain_error 502 "All backend attempts failed")
  attempts (suc n) c path req s =
      let t = links.others s in
      go_on (attempts n c path req)
        (if is_pd_together c then dispatch_together path req t else dispatch_split path req t)

  unfoldable pub parsed_body :
      Cluster → String → Option (Option (Map V)) → Site W P F → Site W P F × Reply
  unfolding attempts
  parsed_body c path none s = (s, json_error 400 "Invalid JSON")
  parsed_body c path (some req) s = attempts 3 c path req s

  unfoldable pub read_body : Cluster → String → Option String → Site W P F → Site W P F × Reply
  unfolding parsed_body
  read_body c path none s = (s, json_error 400 "Failed to read request body")
  read_body c path (some text) s = parsed_body c path (json.parse text) s

  -- handleProxyRequest
  unfoldable pub hub_handle : Cluster → Request → Site W P F → Site W P F × Reply
  unfolding read_body
  hub_handle c r s =
      if links.client_gone s.world
      then (s, json_error 499 "Client Disconnected")
      else if r.method == "OPTIONS"
      then (s, preflight)
      else if not (r.method == "POST")
      then (s, json_error 405 "Only POST allowed")
      else read_body c r.path r.body s
