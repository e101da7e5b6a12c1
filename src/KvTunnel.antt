-- ===== src/KvTunnel.antt =====
-- handleKVTunnel of both dispatchers (proxy.go, server_proxy.go), and the paths that the local
-- proxy of a peer sends there (startLocalProxyForPeer, p2p.go). `atoi` is strconv.Atoi, `decodes`
-- whether peer.Decode takes an ID. `new_request` is http.NewRequest of a target: the target that
-- Request.Write sends for it, which may be another text, since a decoded path is parsed again, or
-- none for an error.
pub mod Path
use yuanyi.Base.{
  ℕ, ℤ, Bool, true, false, not, List, [], ◌∷◌, ◌++◌, Option, none, some, is_empty, if◌then◌else◌,
}
use yuanyi.Gateway.{uint16}
use yuanyi.Strings.{Text, codes, split_n, text_eq}
use yuanyi.Telemetry.{show_int}

-- `Rest` is what the handler hands on unread: the method, the header and the body.
pub record KvRequest (Rest : Type 0) : Type 0 where
  pub path : Text
  pub raw_query : Text
  pub rest : Rest

-- What is written to the stream behind the port.
pub record OutRequest (Rest : Type 0) : Type 0 where
  pub target_path : Text
  pub host : Text
  pub rest : Rest

-- How the opening of a stream and the write of the port end.
pub data Opening : Type 0 where
  no_stream port_not_written stream_open : Opening

-- The step at which the exchange over the stream fails, or the response of the peer.
pub data PeerOutcome (A : Type 0) : Type 0 where
  request_not_written no_response : PeerOutcome A
  responded : A → PeerOutcome A

-- ServeMux answers a path that is not clean by a redirect to the clean one, with the query.
pub data KvReply (A : Type 0) : Type 0 where
  http_error : ℕ → KvReply A
  redirected_to : Text → Text → KvReply A
  copied : A → KvReply A

unfoldable pub reply_to : {A : Type 0} → PeerOutcome A → KvReply A
reply_to request_not_written = http_error 502
reply_to no_response = http_error 502
reply_to (responded r) = copied r

abbrev pub answer_of : {W A : Type 0} → W × PeerOutcome A → W × KvReply A
answer_of (w, o) = (w, reply_to o)

-- "/" + parts[4] and the query.
abbrev pub target_of : List Text → Text → Text
target_of tail query =
    let path = elim tail as (λ _. Text) [ [] ↦ 47 ∷ [] | t ∷ ts ↦ 47 ∷ t ] in
    if is_empty query then path else path ++ 63 ∷ query

-- The path of the local proxy: pathPrefix and the path that was asked for.
abbrev pub vip_path : Text → ℤ → Text → Text
vip_path id port path = codes "/mooncake_kv/" ++ (id ++ 47 ∷ (show_int port ++ path))

-- The request that the local proxy makes of one to the virtual address: `rewrite` is what
-- httputil.ReverseProxy does to the headers. It keeps the query.
unfoldable pub through_proxy :
    {Rest : Type 0} → (Rest → Rest) → Text → ℤ → KvRequest Rest → KvRequest Rest
through_proxy rewrite id port r = record {
  path = vip_path id port r.path;
  raw_query = r.raw_query;
  rest = rewrite r.rest;
}

module _ {W Rest A : Type 0} (atoi : Text → Option ℤ) (decodes : Text → Bool)
    (new_request : Text → Option Text) (open_stream : W → Text → ℕ → W × Opening)
    (send : W → Text → OutRequest Rest → W × PeerOutcome A) (host_of : Text → ℤ → Text) where
  -- Behind the write of the port.
  unfoldable pub send_kv : Text → OutRequest Rest → W → W × KvReply A
  unfolding reply_to
  send_kv id out w = elim (new_request out.target_path) [
    | none ↦ (w, http_error 500)
    | some target ↦ answer_of (send w id (record out { target_path = target }))
  ]

  unfoldable pub after_opening : Text → OutRequest Rest → W × Opening → W × KvReply A
  unfolding send_kv
  after_opening id out (w, no_stream) = (w, http_error 502)
  after_opening id out (w, port_not_written) = (w, http_error 502)
  after_opening id out (w, stream_open) = send_kv id out w

  -- The peer, the port as text and as number, and the part of the path behind them.
  unfoldable pub forward_kv : Text → Text → ℤ → List Text → KvRequest Rest → W → W × KvReply A
  unfolding after_opening
  forward_kv id port_text port tail r w =
      if not (decodes id)
      then (w, http_error 400)
      else after_opening id
          (record {
            target_path = target_of tail r.raw_query;
            host = host_of port_text port;
            rest = r.rest;
          })
          (open_stream w id (uint16 port))

  unfoldable pub route_kv : List Text → KvRequest Rest → W → W × KvReply A
  unfolding forward_kv
  route_kv (_ ∷ _ ∷ id ∷ port_text ∷ tail) r w = elim (atoi port_text) [
    | none ↦ (w, http_error 400)
    | some port ↦ forward_kv id port_text port tail r w
  ]
  route_kv parts r w = (w, http_error 400)

  unfoldable pub handle_kv_tunnel : KvRequest Rest → W → W × KvReply A
  unfolding route_kv split_n
  handle_kv_tunnel r w = route_kv (split_n 47 4 r.path) r w

  -- The handler behind the ServeMux that it is registered with; `clean_path` is the mux's
  -- cleaning of a path.
  unfoldable pub serve_kv : (Text → Text) → KvRequest Rest → W → W × KvReply A
  unfolding handle_kv_tunnel text_eq
  serve_kv clean_path r w =
      if text_eq (clean_path r.path) r.path
      then handle_kv_tunnel r w
      else (w, redirected_to (clean_path r.path) r.raw_query)

-- outReq.Host of the gateway and of the hub.
abbrev pub gateway_host : Text → ℤ → Text
gateway_host port_text port = codes "127.0.0.1:" ++ show_int port

abbrev pub hub_host : Text → ℤ → Text
hub_host port_text port = codes "127.0.0.1:" ++ port_text
