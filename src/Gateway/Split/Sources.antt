-- ===== src/Gateway/Split/Sources.antt =====
-- Which engine a body comes from (proxy.go).
use yuanyi.Base.{
  String, true, false, ◌||◌, Option, none, some, List, if_intro, if◌then◌else◌, Map, values, ◌≡◌,
  refl, sym, ap, ◌∙◌, Bool-cases, inl, inr, ◌==◌,
}
use yuanyi.Peer.{GpuInfo}
use yuanyi.Gateway.{State, Net, BackendInfo, Response, peer_ids, too_short}
use yuanyi.Gateway.Request.{
  Answer, passed, json_error, json_body, preflight, crashed, Attempt, answered, unserved, panicked,
  Outgoing, refuse, last_result, after_peers, after_local, handle_together, proxy_to_local,
  try_peers, peer_attempts, try_local_first,
}
use yuanyi.Gateway.Split.{
  Json, prefill_request, decode_request, has_error, Phased, decoded, retry, stream_to_local,
  stream_to_peer, stream_to, decode_result, decode_phase, both_phases,
}

module _ {W : Type 0} (net : Net W) where
  -- The own engine answers a request for the path with this body.
  abbrev pub Own : String → String → Type 0
  Own path resp =
      (u : State W) × (bytes : String) × ((stream_to_local net path bytes u).1 ≡ some resp)

  module _ {F : Type 0} (peers : Map (GpuInfo F)) (self : String) where
    -- A peer other than the own node answers it.
    abbrev pub Far : String → String → Type 0
    Far path resp =
        (id : String) × (u : State W) × (bytes : String) × ((id == self) ≡ false)
        × ((stream_to_peer net peers id path bytes u).1 ≡ some resp)

    -- The flag of a decoded body tells where it comes from.
    abbrev pub Shown : String → Phased → Type 0
    Shown path (decoded resp true) = Own path resp
    Shown path (decoded resp false) = Far path resp
    Shown path retry = Unit
    Shown path Phased.panicked = Unit

    stream_to-Shown :
        (id path bytes resp : String) (s : State W)
        → (stream_to net peers self id path bytes s).1 ≡ some resp
        → Shown path (decoded resp (id == self))
    unfolding stream_to
    stream_to-Shown id path bytes resp s h = elim (Bool-cases (id == self)) [
      | inl e ↦ rw e (
        s,
        bytes,
        ap
              (λ b.
                (if b
                  then stream_to_local net path bytes s
                  else stream_to_peer net peers id path bytes s).1)
              (sym e)
            ∙ h,
      )
      | inr e ↦ rw e (
        id,
        s,
        bytes,
        e,
        ap
              (λ b.
                (if b
                  then stream_to_local net path bytes s
                  else stream_to_peer net peers id path bytes s).1)
              (sym e)
            ∙ h,
      )
    ]

    module _ {V : Type 0} (json : Json V) where
      decode_result-Shown :
          (path : String) (decode : BackendInfo) (x : State W × Option String)
          → ((resp : String) → x.1 ≡ some resp → Shown path (decoded resp (decode.peer_id == self)))
          → Shown path (decode_result net peers json self decode x).1
      unfolding decode_result
      decode_result-Shown path decode (t, none) h = tt
      decode_result-Shown path decode (t, some resp) h = h resp refl

      decode_phase-Shown :
          (prefill decode : BackendInfo) (path : String) (req : Map V) (x : State W × Option String)
          → Shown path (decode_phase net peers json self prefill decode path req x).1
      unfolding decode_phase
      decode_phase-Shown prefill decode path req (t, none) = tt
      decode_phase-Shown prefill decode path req (t, some resp) =
          let bytes = json.encode (some (decode_request json prefill req)) in
          let sent = stream_to net peers self decode.peer_id path bytes t in
          if_intro (λ (x : State W × Phased). Shown path x.1) (has_error json resp) (t, retry)
            (decode_result net peers json self decode sent) tt
            (decode_result-Shown path decode sent
              (λ body. stream_to-Shown decode.peer_id path bytes body t))

      pub both_phases-Shown :
          (o o' : Option BackendInfo) (path : String) (req : Map V) (s : State W)
          → Shown path (both_phases net peers json self o o' path req s).1
      unfolding both_phases
      both_phases-Shown (some prefill) (some decode) path req s =
          let bytes = json.encode (some (prefill_request json decode req)) in
          let sent = stream_to net peers self prefill.peer_id path bytes s in
          if_intro (λ (x : State W × Phased). Shown path x.1)
            (too_short prefill.peer_id || too_short decode.peer_id) (s, Phased.panicked)
            (decode_phase net peers json self prefill decode path req sent) tt
            (decode_phase-Shown prefill decode path req sent)
      both_phases-Shown none o path req s = tt
      both_phases-Shown (some prefill) none path req s = tt

-- Without dedicated nodes no body is decoded on the way.
abbrev pub IsDirect : Answer → Type 0
IsDirect (json_body resp) = ⊥
IsDirect (passed r) = Unit
IsDirect (json_error code message) = Unit
IsDirect preflight = Unit
IsDirect crashed = Unit

module _ {W : Type 0} (net : Net W) {F : Type 0} (peers : Map (GpuInfo F)) (out : Outgoing) where
  last_result-IsDirect : (x : State W × Option Response) → IsDirect (last_result net peers x).1
  unfolding last_result refuse
  last_result-IsDirect (t, some r) = tt
  last_result-IsDirect (t, none) = tt

  after_peers-IsDirect : (x : State W × Attempt) → IsDirect (after_peers net peers out x).1
  unfolding after_peers
  after_peers-IsDirect (t, answered r) = tt
  after_peers-IsDirect (t, panicked) = tt
  after_peers-IsDirect (t, unserved) = last_result-IsDirect (proxy_to_local net out t)

  after_local-IsDirect :
      (ids : List String) (x : State W × Option Response)
      → IsDirect (after_local net peers out ids x).1
  unfolding after_local
  after_local-IsDirect ids (t, some r) = tt
  after_local-IsDirect ids (t, none) =
      after_peers-IsDirect (try_peers net peers (peer_attempts net peers ids) out ids t)

  pub handle_together-IsDirect :
      (self : String) (s : State W) → IsDirect (handle_together net peers self out s).1
  unfolding handle_together
  handle_together-IsDirect self s =
      let ids = peer_ids self (values peers) in
      after_local-IsDirect ids (try_local_first net peers out ids s)
