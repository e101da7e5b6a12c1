-- ===== src/Gateway/Split/Kept.antt =====
-- The calls of both phases (proxy.go) and the node's own counters.
use yuanyi.Base.{
  String, Bool, false, ◌||◌, not, Option, none, some, if_intro, Map, refl, ap, ◌∙◌, ◌==◌,
}
use yuanyi.Peer.{GpuInfo}
use yuanyi.Gateway.{
  Stats, State, Net, BackendInfo, Fetched, unreachable, broken, received, too_short,
}
use yuanyi.Gateway.Accounting.{Adds}
use yuanyi.Gateway.Split.{
  Json, prefill_request, decode_request, has_error, Phased, retry, panicked, fetched,
  stream_to_local, stream_to_peer, stream_to, decode_result, decode_phase, both_phases,
}

module _ {W : Type 0} where
  -- Neither the counters nor the local slot have changed.
  abbrev pub Kept : State W → State W → Type 0
  Kept = Adds (λ st. st)

  kept : {s : State W} (w : W) (ready : Bool) → Kept s (record s { world = w; vllm_ready = ready })
  kept w ready = record { counted = refl; slot = refl }

  pub Kept-then : (f : Stats → Stats) (s t u : State W) → Kept s t → Adds f t u → Adds f s u
  Kept-then f s t u h k = record { counted = k.counted ∙ ap f h.counted; slot = k.slot ∙ h.slot }

  module _ (net : Net W) where
    fetched-Kept : (x : W × Fetched) (s : State W) → Kept s (fetched net x s).0
    unfolding fetched
    fetched-Kept (w, unreachable) s = kept w false
    fetched-Kept (w, broken) s = record { counted = refl; slot = refl }
    fetched-Kept (w, received body) s = record { counted = refl; slot = refl }

    pub stream_to_local-Kept :
        (path bytes : String) (s : State W) → Kept s (stream_to_local net path bytes s).0
    unfolding stream_to_local
    stream_to_local-Kept path bytes s =
        if_intro (λ (x : State W × Option String). Kept s x.0) (not s.vllm_ready) (s, none)
          (fetched net (net.fetch_local s.world path bytes) s)
          record { counted = refl; slot = refl }
          (fetched-Kept (net.fetch_local s.world path bytes) s)

    module _ {F : Type 0} (peers : Map (GpuInfo F)) where
      stream_to-Kept :
          (self id path bytes : String) (s : State W)
          → Kept s (stream_to net peers self id path bytes s).0
      unfolding stream_to stream_to_peer
      stream_to-Kept self id path bytes s =
          if_intro (λ (x : State W × Option String). Kept s x.0) (id == self)
            (stream_to_local net path bytes s) (stream_to_peer net peers id path bytes s)
            (stream_to_local-Kept path bytes s) record { counted = refl; slot = refl }

      module _ {V : Type 0} (json : Json V) (self : String) where
        decode_result-Kept :
            (decode : BackendInfo) (s : State W) (x : State W × Option String)
            → Kept s x.0
            → Kept s (decode_result net peers json self decode x).0
        unfolding decode_result
        decode_result-Kept decode s (t, none) h = h
        decode_result-Kept decode s (t, some resp) h = h

        decode_phase-Kept :
            (prefill decode : BackendInfo) (path : String) (req : Map V) (s : State W)
            (x : State W × Option String)
            → Kept s x.0
            → Kept s (decode_phase net peers json self prefill decode path req x).0
        unfolding decode_phase
        decode_phase-Kept prefill decode path req s (t, none) h = h
        decode_phase-Kept prefill decode path req s (t, some resp) h =
            let bytes = json.encode (some (decode_request json prefill req)) in
            let sent = stream_to net peers self decode.peer_id path bytes t in
            if_intro (λ (x : State W × Phased). Kept s x.0) (has_error json resp) (t, retry)
              (decode_result net peers json self decode sent) h
              (decode_result-Kept decode s sent (
                Kept-then (λ st. st) s t sent.0 h
                  (stream_to-Kept self decode.peer_id path bytes t)))

        pub both_phases-Kept :
            (o o' : Option BackendInfo) (path : String) (req : Map V) (s t : State W)
            → Kept s t
            → Kept s (both_phases net peers json self o o' path req t).0
        unfolding both_phases
        both_phases-Kept (some prefill) (some decode) path req s t h =
            let bytes = json.encode (some (prefill_request json decode req)) in
            let sent = stream_to net peers self prefill.peer_id path bytes t in
            if_intro (λ (x : State W × Phased). Kept s x.0)
              (too_short prefill.peer_id || too_short decode.peer_id) (t, panicked)
              (decode_phase net peers json self prefill decode path req sent) h
              (decode_phase-Kept prefill decode path req s sent (
                Kept-then (λ st. st) s t sent.0 h
                  (stream_to-Kept self prefill.peer_id path bytes t)))
        both_phases-Kept none o path req s t h = h
        both_phases-Kept (some prefill) none path req s t h = h
