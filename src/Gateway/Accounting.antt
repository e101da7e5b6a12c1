-- ===== src/Gateway/Accounting.antt =====
-- What a request adds to the node's own counters, and the local slot (proxy.go).
use Prim.Native.String.{◌++◌}
use yuanyi.Base.{
  String, ℕ, zero, suc, ◌+◌, ◌%◌, true, false, ◌&&◌, not, Option, none, some, List, length,
  get_elem?, is_empty, if◌then◌else◌, if_intro, if_intro_when, leb, Map, values, ◌≡◌, refl, ap, ◌∙◌,
  inl, inr, arith, Bool-cases, ◌==◌,
}
use yuanyi.Peer.{GpuInfo}
use yuanyi.Gateway.{
  Stats, State, Net, Response, served, record_failure, peer_ids, peer_vllm_port, uint16, too_short,
}
use yuanyi.Gateway.Request.{
  Answer, passed, json_error, Attempt, answered, unserved, panicked, Outgoing, local_result,
  proxy_to_local, peer_result, stream_to_peer_direct, call_target, attempt, try_peers, or_else,
  peer_attempts, try_local_first, refuse, last_result, after_peers, after_local, handle_together,
}

abbrev by_response : Option Response → Stats → Stats
by_response none st = st
by_response (some r) st = served st

abbrev by_attempt : Attempt → Stats → Stats
by_attempt (answered r) st = served st
by_attempt _ st = st

-- A request that is answered is one success, a refused one is one failure.
abbrev pub by_answer : Answer → Stats → Stats
by_answer (passed r) st = served st
by_answer (json_error code message) st = record_failure false st
by_answer _ st = st

module _ {W : Type 0} where
  -- The counters changed by `f`, and the local slot as it was.
  pub record Adds (f : Stats → Stats) (s t : State W) : Type 0 where
    pub counted : t.stats ≡ f s.stats
    pub slot : t.local_busy ≡ s.local_busy

  Adds-then : (g : Stats → Stats) {s t u : State W} → Adds (λ st. st) s t → Adds g t u → Adds g s u
  Adds-then g h k = record { counted = k.counted ∙ ap g h.counted; slot = k.slot ∙ h.slot }

  module _ (net : Net W) (out : Outgoing) where
    local_result-Adds :
        (w : W) (r : Option Response) (s : State W)
        → Adds (by_response (local_result net w r s).1) s (local_result net w r s).0
    unfolding local_result
    local_result-Adds w none s = record { counted = refl; slot = refl }
    local_result-Adds w (some r) s = record { counted = refl; slot = refl }

    proxy_to_local-Adds :
        (s : State W)
        → Adds (by_response (proxy_to_local net out s).1) s (proxy_to_local net out s).0
    unfolding proxy_to_local
    proxy_to_local-Adds s =
        let url = if out.raw_query == "" then out.path else out.path ++ "?" ++ out.raw_query in
        let (w, r) = net.call_local s.world url out.bytes in
        if_intro (λ (x : State W × Option Response). Adds (by_response x.1) s x.0)
          (not s.vllm_ready) (s, none) (local_result net w r s)
          record { counted = refl; slot = refl } (local_result-Adds w r s)

    peer_result-Adds :
        (w : W) (r : Option Response) (s : State W)
        → Adds (by_attempt (peer_result net w r s).1) s (peer_result net w r s).0
    unfolding peer_result
    peer_result-Adds w none s = record { counted = refl; slot = refl }
    peer_result-Adds w (some r) s = elim (Bool-cases (leb 500 r.status)) [
      | inl e ↦ rw e record { counted = refl; slot = refl }
      | inr e ↦ rw e record { counted = refl; slot = refl }
    ]

    module _ {F : Type 0} (peers : Map (GpuInfo F)) where
      last_result-Adds :
          (x : State W × Option Response) (s : State W)
          → Adds (by_response x.1) s x.0
          → Adds (by_answer (last_result net peers x).1) s (last_result net peers x).0
      unfolding last_result refuse
      last_result-Adds (t, some r) s h = h
      last_result-Adds (t, none) s h = record {
        counted = ap (record_failure false) h.counted;
        slot = h.slot;
      }

      stream_to_peer_direct-Adds :
          (id : String) (s : State W)
          → Adds
              (by_attempt (stream_to_peer_direct net peers out id s).1)
              s
              (stream_to_peer_direct net peers out id s).0
      unfolding stream_to_peer_direct
      stream_to_peer_direct-Adds id s =
          let (w, r) =
            net.call_peer s.world id (uint16 (peer_vllm_port peers id)) out.path out.bytes in
          peer_result-Adds w r s

      call_target-Adds :
          (o : Option String) (s : State W)
          → Adds (by_attempt (call_target net peers out o s).1) s (call_target net peers out o s).0
      unfolding call_target
      call_target-Adds none s = record { counted = refl; slot = refl }
      call_target-Adds (some id) s =
          if_intro (λ (x : State W × Attempt). Adds (by_attempt x.1) s x.0) (too_short id)
            (s, panicked) (stream_to_peer_direct net peers out id s)
            record { counted = refl; slot = refl } (stream_to_peer_direct-Adds id s)

      module _ (quiet : (s : State W) → Adds (λ st. st) s (net.others s)) where
        attempt-Adds :
            (ids : List String) (s : State W)
            → Adds (by_attempt (attempt net peers out ids s).1) s (attempt net peers out ids s).0
        unfolding attempt
        attempt-Adds ids s =
            let t = net.others s in
            let i = (t.decode_index + 1) % length ids in
            let called =
              call_target net peers out (get_elem? ids i) (record t { decode_index = i }) in
            if_intro (λ (x : State W × Attempt). Adds (by_attempt x.1) s x.0) (is_empty ids)
              (s, unserved) called record { counted = refl; slot = refl }
              (Adds-then (by_attempt called.1) {t = record t { decode_index = i }}
                record { counted = (quiet s).counted; slot = (quiet s).slot }
                (call_target-Adds (get_elem? ids i) (record t { decode_index = i })))

        or_else-Adds :
            (next : State W → State W × Attempt) (x : State W × Attempt) (s : State W)
            → Adds (by_attempt x.1) s x.0
            → ((t : State W) → Adds (by_attempt (next t).1) t (next t).0)
            → Adds (by_attempt (or_else net next x).1) s (or_else net next x).0
        unfolding or_else
        or_else-Adds next (t, answered r) s h k = h
        or_else-Adds next (t, panicked) s h k = h
        or_else-Adds next (t, unserved) s h k = Adds-then (by_attempt (next t).1) h (k t)

        try_peers-Adds :
            (n : ℕ) (ids : List String) (s : State W)
            → Adds
                (by_attempt (try_peers net peers n out ids s).1)
                s
                (try_peers net peers n out ids s).0
        unfolding try_peers
        try_peers-Adds zero ids s = record { counted = refl; slot = refl }
        try_peers-Adds (suc n) ids s =
            or_else-Adds (try_peers net peers n out ids) (attempt net peers out ids s) s
              (attempt-Adds ids s) (try_peers-Adds n ids)

        after_peers-Adds :
            (x : State W × Attempt) (s : State W)
            → Adds (by_attempt x.1) s x.0
            → Adds (by_answer (after_peers net peers out x).1) s (after_peers net peers out x).0
        unfolding after_peers
        after_peers-Adds (t, answered r) s h = h
        after_peers-Adds (t, panicked) s h = h
        after_peers-Adds (t, unserved) s h =
            last_result-Adds (proxy_to_local net out t) s
              (Adds-then (by_response (proxy_to_local net out t).1) h (proxy_to_local-Adds t))

        after_local-Adds :
            (ids : List String) (x : State W × Option Response) (s : State W)
            → Adds (by_response x.1) s x.0
            → Adds
                (by_answer (after_local net peers out ids x).1)
                s
                (after_local net peers out ids x).0
        unfolding after_local
        after_local-Adds ids (t, some r) s h = h
        after_local-Adds ids (t, none) s h =
            after_peers-Adds (try_peers net peers (peer_attempts net peers ids) out ids t) s
              (Adds-then _ h (try_peers-Adds _ ids t))

        try_local_first-Adds :
            (ids : List String) (s : State W)
            → Adds
                (by_response (try_local_first net peers out ids s).1)
                s
                (try_local_first net peers out ids s).0
        unfolding try_local_first
        try_local_first-Adds ids s =
            if_intro_when (λ (x : State W × Option Response). Adds (by_response x.1) s x.0)
              (s.vllm_ready && not s.local_busy) _ _
              (λ free. record {
                counted = (proxy_to_local-Adds (record s { local_busy = true })).counted;
                slot = ground arith;
              })
              (if_intro (λ (x : State W × Option Response). Adds (by_response x.1) s x.0)
                (s.vllm_ready && is_empty ids) (proxy_to_local net out s) (s, none)
                (proxy_to_local-Adds s) (record { counted = refl; slot = refl }))

        -- If the other requests leave the counters and the local slot alone, a request without
        -- dedicated nodes adds exactly one success if it is answered and one failure if it is
        -- refused, nothing if it panics, and leaves the local slot as it was.
        pub together-Adds :
            (self : String) (s : State W)
            → Adds
                (by_answer (handle_together net peers self out s).1)
                s
                (handle_together net peers self out s).0
        unfolding handle_together
        together-Adds self s =
            let ids = peer_ids self (values peers) in
            after_local-Adds ids (try_local_first net peers out ids s) s
              (try_local_first-Adds ids s)
