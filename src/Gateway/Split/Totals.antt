-- ===== src/Gateway/Split/Totals.antt =====
-- A request (proxy.go) and the node's own counters, in either mode.
use yuanyi.Base.{String, false, Map, ◌≡◌, ◌⊎◌}
use yuanyi.Peer.{GpuInfo}
use yuanyi.Gateway.{State, Net, served, record_failure, record_metrics}
use yuanyi.Gateway.Request.{Answer, passed, json_error, json_body, preflight, crashed}
use yuanyi.Gateway.Accounting.{Adds}
use yuanyi.Gateway.Split.Sources.{Own, Far}
use yuanyi.Gateway.Split.Kept.{Kept}
use yuanyi.Gateway.Split.{Json, Request}

module _ {W : Type 0} where
  module _ {V : Type 0} (json : Json V) (own far : String → Type 0) where
    -- What the answer says of the counters: an answer from the own engine or, in the mode without
    -- dedicated nodes, from a peer is a success; a refusal is a failure, but for a wrong method; a
    -- body that a peer has decoded is left to that peer to count. `own` and `far` tell where a body
    -- comes from.
    abbrev pub Accounted : Answer → State W → State W → Type 0
    Accounted (passed r) s t = Adds served s t
    Accounted (json_error code message) s t =
        (Kept s t × (code ≡ 405)) ⊎ Adds (record_failure false) s t
    Accounted (json_body resp) s t =
        (Kept s t × far resp) ⊎ (Adds (record_metrics json.usage resp false) s t × own resp)
    Accounted preflight s t = Kept s t
    Accounted crashed s t = Kept s t

  module _ (net : Net W) {F : Type 0} (peers : Map (GpuInfo F)) {V : Type 0} (json : Json V)
      (self : String) where
    -- An answer to a request for a path.
    abbrev pub Told : String → Answer → State W → State W → Type 0
    Told path = Accounted json (Own net path) (Far net peers self path)
