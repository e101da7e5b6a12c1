-- ===== src/Hub.antt =====
-- server_proxy.go: the hub's central dispatcher. `P` is libp2p's peer.ID, `decode_id` is peer.Decode
-- and `unmarshal` is json.Unmarshal into a GPUInfo.
pub mod Reload
pub mod Topology
pub mod Dispatch
use yuanyi.Base.{
  String, ℕ, zero, suc, ◌+◌, ℤ, pos, Bool, true, false, ◌&&◌, not, Option, none, some, List, [],
  ◌∷◌, ◌++◌, length, select, is_empty, if◌then◌else◌, ltb_ℤ, leb_ℤ, eq_ℤ, ◌==◌,
}
use yuanyi.Peer.{GpuInfo, PeerData, role_relay, no_gpu}

-- Host, the same for every backend, is left out.
pub record Backend (P : Type 0) : Type 0 where
  pub peer_id : P
  pub ip_address : String
  pub bootstrap_addr : String
  pub engine_id : String

-- `app` and `host` are parameters; the semaphore only delays requests. decodeIndex starts at 0 and
-- is only ever set to a remainder, so it is a natural number.
pub record ProxyServer (P : Type 0) : Type 0 where
  pub prefill_backends : List (Backend P)
  pub decode_backends : List (Backend P)
  pub decode_index : ℕ

-- server_mode.cluster
pub record Cluster : Type 0 where
  pub prefill_nodes : ℤ
  pub decode_nodes : ℤ

unfoldable pub is_pd_together : Cluster → Bool
is_pd_together c = eq_ℤ c.prefill_nodes (pos 0) && eq_ℤ c.decode_nodes (pos 0)

module _ {F : Type 0} (unmarshal : String → Option (GpuInfo F)) where
  -- Neither a relay by its role nor, for builds that send no role, by its summary.
  unfoldable pub usable : PeerData F → Bool
  usable p =
      if p.role == role_relay
      then false
      else elim (unmarshal p.gpu_info) [ none ↦ true | some info ↦ not (info.summary == no_gpu) ]

-- The two lists under construction.
pub record Split (P : Type 0) : Type 0 where
  pub prefill : List (Backend P)
  pub decode : List (Backend P)

module _ {P : Type 0} where
  -- The `switch` of the loop: `i` is the position among the usable peers.
  unfoldable pub place : Cluster → ℕ → Backend P → Split P → Split P
  unfolding is_pd_together
  place c i b s =
      if is_pd_together c
      then record s { prefill = s.prefill ++ b ∷ [] }
      else if ltb_ℤ (pos i) c.prefill_nodes
      then record s { prefill = s.prefill ++ b ∷ [] }
      else if ltb_ℤ (pos 0) c.decode_nodes && leb_ℤ c.decode_nodes (pos (length s.decode))
      then s
      else record s { decode = s.decode ++ b ∷ [] }

module _ {F P : Type 0} where
  unfoldable pub backend_of : P → PeerData F → Backend P
  backend_of pid p = record {
    peer_id = pid;
    ip_address = p.ip_address;
    bootstrap_addr = p.bootstrap_addr;
    engine_id = p.engine_id;
  }

  unfoldable pub place_decoded : Cluster → ℕ → PeerData F → Option P → Split P → Split P
  unfolding place backend_of
  place_decoded c i p none s = s
  place_decoded c i p (some pid) s = place c i (backend_of pid p) s

  module _ (decode_id : String → Option P) where
    unfoldable pub place_all : Cluster → ℕ → List (PeerData F) → Split P → Split P
    unfolding place_decoded
    place_all c i [] s = s
    place_all c i (p ∷ ps) s = place_all c (suc i) ps (place_decoded c i p (decode_id p.peer_id) s)

    -- `peers` is the snapshot of the cache.
    unfoldable pub reload_backends :
        (String → Option (GpuInfo F)) → Cluster → List (PeerData F) → ProxyServer P → ProxyServer P
    unfolding usable place_all
    reload_backends unmarshal c peers srv =
        let candidates = select (usable unmarshal) peers in
        if is_empty candidates
        then srv
        else let s = place_all c 0 candidates (record { prefill = []; decode = [] }) in
          record srv {
            prefill_backends = s.prefill;
            decode_backends =
                if is_empty s.decode && not (is_empty s.prefill) then s.prefill else s.decode;
          }
