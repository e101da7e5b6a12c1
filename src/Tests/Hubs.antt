-- ===== src/Tests/Hubs.antt =====
-- A reload of the hub's backends at a snapshot of three peers.
use yuanyi.Base.{
  false, String, ℤ, pos, pos_part, ◌≤◌, Option, none, some, List, [], ◌∷◌, ◌≡◌, ◌⊎◌, refl, All,
  length, ltb_ℤ, if◌then◌else◌, ◌==◌,
}
use yuanyi.Peer.{GpuInfo, PeerData, role_relay, no_gpu}
use yuanyi.Cache.{blank_peer}
use yuanyi.Hub.{ProxyServer, Cluster, usable, reload_backends, is_pd_together}
use yuanyi.Hub.Reload.{ServesPeer, reload-usable, reload-capped}
use yuanyi.Tests.Sample.{node, integers}

abbrev unmarshal : String → Option (GpuInfo ℤ)
unmarshal s = if s == "" then none else some (node "peer" s (pos 0) (pos 0))

abbrev decode_id : String → Option String
decode_id id = if id == "bad" then none else some id

abbrev peer_data : String → String → String → PeerData ℤ
peer_data id role summary = record (blank_peer id) { role = role; gpu_info = summary }

abbrev peers : List (PeerData ℤ)
peers =
    peer_data "peer-one" "node" "RTX 4090"
    ∷ peer_data "peer-two" role_relay "RTX 4090"
    ∷ peer_data "peer-three" "" no_gpu
    ∷ peer_data "peer-four" "" ""
    ∷ []

abbrev server : ProxyServer String
server = record { prefill_backends = []; decode_backends = []; decode_index = 0 }

abbrev together : Cluster
together = record { prefill_nodes = pos 0; decode_nodes = pos 0 }

abbrev dedicated : Cluster
dedicated = record { prefill_nodes = pos 1; decode_nodes = pos 1 }

reload-usable_example :
    All
      (ServesPeer unmarshal decode_id peers)
      (reload_backends decode_id unmarshal dedicated peers server).prefill_backends
    × All
        (ServesPeer unmarshal decode_id peers)
        (reload_backends decode_id unmarshal dedicated peers server).decode_backends
unfolding usable blank_peer
reload-usable_example = reload-usable decode_id unmarshal dedicated peers server refl

reload-capped_example :
    let r : ProxyServer String = reload_backends decode_id unmarshal dedicated peers server in
    (length r.prefill_backends ≤ pos_part dedicated.prefill_nodes)
    × ((ltb_ℤ (pos 0) dedicated.decode_nodes ≡ false)
        ⊎ ((length r.decode_backends ≤ pos_part dedicated.decode_nodes)
            ⊎ (r.decode_backends ≡ r.prefill_backends)))
unfolding usable blank_peer is_pd_together
reload-capped_example = reload-capped decode_id unmarshal dedicated peers server refl refl
