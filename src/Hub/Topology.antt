-- ===== src/Hub/Topology.antt =====
-- The topology that the hub tells (GetTopologyInfo, server_proxy.go) and a gateway takes over
-- (syncTopologyLoop, proxy.go). The gateway reads no numbers of nodes.
use yuanyi.Base.{String, Option, none, some, map}
use yuanyi.Gateway.{State, BackendInfo, Topology}
use yuanyi.Hub.{Backend, ProxyServer, Cluster, is_pd_together}

-- ClusterTopologyResponse: the two numbers and what the gateway reads.
pub record TopologyInfo : Type 0 where
  pub cluster : Cluster
  pub topology : Topology

-- `show_id` is PeerID.String.
module _ {P : Type 0} (show_id : P → String) where
  unfoldable pub backend_info : Backend P → BackendInfo
  backend_info b = record {
    peer_id = show_id b.peer_id;
    ip_address = b.ip_address;
    bootstrap_addr = b.bootstrap_addr;
    engine_id = b.engine_id;
  }

  unfoldable pub get_topology_info : Cluster → ProxyServer P → TopologyInfo
  unfolding backend_info is_pd_together
  get_topology_info c srv = record {
    cluster = c;
    topology = record {
      is_pd_together = is_pd_together c;
      prefill_backends = map backend_info srv.prefill_backends;
      decode_backends = map backend_info srv.decode_backends;
    };
  }

-- syncOnce: `answer` is what FetchHubAPI returns, none if there is no network or it fails.
unfoldable pub sync_once :
    {W : Type 0} → (String → Option Topology) → Option String → State W → State W
sync_once unmarshal none s = s
sync_once unmarshal (some body) s = elim (unmarshal body) [
  | none ↦ s
  | some top ↦ record s { topology = top }
]
