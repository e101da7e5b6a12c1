-- ===== src/Gossip.antt =====
-- gossipSubscriber, startLocalProxyForPeer and the addresses of gossipPublisher (p2p.go): what a
-- broadcast does to the node that receives it. The subscriber has no recover, so a panic ends the
-- program: none. `listen` says whether net.Listen gets the virtual address of a peer, `parse_addr`
-- is multiaddr.NewMultiaddr with peer.AddrInfoFromP2pAddr, `short` cuts an ID of eight bytes or
-- more to eight.
pub mod Crash
pub mod Learned
pub mod Advertised
pub mod Publish
pub mod Own
pub mod Reach
use yuanyi.Base.{
  ℕ, String, ℤ, Bool, true, false, ◌||◌, not, List, [], ◌∷◌, ◌++◌, Option, none, some, ◌>>=◌,
  if◌then◌else◌, is_empty, contains, select, get_elem?, ◌==◌,
}
use yuanyi.Float.{Float64}
use yuanyi.Peer.{GpuEntry, GpuInfo}
use yuanyi.Cache.{PeerCache}
use yuanyi.Health.{process_gossip}
use yuanyi.Gateway.{too_short}
use yuanyi.Strings.{Text, codes}
use yuanyi.Console.{Tui, record_peer_info, add_log}

-- What a broadcast reaches: the terminal's tables, the hub's cache, the local proxies that are open,
-- and the addresses known of each peer.
pub record NodeView (F : Type 0) : Type 0 where
  pub tui : Tui F
  pub cache : PeerCache F
  pub active_proxies : List String
  pub peerstore : List (String × String)

-- A message of the topic; `info` is none if it is no JSON of the form. The time is given as a
-- number, as the cache writes it, and as the log shows it.
pub record Broadcast (F : Type 0) : Type 0 where
  pub received_from : String
  pub info : Option (GpuInfo F)
  pub now : ℕ
  pub stamp : String
  pub clock : Text

pub record NodeEnv (F : Type 0) : Type 0 where
  pub own_id : String
  pub hub_mode : Bool
  pub short : String → Text
  pub vip : String → Text
  pub listen : String → Bool
  pub parse_addr : String → Option (String × List String)
  pub seeds : List String
  pub circuit : String → Option String
  pub marshal : GpuInfo F → Option String
  pub parse_gpus : String → List GpuEntry

abbrev pub pairs : String → List String → List (String × String)
pairs id [] = []
pairs id (a ∷ rest) = (id, a) ∷ pairs id rest

module _ {F : Type 0} where
  abbrev pub log_to : Text → Text → Text → NodeView F → NodeView F
  log_to clock level message v = record v { tui = add_log clock level message v.tui }

  abbrev pub opened : NodeEnv F → Text → String → NodeView F → NodeView F
  opened env clock id v =
      log_to clock (codes "[INFO]")
        (codes "Created local VIP proxy for peer "
          ++ (env.short id ++ (codes " -> " ++ env.vip id)))
        (record v { active_proxies = id ∷ v.active_proxies })

  abbrev pub warned : NodeEnv F → Text → String → NodeView F → NodeView F
  warned env clock id v =
      log_to clock (codes "[WARN]") (codes "VIP proxy bind failed for peer " ++ env.short id) v

  -- A new listener is logged with the first bytes of the ID.
  unfoldable pub start_local_proxy_for_peer :
      NodeEnv F → Text → String → NodeView F → Option (NodeView F × Bool)
  unfolding too_short add_log
  start_local_proxy_for_peer env clock id v =
      if contains id v.active_proxies
      then some (v, true)
      else if not (env.listen id)
      then some (v, false)
      else if too_short id
      then none
      else some (opened env clock id v, true)

  unfoldable pub warn_proxy : NodeEnv F → Text → String → NodeView F × Bool → Option (NodeView F)
  unfolding too_short add_log
  warn_proxy env clock id (v, true) = some v
  warn_proxy env clock id (v, false) = if too_short id then none else some (warned env clock id v)

  -- The relay addresses through the seeds.
  unfoldable pub circuits : NodeEnv F → String → List String → List (String × String)
  circuits env id [] = []
  circuits env id (seed ∷ rest) =
      let others = circuits env id rest in
      if (seed == id) || (seed == env.own_id)
      then others
      else elim (env.circuit seed) [ none ↦ others | some a ↦ (id, a) ∷ others ]

  unfoldable pub addresses_of : NodeEnv F → String → List (String × String)
  unfolding circuits
  addresses_of env addr = if addr == "" then [] else elim (env.parse_addr addr) [
    | none ↦ []
    | some (id, addrs) ↦
        if id == env.own_id then [] else pairs id addrs ++ circuits env id env.seeds
  ]

  unfoldable pub learn_address : NodeEnv F → String → NodeView F → NodeView F
  unfolding addresses_of
  learn_address env addr v = record v { peerstore = v.peerstore ++ addresses_of env addr }

module _ {F : Type 0} ⦃fl : Float64 F⦄ where
  unfoldable pub to_hub : NodeEnv F → String → GpuInfo F → NodeView F → NodeView F
  unfolding process_gossip
  to_hub env stamp info v =
      if env.hub_mode
      then record v { cache = process_gossip env.marshal env.parse_gpus stamp info v.cache }
      else v

  abbrev pub broadcast_text : NodeEnv F → GpuInfo F → Text
  broadcast_text env info =
      codes "Received broadcast from "
      ++ (env.short info.node_id ++ (codes " (peer's GPU: " ++ (codes info.summary ++ codes ")")))

  -- The last line of the loop cuts the ID.
  unfoldable pub log_broadcast : NodeEnv F → Text → GpuInfo F → NodeView F → Option (NodeView F)
  unfolding too_short add_log
  log_broadcast env clock info v =
      if too_short info.node_id
      then none
      else some (log_to clock (codes "[GOSSIP]") (broadcast_text env info) v)

  unfoldable pub receive : NodeEnv F → Broadcast F → GpuInfo F → NodeView F → Option (NodeView F)
  unfolding record_peer_info start_local_proxy_for_peer warn_proxy learn_address to_hub
      log_broadcast
  receive env m info v =
      start_local_proxy_for_peer env m.clock info.node_id
        (record v { tui = record_peer_info m.now info v.tui })
      >>= λ started. warn_proxy env m.clock info.node_id started >>= λ known.
          log_broadcast env m.clock info
            (to_hub env m.stamp info (learn_address env info.addr known))

  unfoldable pub accepted : NodeEnv F → Broadcast F → Option (GpuInfo F)
  accepted env m = if m.received_from == env.own_id then none else m.info

  unfoldable pub receive_as :
      NodeEnv F → Broadcast F → Option (GpuInfo F) → NodeView F → Option (NodeView F)
  unfolding receive
  receive_as env m none v = some v
  receive_as env m (some info) v = receive env m info v

  unfoldable pub receive_one : NodeEnv F → Broadcast F → NodeView F → Option (NodeView F)
  unfolding accepted receive_as
  receive_one env m v = receive_as env m (accepted env m) v

  unfoldable pub gossip_subscriber :
      NodeEnv F → List (Broadcast F) → NodeView F → Option (NodeView F)
  unfolding receive_one
  gossip_subscriber env [] v = some v
  gossip_subscriber env (m ∷ ms) v = receive_one env m v >>= gossip_subscriber env ms

-- What net.IP tells of an address; `other` is no IP address.
pub data AddrKind : Type 0 where
  useless private public other : AddrKind

abbrev pub is_public : AddrKind → Bool
is_public useless = false
is_public private = false
is_public public = true
is_public other = false

-- Kept behind the public addresses.
abbrev pub is_deferred : AddrKind → Bool
is_deferred useless = false
is_deferred private = true
is_deferred public = false
is_deferred other = true

module _ {A : Type 0} (kind : A → AddrKind) where
  unfoldable pub filter_advertised_addrs : List A → List A
  filter_advertised_addrs addrs =
      let filtered =
        select (λ a. is_public (kind a)) addrs ++ select (λ a. is_deferred (kind a)) addrs in
      if is_empty filtered then addrs else filtered

  unfoldable pub select_best_addr : List A → Option A
  unfolding filter_advertised_addrs
  select_best_addr addrs = get_elem? (filter_advertised_addrs addrs) 0
