-- ===== src/HubWeb.antt =====
-- RegisterHubRoutes (server_web.go): the mux of the hub API. JSON and the bodies of errors are the
-- encoders of the record `Encoders`; headers are left out. What ServeMux answers for a path without
-- a route is `unrouted`.
pub mod ReadOnly
use yuanyi.Base.{
  ℕ, String, ℤ, pos, Bool, true, false, not, List, [], ◌∷◌, ◌++◌, Option, none, some, if◌then◌else◌,
  map,
}
use yuanyi.Float.{Float64}
use yuanyi.Peer.{GpuInfo, PeerData, PeerEvent}
use yuanyi.Strings.{Text, codes, text_eq}
use yuanyi.Sort.{slice_stable}
use yuanyi.Cache.{PeerCache, snapshot, reset_stats}
use yuanyi.Db.{Db}
use yuanyi.Db.Batch.{Statement}
use yuanyi.Db.Events.{get_recent_events}
use yuanyi.Flush.{Outcome, flushed, failed, panicked, flush}
use yuanyi.Hub.{ProxyServer, Cluster, reload_backends}
use yuanyi.Hub.Topology.{TopologyInfo, get_topology_info}
use yuanyi.Node.{WriterCall, write, write_header}
use yuanyi.Rank.Score.{Ranker, RankedPeer, ranked_peer, board_less, leaderboard}
use yuanyi.Web.{InfoMap, ClusterStats, compute_cluster_stats}

pub data HubRoute : Type 0 where
  peers_route events_route topology_route leaderboard_route stats_route snapshot_route : HubRoute
  force_rank reset_route clear_offline : HubRoute

abbrev pub hub_routes : List (Text × HubRoute)
hub_routes =
    (codes "/hub/api/peers", peers_route)
    ∷ (codes "/hub/api/events", events_route)
    ∷ (codes "/hub/api/cluster_topology", topology_route)
    ∷ (codes "/hub/api/leaderboard", leaderboard_route)
    ∷ (codes "/hub/api/stats", stats_route)
    ∷ (codes "/hub/api/snapshot", snapshot_route)
    ∷ (codes "/hub/api/debug/force_rank", force_rank)
    ∷ (codes "/hub/api/debug/reset_stats", reset_route)
    ∷ (codes "/hub/api/debug/clear_offline", clear_offline)
    ∷ []

unfoldable pub route_of : Text → List (Text × HubRoute) → Option HubRoute
unfolding text_eq
route_of path [] = none
route_of path ((p, r) ∷ routes) =
    let rest = route_of path routes in if text_eq path p then some r else rest

-- The parts of the hub that a route reaches.
pub record HubState (F P : Type 0) : Type 0 where
  pub cache : PeerCache F
  pub db : Db F
  pub proxy : ProxyServer P

pub record Encoders (F : Type 0) : Type 0 where
  pub peers_json : List (PeerData F) → Text
  pub events_json : List PeerEvent → Text
  pub topology_json : TopologyInfo → Text
  pub board_json : List (RankedPeer F) → Text
  pub stats_json : ℕ × ClusterStats F → Text
  pub snapshot_json : List (PeerData F) → Text
  pub reset_text : ℕ → Text
  pub error_text : Text

-- What the handlers are given besides the state: `runs` and `reads` say which statements and reads
-- the engine executes, `rank` is the RankManager, if there is one, `calls`
-- the call of CalculateScore that a peer gets: one for each peer, also where /hub/api/peers calls it
-- anew in every comparison.
pub record HubEnv (F P : Type 0) : Type 0 where
  pub json : Encoders F
  pub sort : (PeerData F → PeerData F → Bool) → List (PeerData F) → List (PeerData F)
  pub str_lt : String → String → Bool
  pub rank : Option (Ranker F)
  pub calls : PeerData F → ℕ
  pub runs : Statement F → Bool
  pub reads : Bool
  pub cluster : Cluster
  pub decode_id : String → Option P
  pub show_id : P → String
  pub unmarshal : String → Option (GpuInfo F)
  pub unmarshal_map : String → Option (InfoMap F)
  pub trunc : F → ℤ
  pub atoi : Text → Option ℤ
  pub unrouted : Text → List WriterCall

abbrev pub only_post : List WriterCall
only_post = write_header 405 ∷ write (codes "Method not allowed" ++ 10 ∷ []) ∷ []

module _ {F P : Type 0} ⦃fl : Float64 F⦄ (env : HubEnv F P) where
  unfoldable pub peers_in_order : PeerCache F → List (PeerData F)
  unfolding snapshot slice_stable board_less
  peers_in_order pc =
      let peers = snapshot env.sort env.str_lt pc in
      elim env.rank [
        | none ↦ peers
        | some rm ↦
            slice_stable
              (λ a b.
                board_less env.str_lt (ranked_peer rm env.calls a) (ranked_peer rm env.calls b))
              peers
      ]

  -- The cache is written at once; a failure is logged.
  unfoldable pub flush_reset : PeerCache F → HubState F P → HubState F P
  unfolding flush
  flush_reset pc s = elim (flush env.runs pc s.db) [
    | flushed pc' db ↦ record s { cache = pc'; db = db }
    | failed ↦ record s { cache = pc }
    | panicked ↦ record s { cache = pc }
  ]

  unfoldable pub handle_reset : HubState F P → HubState F P × List WriterCall
  unfolding reset_stats flush_reset
  handle_reset s =
      let (pc, n) = reset_stats s.cache in
      (flush_reset pc s, write_header 200 ∷ write (env.json.reset_text n) ∷ [])

  unfoldable pub handle_force_rank : HubState F P → HubState F P × List WriterCall
  unfolding reload_backends snapshot
  handle_force_rank s = (
    record s {
      proxy =
          reload_backends env.decode_id env.unmarshal env.cluster
            (snapshot env.sort env.str_lt s.cache) s.proxy;
    },
    write_header 200
        ∷ write (
            codes
              "{\"status\":\"ok\",\"message\":\"Forced rank update and proxy backend reload.\"}")
        ∷ [],
  )

  abbrev pub events_answer : Option (List PeerEvent) → List WriterCall
  events_answer none = write_header 500 ∷ write env.json.error_text ∷ []
  events_answer (some events) = write (env.json.events_json events) ∷ []

  -- The handlers; `post` says whether the method is POST.
  unfoldable pub handle_route : Bool → HubRoute → HubState F P → HubState F P × List WriterCall
  unfolding peers_in_order handle_reset handle_force_rank get_recent_events get_topology_info
      leaderboard snapshot compute_cluster_stats
  handle_route post peers_route s = (s, write (env.json.peers_json (peers_in_order s.cache)) ∷ [])
  handle_route post events_route s = (s, events_answer (get_recent_events env.reads (pos 100) s.db))
  handle_route post topology_route s =
      (s, write (env.json.topology_json (get_topology_info env.show_id env.cluster s.proxy)) ∷ [])
  handle_route post leaderboard_route s = (
    s,
    write (
          env.json.board_json
            (leaderboard env.str_lt env.rank env.calls (snapshot env.sort env.str_lt s.cache)))
        ∷ [],
  )
  handle_route post stats_route s = (
    s,
    write (
          env.json.stats_json (
            compute_cluster_stats env.unmarshal_map env.trunc env.atoi
              (snapshot env.sort env.str_lt s.cache)))
        ∷ [],
  )
  handle_route post snapshot_route s =
      (s, write (env.json.snapshot_json (snapshot env.sort env.str_lt s.cache)) ∷ [])
  handle_route post force_rank s = if post then handle_force_rank s else (s, only_post)
  handle_route post reset_route s = if post then handle_reset s else (s, only_post)
  handle_route post clear_offline s =
      if post
      then (
        s,
        write_header 200
            ∷ write (codes "{\"status\":\"ok\",\"message\":\"Offline peers cleared.\"}")
            ∷ [],
      )
      else (s, only_post)

  -- The mux for a method: OPTIONS is answered before the handlers.
  unfoldable pub answer_route :
      Text → Text → Option HubRoute → HubState F P → HubState F P × List WriterCall
  unfolding handle_route text_eq
  answer_route method path none s = (s, env.unrouted path)
  answer_route method path (some r) s =
      if text_eq method (codes "OPTIONS")
      then (s, write_header 204 ∷ [])
      else handle_route (text_eq method (codes "POST")) r s

  unfoldable pub hub_mux : Text → HubState F P → Text → HubState F P × List WriterCall
  unfolding route_of answer_route
  hub_mux method s path = answer_route method path (route_of path hub_routes) s
