-- ===== src/HubWeb/ReadOnly.antt =====
-- What peers can change through the hub API (server_web.go, p2p.go).
use yuanyi.Base.{
  Bool, true, false, List, [], ◌∷◌, Option, none, some, ◌≡◌, refl, ap, ◌∙◌, sym, if◌then◌else◌,
  Bool-cases, inl, inr, All,
}
use yuanyi.Float.{Float64}
use yuanyi.Strings.{Text, codes, text_eq, strip_prefix}
use yuanyi.Strings.Laws.{text_eq-eq}
use yuanyi.Node.{served_path, hub_api_stream}
use yuanyi.HubWeb.{
  HubRoute, peers_route, events_route, topology_route, leaderboard_route, stats_route,
  snapshot_route, force_rank, reset_route, clear_offline, hub_routes, route_of, HubState, HubEnv,
  handle_route, answer_route, hub_mux,
}

-- The routes whose handlers write nothing.
abbrev only_reads : HubRoute → Bool
only_reads peers_route = true
only_reads events_route = true
only_reads topology_route = true
only_reads leaderboard_route = true
only_reads stats_route = true
only_reads snapshot_route = true
only_reads force_rank = false
only_reads reset_route = false
only_reads clear_offline = false

-- A route below debug is not served to peers.
abbrev Guarded : Text × HubRoute → Type 0
Guarded (p, r) = served_path p ≡ only_reads r

hub_routes-Guarded : All Guarded hub_routes
unfolding served_path strip_prefix
hub_routes-Guarded = (refl, (refl, (refl, (refl, (refl, (refl, (refl, (refl, (refl, tt)))))))))

route_of_reads :
    (path : Text) (routes : List (Text × HubRoute)) {r : HubRoute}
    → All Guarded routes
    → served_path path ≡ true
    → route_of path routes ≡ some r
    → only_reads r ≡ true
unfolding route_of
route_of_reads path [] g h e = cc
route_of_reads path ((p, q) ∷ routes) {r} g h e = elim (Bool-cases (text_eq path p)) [
  | inl t ↦
      let found : some q ≡ some r =
        ap (λ b. if b then some q else route_of path routes) (sym t) ∙ e in
      cc (found, g.0, ap served_path (text_eq-eq path p t), h)
  | inr t ↦
      let later : route_of path routes ≡ some r =
        ap (λ b. if b then some q else route_of path routes) (sym t) ∙ e in
      route_of_reads path routes g.1 h later
]

module _ {F P : Type 0} ⦃fl : Float64 F⦄ (env : HubEnv F P) where
  handle_route_reads :
      (post : Bool) (r : HubRoute) (s : HubState F P)
      → only_reads r ≡ true
      → (handle_route env post r s).0 ≡ s
  unfolding handle_route
  handle_route_reads post peers_route s h = refl
  handle_route_reads post events_route s h = refl
  handle_route_reads post topology_route s h = refl
  handle_route_reads post leaderboard_route s h = refl
  handle_route_reads post stats_route s h = refl
  handle_route_reads post snapshot_route s h = refl
  handle_route_reads post force_rank s h = cc
  handle_route_reads post reset_route s h = cc
  handle_route_reads post clear_offline s h = cc

  answer_route_reads :
      (method path : Text) (o : Option HubRoute) (s : HubState F P)
      → ((r : HubRoute) → o ≡ some r → only_reads r ≡ true)
      → (answer_route env method path o s).0 ≡ s
  unfolding answer_route
  answer_route_reads method path none s h = refl
  answer_route_reads method path (some r) s h =
      elim (Bool-cases (text_eq method (codes "OPTIONS"))) [
        | inl t ↦ rw t refl
        | inr t ↦ rw t (handle_route_reads (text_eq method (codes "POST")) r s (h r refl))
      ]

  hub_mux_reads :
      (method path : Text) (s : HubState F P)
      → served_path path ≡ true
      → (hub_mux env method s path).0 ≡ s
  unfolding hub_mux
  hub_mux_reads method path s h =
      answer_route_reads method path (route_of path hub_routes) s
        (λ r. route_of_reads path hub_routes hub_routes-Guarded h)

  -- Whatever method and path a peer sends to the hub, and whatever the state of the hub, the request
  -- leaves the cache, the database and the backends of the hub as they are.
  pub hub_api_stream-hub_mux :
      (method : Text) (path : Option Text) (s : HubState F P)
      → (hub_api_stream (some (hub_mux env method)) path s).0 ≡ s
  unfolding hub_api_stream
  hub_api_stream-hub_mux method none s = refl
  hub_api_stream-hub_mux method (some path) s = elim (Bool-cases (served_path path)) [
    | inl e ↦ rw e (hub_mux_reads method path s e)
    | inr e ↦ rw e refl
  ]
