-- ===== src/Tests/Starts.antt =====
-- The start of a node (config.go, p2p.go, peer_cache.go), the status routes (web.go) and the keys of
-- the terminal (tui.go) at concrete inputs.
use yuanyi.Base.{
  ℕ, String, ℤ, Bool, true, false, List, [], ◌∷◌, Option, none, some, ◌≡◌, refl, find, ◌==◌,
  if◌then◌else◌,
}
use yuanyi.Peer.{PeerData}
use yuanyi.Strings.{codes, text_eq, strip_prefix}
use yuanyi.Cache.{blank_peer}
use yuanyi.Cache.Growth.{Grown}
use yuanyi.Startup.{
  Interface, first_active, detect_active_network_interface, resolve_seed_addrs, SeedAnswer,
  unreachable, peers_of, sync_peer_cache_from_seed,
}
use yuanyi.Startup.Seeds.{sync_peer_cache_from_seed-Grown}
use yuanyi.Status.{split_at, host_after_key, server_host, relayed, hub_api_route}
use yuanyi.Tests.Sample.{integers, empty_db, always}
use yuanyi.Tests.Caches.{one_peer}

-- The first seed is down, the second knows the peer without its counters.
abbrev answers : String → SeedAnswer ℤ
answers url = if url == "one" then unreachable else peers_of (blank_peer "peer-one" ∷ [])

abbrev given_order : (PeerData ℤ → PeerData ℤ → Bool) → List (PeerData ℤ) → List (PeerData ℤ)
given_order less l = l

sync_peer_cache_from_seed-Grown_example : Grown (find "peer-one" one_peer.peers) (
    find "peer-one"
      (sync_peer_cache_from_seed given_order
        (λ a b. false)
        always
        true
        answers
        ("one" ∷ "two" ∷ [])
        (one_peer, empty_db)).0.peers)
sync_peer_cache_from_seed-Grown_example =
    sync_peer_cache_from_seed-Grown given_order (λ a b. false) always answers true
      ("one" ∷ "two" ∷ []) (one_peer, empty_db) "peer-one"

abbrev interface : String → Bool → Option ℕ → Interface
interface name up addrs = record { name = codes name; loopback = false; up = up; addrs = addrs }

-- The bridge comes first, but the Ethernet card has a usual name.
by_name :
    detect_active_network_interface (
      some (
        interface "docker0" true (some 1)
        ∷ interface "eth1" false (some 1)
        ∷ interface "enp3s0" true (some 2)
        ∷ []))
    ≡ codes "enp3s0"
unfolding detect_active_network_interface first_active strip_prefix
by_name = refl

any_name :
    detect_active_network_interface (some (interface "docker0" true (some 1) ∷ []))
    ≡ codes "docker0"
unfolding detect_active_network_interface first_active strip_prefix
any_name = refl

no_interface :
    detect_active_network_interface
      (some (interface "eth0" true none ∷ interface "docker0" true none ∷ []))
    ≡ codes "eth0"
unfolding detect_active_network_interface first_active strip_prefix
no_interface = refl

once_each : resolve_seed_addrs (λ s. some s) ("a" ∷ "" ∷ "b" ∷ "a" ∷ []) "b" ≡ some ("a" ∷ "b" ∷ [])
unfolding resolve_seed_addrs
once_each = refl

dns_host : server_host (codes "/dns4/hub.example/tcp/4001") ≡ codes "hub.example"
unfolding server_host split_at host_after_key text_eq
dns_host = refl

no_host : server_host (codes "/ip6/::1/tcp/4001/ip4") ≡ codes "127.0.0.1"
unfolding server_host split_at host_after_key text_eq
no_host = refl

with_the_query :
    hub_api_route {A = ℕ} none (some (λ path. some path)) (codes "/hub/api/peers") (codes "all=1")
    ≡ relayed (codes "/hub/api/peers?all=1")
unfolding hub_api_route
with_the_query = refl
