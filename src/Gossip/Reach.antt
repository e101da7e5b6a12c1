-- ===== src/Gossip/Reach.antt =====
-- How a node stays connected: keepAlive and hasNoPublicInterfaceAddr (p2p.go), and the events
-- Connected and Disconnected of a hub (server_p2p.go). `short` cuts an ID of eight bytes or more to
-- eight; a panic is none.
use yuanyi.Base.{
  ℕ, String, Bool, false, ◌||◌, not, List, [], ◌∷◌, ◌++◌, Option, none, some, Map, if◌then◌else◌,
  ◌==◌, ◌>>=◌,
}
use yuanyi.Float.{Float64}
use yuanyi.Peer.{GpuInfo}
use yuanyi.Strings.{Text, codes}
use yuanyi.Cache.{PeerCache, upsert_connection, remove_peer}
use yuanyi.Console.{Tui, add_log, get_peers}
use yuanyi.Gateway.{too_short}
use yuanyi.Gossip.{AddrKind, is_public}
use yuanyi.Hub.{ProxyServer}

-- Whether one of the addresses is public.
unfoldable pub any_public : List AddrKind → Bool
any_public [] = false
any_public (k ∷ kinds) = let rest = any_public kinds in is_public k || rest

-- Addresses that are loopbacks, link-local or no IP addresses say nothing. The argument is none if
-- the addresses of the interfaces cannot be read.
unfoldable pub has_no_public_interface_addr : Option (List AddrKind) → Bool
unfolding any_public
has_no_public_interface_addr none = false
has_no_public_interface_addr (some kinds) = not (any_public kinds)

-- The host: who is connected, a dial after the backoff is cleared, with the error if it fails, and
-- peer.Decode.
pub record PeerLinks (W : Type 0) : Type 0 where
  pub connected : W → String → Bool
  pub connect : W → String → W × Option Text
  pub decode : String → Option String
  pub own_id : String
  pub text_of : String → Text
  pub short : String → Text

module _ {F W : Type 0} (net : PeerLinks W) (clock : Text) where
  abbrev pub log_dial : String → Option Text → Tui F → Tui F
  log_dial id none t =
      add_log clock (codes "[INFO]") (codes "Reconnected to Bootstrap node " ++ net.text_of id) t
  log_dial id (some err) t =
      add_log clock (codes "[WARN]")
        (codes "Reconnecting to Bootstrap node " ++ (net.text_of id ++ (codes " failed: " ++ err)))
        t

  unfoldable pub keep_seeds : List String → W × Tui F → W × Tui F
  unfolding add_log
  keep_seeds [] s = s
  keep_seeds (id ∷ seeds) (w, t) =
      let (w', err) = net.connect w id in
      keep_seeds seeds (if net.connected w id then (w, t) else (w', log_dial id err t))

  -- A peer that could be reached again is logged with the first bytes of its ID.
  unfoldable pub log_reconnected : String → GpuInfo F → Option Text → W × Tui F → Option (W × Tui F)
  unfolding too_short add_log
  log_reconnected id info (some err) s = some s
  log_reconnected id info none (w, t) =
      if too_short id
      then none
      else some (
        w,
        add_log clock (codes "[INFO]")
            (codes "Reconnected to peer "
              ++ (net.short id ++ (codes " (" ++ (codes info.summary ++ codes ")"))))
            t,
      )

  unfoldable pub keep_peer : String → GpuInfo F → W × Tui F → Option (W × Tui F)
  unfolding log_reconnected
  keep_peer id info (w, t) = elim (net.decode id) [
    | none ↦ some (w, t)
    | some pid ↦
        if pid == net.own_id || net.connected w pid
        then some (w, t)
        else let (w', err) = net.connect w pid in log_reconnected id info err (w', t)
  ]

  unfoldable pub keep_peers : Map (GpuInfo F) → W × Tui F → Option (W × Tui F)
  unfolding keep_peer
  keep_peers [] s = some s
  keep_peers ((id, info) ∷ peers) s = keep_peer id info s >>= keep_peers peers

  -- A tick of keepAlive.
  unfoldable pub keep_alive : ℕ → List String → W × Tui F → Option (W × Tui F)
  unfolding keep_seeds keep_peers get_peers
  keep_alive now seeds s = let s' = keep_seeds seeds s in keep_peers (get_peers now s'.1) s'

-- The hub at a new connection; `reload` is reloadBackendsFromDB with the snapshot of the cache.
unfoldable pub connected_to :
    {F P : Type 0} ⦃fl : Float64 F⦄
    → (PeerCache F → ProxyServer P → ProxyServer P)
    → String
    → String
    → String
    → PeerCache F × ProxyServer P
    → PeerCache F × ProxyServer P
unfolding upsert_connection
connected_to reload now id addr (pc, srv) =
    let pc' = upsert_connection now id addr pc in (pc', reload pc' srv)

unfoldable pub disconnected_from :
    {F P : Type 0} ⦃fl : Float64 F⦄
    → String
    → PeerCache F × ProxyServer P
    → PeerCache F × ProxyServer P
unfolding remove_peer
disconnected_from id (pc, srv) = (remove_peer id pc, srv)
