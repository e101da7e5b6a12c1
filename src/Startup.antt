-- ===== src/Startup.antt =====
-- What a node reads before it runs: the configuration (LoadOrCreateConfig and
-- detectActiveNetworkInterface, config.go), its seeds (resolveSeedAddrs, p2p.go), and the snapshot of
-- another hub (syncPeerCacheFromSeed, peer_cache.go). Lines that only go to the log are left out.
pub mod Seeds
use yuanyi.Base.{
  ℕ, zero, suc, Bool, true, false, ◌&&◌, ◌||◌, not, String, List, [], ◌∷◌, ◌++◌, Option, none, some,
  is_empty, if◌then◌else◌, contains, ◌==◌, get_or, ltb, ◌>>=◌,
}
use yuanyi.Float.{Float64}
use yuanyi.Peer.{PeerData}
use yuanyi.Strings.{Text, codes, has_prefix}
use yuanyi.Config.{ClientConfig, remove_comment_lines, fill_defaults}
use yuanyi.Cache.{PeerCache, load_snapshot, snapshot}
use yuanyi.Db.{Db}
use yuanyi.Db.Batch.{Statement, batch_flush}

-- A network interface: whether it is a loopback, whether it is up, and how many addresses it has,
-- none if they cannot be read.
pub record Interface : Type 0 where
  pub name : Text
  pub loopback : Bool
  pub up : Bool
  pub addrs : Option ℕ

abbrev pub is_active : Interface → Bool
is_active i = (not i.loopback && i.up) && ltb 0 (get_or i.addrs 0)

abbrev pub has_usual_name : Text → Bool
has_usual_name name =
    has_prefix (codes "eth") name
    || (has_prefix (codes "en") name || has_prefix (codes "wlan") name)

unfoldable pub first_active : (Text → Bool) → List Interface → Option Text
first_active good [] = none
first_active good (i ∷ interfaces) =
    let rest = first_active good interfaces in
    if is_active i && good i.name then some i.name else rest

-- The two loops; the argument is none if net.Interfaces fails.
unfoldable pub detect_active_network_interface : Option (List Interface) → Text
unfolding first_active
detect_active_network_interface none = codes "eth0"
detect_active_network_interface (some interfaces) = elim (first_active has_usual_name interfaces) [
  | some name ↦ name
  | none ↦ get_or (first_active (λ n. true) interfaces) (codes "eth0")
]

-- os.ReadFile
pub data ReadResult : Type 0 where
  content : List String → ReadResult
  not_there unreadable : ReadResult

pub data Loaded : Type 0 where
  write_failed read_failed parse_failed : Loaded
  loaded : ClientConfig → Loaded

-- A file is given by its lines. `default_lines` is defaultClientConfigStr, `writes` whether it can be
-- written, and `unmarshal` is encoding/json.
module _ (is_comment : String → Bool) (unmarshal : List String → Option ClientConfig)
    (default_lines : List String) (writes : Bool) (active : String) where
  unfoldable pub parse_config : List String → Loaded
  unfolding remove_comment_lines fill_defaults
  parse_config lines = elim (unmarshal (remove_comment_lines is_comment lines)) [
    | none ↦ parse_failed
    | some cfg ↦ loaded (fill_defaults active cfg)
  ]

  unfoldable pub load_or_create_config : ReadResult → Loaded
  unfolding parse_config
  load_or_create_config (content lines) = parse_config lines
  load_or_create_config not_there = if writes then parse_config default_lines else write_failed
  load_or_create_config unreadable = read_failed

-- The loop over the configured addresses, with those seen so far; none is an error. `parse` is
-- multiaddr.NewMultiaddr with peer.AddrInfoFromP2pAddr.
unfoldable pub resolve_all :
    {A : Type 0} → (String → Option A) → List String → List String → Option (List A)
resolve_all parse seen [] = some []
resolve_all parse seen (s ∷ raw) =
    let fresh = not (s == "" || contains s seen) in
    let rest = resolve_all parse (if fresh then s ∷ seen else seen) raw in
    if fresh then (do info ← parse s; infos ← rest; some (info ∷ infos)) else rest

unfoldable pub resolve_seed_addrs :
    {A : Type 0} → (String → Option A) → List String → String → Option (List A)
unfolding resolve_all
resolve_seed_addrs parse addresses address =
    resolve_all parse [] (if address == "" then addresses else addresses ++ address ∷ [])

-- What a seed answers.
pub data SeedAnswer (F : Type 0) : Type 0 where
  unreachable bad_status undecodable : SeedAnswer F
  peers_of : List (PeerData F) → SeedAnswer F

module _ {F : Type 0} ⦃fl : Float64 F⦄
    (sort : (PeerData F → PeerData F → Bool) → List (PeerData F) → List (PeerData F))
    (str_lt : String → String → Bool) (runs : Statement F → Bool) where
  -- A snapshot is merged into the cache, and the whole cache is written; a failed write is logged.
  unfoldable pub take_snapshot : List (PeerData F) → PeerCache F × Db F → PeerCache F × Db F
  unfolding load_snapshot snapshot batch_flush
  take_snapshot peers (pc, db) =
      let pc' = load_snapshot peers pc in
      (pc', get_or (batch_flush runs (snapshot sort str_lt pc') [] [] db) db)

  -- The first seed that answers.
  unfoldable pub sync_from :
      (String → SeedAnswer F) → List String → PeerCache F × Db F → PeerCache F × Db F
  unfolding take_snapshot
  sync_from get [] s = s
  sync_from get (url ∷ urls) s = elim (get url) [
    | unreachable ↦ sync_from get urls s
    | bad_status ↦ sync_from get urls s
    | undecodable ↦ sync_from get urls s
    | peers_of peers ↦ take_snapshot peers s
  ]

  unfoldable pub sync_peer_cache_from_seed :
      Bool → (String → SeedAnswer F) → List String → PeerCache F × Db F → PeerCache F × Db F
  unfolding sync_from
  sync_peer_cache_from_seed enabled get urls s =
      if not enabled || is_empty urls then s else sync_from get urls s
