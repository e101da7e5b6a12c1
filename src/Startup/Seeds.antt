-- ===== src/Startup/Seeds.antt =====
-- What the snapshot of another hub does to the cache of a hub that starts (peer_cache.go).
use yuanyi.Base.{String, Bool, ◌||◌, not, List, [], ◌∷◌, find, is_empty, Bool-cases, inl, inr}
use yuanyi.Float.{Float64}
use yuanyi.Peer.{PeerData}
use yuanyi.Cache.{PeerCache}
use yuanyi.Cache.Growth.{Grown, Grown-refl, load_snapshot-Grown}
use yuanyi.Db.{Db}
use yuanyi.Db.Batch.{Statement}
use yuanyi.Startup.{
  SeedAnswer, unreachable, bad_status, undecodable, peers_of, take_snapshot, sync_from,
  sync_peer_cache_from_seed,
}

module _ {F : Type 0} ⦃fl : Float64 F⦄
    (sort : (PeerData F → PeerData F → Bool) → List (PeerData F) → List (PeerData F))
    (str_lt : String → String → Bool) (runs : Statement F → Bool)
    (get : String → SeedAnswer F) where
  sync_from-Grown :
      (urls : List String) (s : PeerCache F × Db F) (k : String)
      → Grown (find k s.0.peers) (find k (sync_from sort str_lt runs get urls s).0.peers)
  unfolding sync_from take_snapshot
  sync_from-Grown [] s k = Grown-refl (find k s.0.peers)
  sync_from-Grown (url ∷ urls) s k =
      elim (get url)
        as (λ a. Grown (find k s.0.peers) (
          find k
            (elim a as (λ _. PeerCache F × Db F) [
              | unreachable ↦ sync_from sort str_lt runs get urls s
              | bad_status ↦ sync_from sort str_lt runs get urls s
              | undecodable ↦ sync_from sort str_lt runs get urls s
              | peers_of peers ↦ take_snapshot sort str_lt runs peers s
            ]).0.peers)) [
              | unreachable ↦ sync_from-Grown urls s k
              | bad_status ↦ sync_from-Grown urls s k
              | undecodable ↦ sync_from-Grown urls s k
              | peers_of peers ↦ load_snapshot-Grown peers s.0 k
            ]

  -- Whatever the seeds answer, in whatever order they are asked, and whether or not the database can
  -- be written, the catch-up at the start keeps every peer that the hub knows, lowers no counter of
  -- any, and leaves an address that was seen on a connection alone.
  pub sync_peer_cache_from_seed-Grown :
      (enabled : Bool) (urls : List String) (s : PeerCache F × Db F) (k : String)
      → Grown
          (find k s.0.peers)
          (find k (sync_peer_cache_from_seed sort str_lt runs enabled get urls s).0.peers)
  unfolding sync_peer_cache_from_seed
  sync_peer_cache_from_seed-Grown enabled urls s k =
      elim (Bool-cases (not enabled || is_empty urls)) [
        | inl e ↦ rw e (Grown-refl (find k s.0.peers))
        | inr e ↦ rw e (sync_from-Grown urls s k)
      ]
