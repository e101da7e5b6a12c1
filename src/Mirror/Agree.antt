-- ===== src/Mirror/Agree.antt =====
-- The cache (peer_cache.go) beside the table (server_db.go), call by call.
use yuanyi.Base.{
  String, ℤ, pos, Option, none, some, ◌≡◌, refl, ap, ◌∙◌, inl, inr, arith, Map, find, put, remove,
  find-put, find-remove, eq_iff, eq_refl, Option-cases, if◌then◌else◌, get_or, leb_ℤ, ltb_ℤ, ◌&&◌,
  ◌==◌,
}
use yuanyi.Float.{Float64}
use yuanyi.Peer.{GpuInfo, PeerData}
use yuanyi.Cache.{
  PeerCache, upsert_connection, update_peer, merge_gossip, blank_peer, connected_peer, keep_max,
  keep_max_score, contribution,
}
use yuanyi.Db.{
  Row, Db, scan_row, inserted_row, refreshed_row, upsert, update, upsert_peer, sync_peer_stats,
  upsert_peer_connection,
}

module _ {F : Type 0} ⦃fl : Float64 F⦄ where
  abbrev pub scan_option : Option (Row F) → Option (PeerData F)
  scan_option none = none
  scan_option (some r) = some (scan_row r)

  -- Under every key the cache has what a SELECT would return, or both have nothing.
  abbrev pub Agree : Map (PeerData F) → Map (Row F) → Type 0
  Agree m n = (k : String) → find k m ≡ scan_option (find k n)

  Agree-put :
      (m : Map (PeerData F)) (n : Map (Row F)) (id : String) (p : PeerData F) (r : Row F)
      → p ≡ scan_row r
      → Agree m n
      → Agree (put id p m) (put id r n)
  Agree-put m n id p r e h k = rw (find-put id k p m, find-put id k r n) (ground (arith, h k))

  pub Agree-remove :
      (m : Map (PeerData F)) (n : Map (Row F)) (id : String)
      → Agree m n
      → Agree (remove id m) (remove id n)
  Agree-remove m n id h k = rw (find-remove id k m, find-remove id k n) (ground (arith, h k))

  -- An UPDATE of one row and the assignments to one entry.
  pub update-Agree :
      (pc : PeerCache F) (db : Db F) (id : String) (f : PeerData F → PeerData F) (g : Row F → Row F)
      → ((r : Row F) → find id db.peers ≡ some r → f (scan_row r) ≡ scan_row (g r))
      → Agree pc.peers db.peers
      → Agree (update_peer id f pc).peers (update id g db).peers
  unfolding update_peer update
  update-Agree pc db id f g e h = elim (Option-cases (find id db.peers)) [
    | inl miss ↦ rw (h id ∙ ap scan_option miss, miss, update_peer, update) h
    | inr (r, hit) ↦
        rw (h id ∙ ap scan_option hit, hit, update_peer, update)
          (Agree-put pc.peers db.peers id (f (scan_row r)) (g r) (e r hit) h)
  ]

  -- An UPSERT and the creation or assignment of one entry.
  upsert-Agree :
      (pc : PeerCache F) (db : Db F) (id : String) (f : Option (PeerData F) → PeerData F)
      (fresh : Row F) (g : Row F → Row F)
      → f none ≡ scan_row fresh
      → ((r : Row F) → f (some (scan_row r)) ≡ scan_row (g r))
      → Agree pc.peers db.peers
      → Agree (put id (f (find id pc.peers)) pc.peers) (upsert id fresh g db).peers
  unfolding upsert
  upsert-Agree pc db id f fresh g e₀ e h = elim (Option-cases (find id db.peers)) [
    | inl miss ↦
        rw (h id ∙ ap scan_option miss, miss, upsert)
          (Agree-put pc.peers db.peers id (f none) fresh e₀ h)
    | inr (r, hit) ↦
        rw (h id ∙ ap scan_option hit, hit, upsert)
          (Agree-put pc.peers db.peers id (f (some (scan_row r))) (g r) (e r) h)
  ]

  pub connect-Agree :
      (pc : PeerCache F) (db : Db F) (now id ip : String)
      → Agree pc.peers db.peers
      → Agree (upsert_connection now id ip pc).peers (upsert_peer_connection now id ip db).peers
  unfolding upsert_connection upsert_peer_connection connected_peer scan_row
  connect-Agree pc db now id ip h =
      upsert-Agree pc db id (connected_peer now id ip) _ _ refl (λ r. refl) h

  -- SyncPeerStats as a function of the row.
  abbrev synced : ℤ → ℤ → Row F → Row F
  synced requests tokens r =
      if leb_ℤ requests (pos 0) && leb_ℤ tokens (pos 0) then r else record r {
        total_requests = if ltb_ℤ r.total_requests requests then requests else r.total_requests;
        total_tokens = if ltb_ℤ r.total_tokens tokens then tokens else r.total_tokens;
        contribution_score =
            if fl.lt r.contribution_score (contribution requests tokens)
            then contribution requests tokens
            else r.contribution_score;
      }

  find-update :
      (id k : String) (g : Row F → Row F) (db : Db F) (r : Row F)
      → find id db.peers ≡ some r
      → find k (update id g db).peers ≡ (if id == k then some (g r) else find k db.peers)
  unfolding update
  find-update id k g db r e = rw (e, update) (find-put id k (g r) db.peers)

  -- SyncPeerStats on a row that is there.
  find-sync :
      (id k : String) (requests tokens : ℤ) (db : Db F) (row : Row F)
      → find id db.peers ≡ some row
      → find k (sync_peer_stats id requests tokens db).peers
        ≡ (if id == k then some (synced requests tokens row) else find k db.peers)
  unfolding sync_peer_stats
  find-sync id k requests tokens db row e =
      ground
        (arith, find-update id k (λ (r : Row F). synced requests tokens r) db row e, eq_iff id k)

  abbrev written : Row F → (Row F → Row F) → Option (Row F) → Row F
  written fresh g none = fresh
  written fresh g (some r) = g r

  find-upsert :
      (id k : String) (fresh : Row F) (g : Row F → Row F) (db : Db F)
      → find k (upsert id fresh g db).peers
        ≡ (if id == k then some (written fresh g (find id db.peers)) else find k db.peers)
  unfolding upsert
  find-upsert id k fresh g db = elim (Option-cases (find id db.peers)) [
    | inl miss ↦ rw (miss, upsert) (find-put id k fresh db.peers)
    | inr (r, hit) ↦ rw (hit, upsert) (find-put id k (g r) db.peers)
  ]

  -- An UPSERT, then SyncPeerStats, and one entry written.
  sync-Agree :
      (m : Map (PeerData F)) (db : Db F) (id : String) (requests tokens : ℤ) (p : PeerData F)
      (fresh : Row F) (g : Row F → Row F)
      → p ≡ scan_row (synced requests tokens (written fresh g (find id db.peers)))
      → Agree m db.peers
      → Agree (put id p m) (sync_peer_stats id requests tokens (upsert id fresh g db)).peers
  sync-Agree m db id requests tokens p fresh g e h k =
      let row = written fresh g (find id db.peers) in
      let hit : find id (upsert id fresh g db).peers ≡ some row =
        ground (arith, find-upsert id id fresh g db, eq_refl id) in
      rw
        (
          find-put id k p m,
          find-sync id k requests tokens (upsert id fresh g db) row hit,
          find-upsert id k fresh g db,
          e,
        )
        (ground (arith, h k))

  module _ (now gpu_data : String) (info : GpuInfo F) where
    blank-synced :
        merge_gossip now gpu_data info (blank_peer info.node_id)
        ≡ scan_row (
            synced info.total_requests info.total_tokens (
              inserted_row now info.node_id info.addr gpu_data info.bootstrap_addr info.engine_id
                info.role))
    unfolding merge_gossip keep_max keep_max_score blank_peer scan_row inserted_row
    blank-synced = ground arith

    merge-synced :
        (r : Row F)
        → merge_gossip now gpu_data info (scan_row r)
          ≡ scan_row (
              synced info.total_requests info.total_tokens (
                refreshed_row now info.addr gpu_data info.bootstrap_addr info.engine_id info.role
                  r))
    unfolding merge_gossip keep_max keep_max_score scan_row refreshed_row
    merge-synced r = ground arith

    pub gossip-Agree :
        (pc : PeerCache F) (db : Db F)
        → Agree pc.peers db.peers
        → Agree
            (put info.node_id
              (merge_gossip now gpu_data info
                (get_or (find info.node_id pc.peers) (blank_peer info.node_id)))
              pc.peers)
            (sync_peer_stats info.node_id info.total_requests info.total_tokens (
              upsert_peer now info.node_id info.addr gpu_data info.bootstrap_addr info.engine_id
                info.role db)).peers
    unfolding upsert_peer
    gossip-Agree pc db h =
        sync-Agree pc.peers db info.node_id info.total_requests info.total_tokens _ _ _
          (elim (Option-cases (find info.node_id db.peers)) [
            | inl miss ↦ rw (h info.node_id, miss) blank-synced
            | inr (r, hit) ↦ rw (h info.node_id, hit) (merge-synced r)
          ])
          h
