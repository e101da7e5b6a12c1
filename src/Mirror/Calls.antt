-- ===== src/Mirror/Calls.antt =====
-- Cache and table (peer_cache.go, server_db.go) along a history of calls.
use yuanyi.Base.{
  String, ℤ, Option, none, some, List, [], ◌∷◌, ◌≡◌, refl, sym, ◌∙◌, ap, inl, inr, arith, find, put,
  get_or, Option-cases, InInt64, ◌+ℤ◌, add64, add64_in_range,
}
use yuanyi.Float.{Float64}
use yuanyi.Peer.{GpuInfo, PeerData}
use yuanyi.Cache.{
  PeerCache, merge_gossip, blank_peer, upsert_gossip, remove_peer, set_ping, update_health,
  increment_contribution, increment_tokens_detail, add_contribution, add_tokens_detail,
  at_least_one,
}
use yuanyi.Db.{
  SqlSum, Db, scan_row, delete_peer, update_peer_ping, update_peer_health,
  increment_peer_contribution, increment_peer_tokens_detail,
}
use yuanyi.Mirror.{
  Call, gossip, connect, disconnect, ping, health, credit, credit_detail, cache_step, db_step,
  cache_run, db_run,
}
use yuanyi.Mirror.Agree.{
  Agree, scan_option, Agree-remove, update-Agree, connect-Agree, gossip-Agree,
}

module _ {F : Type 0} where
  -- A call that adds to the counters of a known peer overflows no 64-bit integer.
  abbrev pub Fits : Call F → PeerCache F → Type 0
  Fits (credit id requests tokens) pc =
      (p : PeerData F)
      → find id pc.peers ≡ some p
      → InInt64 (p.total_requests +ℤ at_least_one requests) × InInt64 (p.total_tokens +ℤ tokens)
  Fits (credit_detail id requests in_tokens out_tokens) pc =
      (p : PeerData F)
      → find id pc.peers ≡ some p
      → InInt64 (p.total_requests +ℤ at_least_one requests)
        × InInt64 (p.total_tokens +ℤ add64 in_tokens out_tokens)
        × InInt64 (p.in_tokens +ℤ in_tokens)
        × InInt64 (p.out_tokens +ℤ out_tokens)
  Fits _ pc = Unit

module _ {F : Type 0} ⦃fl : Float64 F⦄ (marshal : GpuInfo F → Option String) (sql : SqlSum) where
  upsert_gossip-none :
      (now : String) (info : GpuInfo F) (pc : PeerCache F)
      → marshal info ≡ none
      → (upsert_gossip marshal now info pc).0.peers ≡ pc.peers
  unfolding upsert_gossip
  upsert_gossip-none now info pc e = ground arith

  peers-upsert_gossip :
      (now : String) (info : GpuInfo F) (pc : PeerCache F) (gpu_data : String)
      → marshal info ≡ some gpu_data
      → (upsert_gossip marshal now info pc).0.peers
        ≡ put info.node_id
            (merge_gossip now gpu_data info
              (get_or (find info.node_id pc.peers) (blank_peer info.node_id)))
            pc.peers
  unfolding upsert_gossip
  peers-upsert_gossip now info pc gpu_data e = ground arith

  abbrev pub AllFit : List (Call F) → PeerCache F → Type 0
  AllFit [] pc = Unit
  AllFit (c ∷ calls) pc = Fits c pc × AllFit calls (cache_step marshal c pc)

  sum-add64 : (a b : ℤ) → InInt64 (a +ℤ b) → add64 a b ≡ sql.sum a b
  sum-add64 a b h = add64_in_range a b h ∙ sym (sql.sum_exact a b h)

  step-Agree :
      (c : Call F) (pc : PeerCache F) (db : Db F)
      → Fits c pc
      → Agree pc.peers db.peers
      → Agree (cache_step marshal c pc).peers (db_step marshal sql c db).peers
  unfolding cache_step db_step
  step-Agree (gossip now info) pc db f h = elim (Option-cases (marshal info)) [
    | inl e ↦ rw (upsert_gossip-none now info pc e, e, db_step) h
    | inr (gpu_data, e) ↦
        rw (peers-upsert_gossip now info pc gpu_data e, e, db_step)
          (gossip-Agree now gpu_data info pc db h)
  ]
  step-Agree (connect now id ip) pc db f h = connect-Agree pc db now id ip h
  step-Agree (disconnect id) pc db f h =
      unfold remove_peer delete_peer in Agree-remove pc.peers db.peers id h
  step-Agree (ping id value) pc db f h =
      unfold set_ping update_peer_ping scan_row in update-Agree pc db id _ _ (λ r e. refl) h
  step-Agree (health id fails penalty) pc db f h =
      unfold update_health update_peer_health scan_row in update-Agree pc db id _ _ (λ r e. refl) h
  step-Agree (credit id requests tokens) pc db f h =
      unfold increment_contribution increment_peer_contribution add_contribution scan_row in
      update-Agree pc db id _ _
        (λ r e.
          let fits = f (scan_row r) (h id ∙ ap scan_option e) in
          cc (
            sum-add64 r.total_requests (at_least_one requests) fits.0,
            sum-add64 r.total_tokens tokens fits.1,
          ))
        h
  step-Agree (credit_detail id requests in_tokens out_tokens) pc db f h =
      unfold increment_tokens_detail increment_peer_tokens_detail add_tokens_detail scan_row in
      update-Agree pc db id _ _
        (λ r e.
          let fits = f (scan_row r) (h id ∙ ap scan_option e) in
          cc (
            sum-add64 r.total_requests (at_least_one requests) fits.0,
            sum-add64 r.total_tokens (add64 in_tokens out_tokens) fits.1,
            sum-add64 r.in_tokens in_tokens fits.2,
            sum-add64 r.out_tokens out_tokens fits.3,
          ))
        h

  -- Along every history of gossip, connection, removal, ping, health and credit calls, started from a
  -- cache and a table that agree, both have the same content under every peer ID, provided that no
  -- credit to a known peer leaves the 64-bit range.
  pub run-Agree :
      (calls : List (Call F)) (pc : PeerCache F) (db : Db F)
      → AllFit calls pc
      → Agree pc.peers db.peers
      → Agree (cache_run marshal calls pc).peers (db_run marshal sql calls db).peers
  unfolding cache_run db_run
  run-Agree [] pc db f h = h
  run-Agree (c ∷ calls) pc db f h =
      run-Agree calls (cache_step marshal c pc) (db_step marshal sql c db) f.1
        (step-Agree c pc db f.0 h)
