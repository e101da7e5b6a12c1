-- ===== src/Flush/Alone.antt =====
-- Flush (peer_cache.go) with nothing in between.
use mathlib.Core.List.{append-nil}
use yuanyi.Base.{
  String, Bool, true, ◌&&◌, none, some, List, [], ◌∷◌, ◌++◌, map, Map, find, drop_all, is_empty,
  values, keys, contains-keys, ◌≡◌, refl, sym, arith, ◌⊎◌, inl, inr, Bool-cases, Option-cases,
}
use yuanyi.Float.{Float64}
use yuanyi.Peer.{PeerData}
use yuanyi.Cache.{PeerCache}
use yuanyi.Cache.Invariant.{IsValid}
use yuanyi.Db.{Db, scan_row}
use yuanyi.Db.Batch.{Statement, row_of}
use yuanyi.Db.Batch.Laws.{unnumbered, batch_flush_lem, Flushed}
use yuanyi.Mirror.Agree.{Agree}
use yuanyi.Flush.{
  flushed, failed, copy_cache, store, drain, cancel_all, store_outcome, drain_outcome, flush,
}
use yuanyi.Flush.Covered.{Covered, find-cancel_all}

empty_values {ℓ} :
    {V : Type ℓ} (m : Map V) → is_empty (values m) ≡ true → (k : String) → find k m ≡ none
unfolding find
empty_values [] e k = refl
empty_values ((j, v) ∷ m) e k = cc

empty_keys {ℓ} :
    {V : Type ℓ} (m : Map V) → is_empty (keys m) ≡ true → (k : String) → find k m ≡ none
unfolding find
empty_keys [] e k = refl
empty_keys ((j, v) ∷ m) e k = cc

empty_list {ℓ} : {A : Type ℓ} (xs : List A) → is_empty xs ≡ true → xs ≡ []
empty_list [] e = refl
empty_list (x ∷ xs) e = cc

module _ {F : Type 0} ⦃fl : Float64 F⦄ where
  scan_row-row_of : (p : PeerData F) → scan_row (row_of p) ≡ p
  unfolding scan_row row_of
  scan_row-row_of p = refl

  -- What a flush has done.
  abbrev pub Settled : PeerCache F → Db F → PeerCache F → Db F → Type 0
  Settled pc db pc' db' =
      Agree pc'.peers db'.peers
      × (pc'.peers ≡ pc.peers)
      × (pc'.pending_events ≡ [])
      × ((k : String) → find k pc'.pending_deletes ≡ none)
      × (map unnumbered db'.events ≡ map unnumbered db.events ++ map unnumbered pc.pending_events)

  Flushed-Agree :
      (runs : Statement F → Bool) (pc : PeerCache F) (db db' : Db F)
      → Covered pc db.peers
      → Flushed runs pc.peers pc.pending_events (keys pc.pending_deletes) db db'
      → Agree pc.peers db'.peers
  unfolding scan_row row_of
  Flushed-Agree runs pc db db' c f k =
      ground (arith, f.0 k, c k, contains-keys k pc.pending_deletes)

  abbrev drained : PeerCache F → PeerCache F
  drained pc = record pc {
    pending_events = [];
    pending_deletes = cancel_all (keys pc.pending_deletes) pc.pending_deletes;
  }

  drain_lem : (pc : PeerCache F) → drain (copy_cache pc) pc ≡ some (drained pc)
  unfolding drain copy_cache
  drain_lem pc = ground (arith, drop_all pc.pending_events)

  drained-Settled :
      (runs : Statement F → Bool) (pc : PeerCache F) (db db' : Db F)
      → IsValid pc
      → Covered pc db.peers
      → store runs (copy_cache pc) db ≡ some db'
      → Settled pc db (drained pc) db'
  unfolding store copy_cache
  drained-Settled runs pc db db' v c e =
      let done =
        batch_flush_lem runs pc.peers pc.pending_events (keys pc.pending_deletes) db v.distinct
          v.keyed e in
      (
        Flushed-Agree runs pc db db' c done,
        refl,
        refl,
        λ k. ground (
          arith,
          find-cancel_all k (keys pc.pending_deletes) pc.pending_deletes,
          contains-keys k pc.pending_deletes,
        ),
        done.1,
      )

  nothing-Settled :
      (pc : PeerCache F) (db : Db F)
      → Covered pc db.peers
      → (is_empty (values pc.peers)
          && is_empty pc.pending_events
          && is_empty (keys pc.pending_deletes))
        ≡ true
      → Settled pc db pc db
  nothing-Settled pc db c e =
      let none_live = empty_values pc.peers (ground arith) in
      let none_pending = empty_keys pc.pending_deletes (ground arith) in
      let none_queued : pc.pending_events ≡ [] = empty_list pc.pending_events (ground arith) in
      (
        (λ k. ground (arith, c k, none_live k, none_pending k)),
        refl,
        none_queued,
        none_pending,
        rw none_queued (sym (append-nil (map unnumbered db.events))),
      )

  -- On a valid cache that covers the table a flush alone never panics: it fails, or it leaves
  -- the table with exactly the peers of the cache, both queues empty and the events appended.
  pub flush_lem :
      (runs : Statement F → Bool) (pc : PeerCache F) (db : Db F)
      → IsValid pc
      → Covered pc db.peers
      → (flush runs pc db ≡ failed)
        ⊎ ((pc' : PeerCache F) × (db' : Db F) × (flush runs pc db ≡ flushed pc' db')
            × Settled pc db pc' db')
  unfolding flush
  flush_lem runs pc db v c =
      elim (Bool-cases (
        is_empty (values pc.peers)
        && is_empty pc.pending_events
        && is_empty (keys pc.pending_deletes))) [
          | inl e ↦ inr (pc, db, unfold copy_cache in rw e, nothing-Settled pc db c e)
          | inr e ↦ elim (Option-cases (store runs (copy_cache pc) db)) [
            | inl r ↦ inl (unfold copy_cache store_outcome in rw (e, r))
            | inr (db', r) ↦ inr (
              drained pc,
              db',
              unfold copy_cache store_outcome drain_outcome in rw (e, r, drain_lem pc),
              drained-Settled runs pc db db' v c r,
            )
          ]
        ]
