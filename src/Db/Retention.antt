-- ===== src/Db/Retention.antt =====
-- DeleteOldPeers (server_db.go). `age` is the time from a parsed last_ping to now, none if the text
-- is no RFC 3339 time; the two Booleans say whether the engine runs the SELECT and the DELETE.
use yuanyi.Base.{
  String, ℤ, Bool, true, false, Option, none, some, List, [], ◌∷◌, Map, find, IsMap, contains,
  eq_iff, if◌then◌else◌, is_empty, ltb_ℤ, arith, ◌≡◌, refl, ap, ◌∙◌, ◌>>=◌,
}
use yuanyi.Peer.{PeerEvent}
use yuanyi.Db.{Row, Db}
use yuanyi.Db.Batch.{delete_all}
use yuanyi.Db.Batch.Laws.{find-delete_all}

module _ {F : Type 0} where
  -- The row's last ping is longer ago than the threshold.
  unfoldable pub is_old : (String → Option ℤ) → ℤ → Row F → Bool
  is_old age threshold r = elim (age r.last_ping) [ none ↦ false | some d ↦ ltb_ℤ threshold d ]

  -- toDelete
  unfoldable pub old_ids : (Row F → Bool) → Map (Row F) → List String
  old_ids old [] = []
  old_ids old ((k, r) ∷ m) = let rest = old_ids old m in if old r then k ∷ rest else rest

  -- none is an error.
  unfoldable pub delete_old_peers : Bool → Bool → (String → Option ℤ) → ℤ → Db F → Option (Db F)
  unfolding old_ids is_old delete_all
  delete_old_peers false deletes age threshold db = none
  delete_old_peers true deletes age threshold db =
      let ids = old_ids (is_old age threshold) db.peers in
      if is_empty ids
      then some db
      else if deletes
      then some (record db { peers = delete_all ids db.peers })
      else none

  abbrev pub passes : (Row F → Bool) → Option (Row F) → Bool
  passes old none = false
  passes old (some r) = old r

  contains-old_ids :
      (old : Row F → Bool) (k : String) (m : Map (Row F))
      → IsMap m
      → contains k (old_ids old m) ≡ passes old (find k m)
  unfolding old_ids find
  contains-old_ids old k [] h = refl
  contains-old_ids old k ((j, r) ∷ m) h = ground (arith, eq_iff j k, contains-old_ids old k m h.1)

  find-old_ids :
      (old : Row F → Bool) (k : String) (m : Map (Row F))
      → IsMap m
      → find k (delete_all (old_ids old m) m) ≡ (if passes old (find k m) then none else find k m)
  find-old_ids old k m h =
      find-delete_all k (old_ids old m) m ∙ rw (contains-old_ids old k m h) refl

  -- The DELETE is left out if there is nothing to delete, which changes nothing.
  abbrev apply_deletes : List String → Db F → Option (Db F)
  apply_deletes ids db =
      if is_empty ids then some db else some (record db { peers = delete_all ids db.peers })

  -- One row and the events of the database.
  abbrev pub row_and_events : String → Db F → Option (Row F) × List PeerEvent
  row_and_events k db = (find k db.peers, db.events)

  apply_deletes_lem :
      (k : String) (ids : List String) (db : Db F)
      → (apply_deletes ids db >>= λ d. some (row_and_events k d))
        ≡ some (row_and_events k (record db { peers = delete_all ids db.peers }))
  unfolding delete_all
  apply_deletes_lem k [] db = refl
  apply_deletes_lem k (id ∷ ids) db = refl

  -- If each peer ID has one row and the engine runs both statements, a row is gone afterwards
  -- exactly if its last ping is a time longer ago than the threshold, and the other rows and the
  -- events are as before.
  pub find-delete_old_peers :
      (age : String → Option ℤ) (threshold : ℤ) (db : Db F) (k : String)
      → IsMap db.peers
      → (delete_old_peers true true age threshold db >>= λ d. some (row_and_events k d))
        ≡ some (
          (if passes (is_old age threshold) (find k db.peers) then none else find k db.peers),
          db.events,
        )
  unfolding delete_old_peers
  find-delete_old_peers age threshold db k h =
      apply_deletes_lem k (old_ids (is_old age threshold) db.peers) db
      ∙ ap (λ r. some (r, db.events)) (find-old_ids (is_old age threshold) k db.peers h)
