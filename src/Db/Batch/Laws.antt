-- ===== src/Db/Batch/Laws.antt =====
-- What a committed BatchFlush (server_db.go) has written.
use yuanyi.Base.{
  String, pos, Bool, ◌||◌, Option, none, some, List, [], ◌∷◌, ◌++◌, map, Map, find, put, remove,
  find-put, find-remove, values, IsMap, if◌then◌else◌, is_empty, >>=-eq-some, guard-eq-some,
  contains, ◌≡◌, refl, ◌∙◌, arith, eq_iff,
}
use mathlib.Core.List.{append_assoc, append-nil, map-append}
use yuanyi.Peer.{PeerData, PeerEvent}
use yuanyi.Cache.Invariant.{Keyed}
use yuanyi.Db.{Row, Db}
use yuanyi.Db.Batch.{
  Statement, begin, commit, prepare_peers, prepare_events, delete_rows, write_peer, write_event,
  row_of, delete_all, append_event, write_peers, write_events, transaction, batch_flush,
}

-- An event without the number that the engine gives it.
abbrev pub unnumbered : PeerEvent → PeerEvent
unnumbered e = record e { id = pos 0 }

module _ {F : Type 0} where
  pub find-delete_all :
      (k : String) (ids : List String) (m : Map (Row F))
      → find k (delete_all ids m) ≡ (if contains k ids then none else find k m)
  unfolding delete_all
  find-delete_all k [] m = refl
  find-delete_all k (id ∷ ids) m =
      find-delete_all k ids (remove id m) ∙ ground (arith, find-remove id k m)

  -- The row that a snapshot of the map `m` leaves under a key that had the row `o`.
  abbrev pub flushed_row : Option (PeerData F) → Option (Row F) → Option (Row F)
  flushed_row none o = o
  flushed_row (some p) o = some (row_of p)

  module _ (runs : Statement F → Bool) where
    find-write_peers :
        (k : String) (m : Map (PeerData F)) (n : Map (Row F)) {rows : Map (Row F)}
        → IsMap m
        → Keyed m
        → write_peers runs (values m) n ≡ some rows
        → find k rows ≡ flushed_row (find k m) (find k n)
    unfolding write_peers find
    find-write_peers k [] n i y e = cc
    find-write_peers k ((j, p) ∷ m) n {rows} i y e =
        find-write_peers k m (put p.peer_id (row_of p) n) i.1 y.1
          (guard-eq-some (runs (write_peer p)) _ e)
        ∙ ground (arith, find-put p.peer_id k (row_of p) n, eq_iff j k, i.0, y.0)

    write_events_lem :
        (es : List PeerEvent) (db : Db F) {db' : Db F}
        → write_events runs es db ≡ some db'
        → (db'.peers ≡ db.peers)
          × (map unnumbered db'.events ≡ map unnumbered db.events ++ map unnumbered es)
    unfolding write_events append_event
    write_events_lem [] db e = ground (arith, append-nil (map unnumbered db.events))
    write_events_lem (x ∷ es) db e =
        let (rows, logged) =
          write_events_lem es (append_event x db) (guard-eq-some (runs (write_event x)) _ e) in
        (
          rows,
          logged
              ∙ ground (
                arith,
                map-append unnumbered db.events (record x { id = pos db.next_id } ∷ []),
                append_assoc (map unnumbered db.events) (unnumbered x ∷ []) (map unnumbered es),
              ),
        )

    -- What the flush promises of the new database.
    abbrev pub Flushed : Map (PeerData F) → List PeerEvent → List String → Db F → Db F → Type 0
    Flushed m events deletes db db' =
        ((k : String)
          → find k db'.peers
            ≡ flushed_row (find k m) (if contains k deletes then none else find k db.peers))
        × (map unnumbered db'.events ≡ map unnumbered db.events ++ map unnumbered events)

    transaction_lem :
        (m : Map (PeerData F)) (events : List PeerEvent) (deletes : List String) (db : Db F)
        {db' : Db F}
        → IsMap m
        → Keyed m
        → transaction runs (values m) events deletes db ≡ some db'
        → Flushed m events deletes db db'
    unfolding transaction
    transaction_lem m events deletes db i y e =
        let begun = guard-eq-some (runs begin) _ e in
        let deleted = guard-eq-some (is_empty deletes || runs (delete_rows deletes)) _ begun in
        let prepared = guard-eq-some (is_empty (values m) || runs prepare_peers) _ deleted in
        let (rows, wrote, rest) =
          >>=-eq-some (write_peers runs (values m) (delete_all deletes db.peers)) _ prepared in
        let ready = guard-eq-some (is_empty events || runs prepare_events) _ rest in
        let (logged, wrote_events, final) =
          >>=-eq-some (write_events runs events (record db { peers = rows })) _ ready in
        let done = guard-eq-some (runs commit) (some logged) final in
        let (same, appended) = write_events_lem events (record db { peers = rows }) wrote_events in
        (
          (λ k. ground (
            arith,
            done,
            same,
            find-write_peers k m (delete_all deletes db.peers) i y wrote,
            find-delete_all k deletes db.peers,
          )),
          ground (arith, done, appended),
        )

    pub batch_flush_lem :
        (m : Map (PeerData F)) (events : List PeerEvent) (deletes : List String) (db : Db F)
        {db' : Db F}
        → IsMap m
        → Keyed m
        → batch_flush runs (values m) events deletes db ≡ some db'
        → Flushed m events deletes db db'
    unfolding batch_flush find
    batch_flush_lem [] [] [] db i y e =
        ((λ k. cc), ground (arith, append-nil (map unnumbered db.events)))
    batch_flush_lem m events deletes db i y e = transaction_lem m events deletes db i y e
