-- ===== src/Flush.antt =====
-- Flush (peer_cache.go): the cache is copied under the lock, written in one transaction without it,
-- and then drained under the lock again. Between these three steps other methods may run.
pub mod Covered
pub mod Overlap
pub mod Alone
pub mod System
use yuanyi.Base.{
  String, ℤ, Bool, true, false, ◌&&◌, not, Option, none, some, List, [], ◌∷◌, ◌++◌, Map, find,
  remove, values, keys, length, drop, ltb, is_empty, is_none, if◌then◌else◌,
}
use yuanyi.Peer.{PeerData, PeerEvent}
use yuanyi.Cache.{PeerCache}
use yuanyi.Db.{Db}
use yuanyi.Db.Batch.{Statement, batch_flush}

-- peersSnap (as the map whose values it holds), eventsSnap and deletesSnap.
pub record Copied (F : Type 0) : Type 0 where
  pub peers : Map (PeerData F)
  pub events : List PeerEvent
  pub deletes : List String

-- What a call of Flush ends in. `panicked` is the slice expression out of range.
pub data Outcome (F : Type 0) : Type 0 where
  flushed : PeerCache F → Db F → Outcome F
  failed panicked : Outcome F

module _ {F : Type 0} where
  unfoldable pub copy_cache : PeerCache F → Copied F
  copy_cache pc = record {
    peers = pc.peers;
    events = pc.pending_events;
    deletes = keys pc.pending_deletes;
  }

  -- The transaction with what was copied.
  unfoldable pub store : (Statement F → Bool) → Copied F → Db F → Option (Db F)
  store runs c db = batch_flush runs (values c.peers) c.events c.deletes db

-- `for _, id := range deletesSnap { delete(pc.pendingDeletes, id) }`
unfoldable pub cancel_all : List String → Map (Unit {0}) → Map (Unit {0})
cancel_all [] m = m
cancel_all (id ∷ ids) m = cancel_all ids (remove id m)

module _ {F : Type 0} where
  -- `none` is the panic of `pc.pendingEvents[len(eventsSnap):]`.
  unfoldable pub drain : Copied F → PeerCache F → Option (PeerCache F)
  unfolding cancel_all
  drain c pc =
      if ltb (length pc.pending_events) (length c.events)
      then none
      else some (record pc {
        pending_events = drop (length c.events) pc.pending_events;
        pending_deletes = cancel_all c.deletes pc.pending_deletes;
      })

  unfoldable pub drain_outcome : Db F → Option (PeerCache F) → Outcome F
  drain_outcome db none = panicked
  drain_outcome db (some pc) = flushed pc db

  unfoldable pub store_outcome : Copied F → PeerCache F → Option (Db F) → Outcome F
  unfolding drain drain_outcome
  store_outcome c pc none = failed
  store_outcome c pc (some db) = drain_outcome db (drain c pc)

  -- Flush with nothing in between.
  unfoldable pub flush : (Statement F → Bool) → PeerCache F → Db F → Outcome F
  unfolding copy_cache store store_outcome
  flush runs pc db =
      let c = copy_cache pc in
      if is_empty (values c.peers) && is_empty c.events && is_empty c.deletes
      then flushed pc db
      else store_outcome c pc (store runs c db)
