-- ===== src/Tests/Flushes.antt =====
-- One flush with calls of the cache between its steps.
use yuanyi.Base.{String, ℤ, pos, [], ◌∷◌, ◌++◌, refl, find, put, remove, inl, get_or}
use yuanyi.Cache.{
  PeerCache, queue_event, upsert_connection, new_peer_cache, connected_peer, blank_peer,
  remove_peer,
}
use yuanyi.Db.{Db}
use yuanyi.Db.Batch.{
  batch_flush, transaction, write_peers, write_events, delete_all, append_event, row_of,
}
use yuanyi.Mirror.{connect, disconnect, cache_step}
use yuanyi.Flush.{copy_cache, store, drain, cancel_all}
use yuanyi.Flush.Covered.{Covered}
use yuanyi.Flush.System.{
  idle, copied, committed, Hub, Audit, queued, event_of, calls, audits, copies, stores, drains,
  Reach, here, next,
}
use yuanyi.Flush.System.Safe.{IsSafe}
use yuanyi.Flush.System.Reachable.{Intact, Reach-events}
use yuanyi.Tests.Sample.{marshal, empty_cache, empty_db, integers, always}

abbrev start : Hub ℤ
start = record { cache = empty_cache; db = empty_db; phase = idle; history = [] }

start-IsSafe : IsSafe start
unfolding new_peer_cache find
start-IsSafe = record {
  valid = record { distinct = tt; keyed = tt; disjoint = λ k. inl refl };
  covered = λ k h. h;
  in_phase = refl;
}

abbrev penalty : String → Audit
penalty peer_id = record {
  now = "12:02";
  peer_id = peer_id;
  ip_address = "";
  event_type = "penalty";
  fail_count = pos 1;
  penalty_points = pos 10;
  detail = "";
}

abbrev met : Hub ℤ
met = record start {
  cache = cache_step marshal (connect "12:01" "peer-one" "10.0.0.2") start.cache;
}

abbrev noted : Hub ℤ
noted = record met {
  cache = queued (penalty "peer-one") met.cache;
  history = met.history ++ event_of (penalty "peer-one") ∷ [];
}

abbrev snapped : Hub ℤ
snapped = record noted { phase = copied (copy_cache noted.cache) }

abbrev left : Hub ℤ
left = record snapped { cache = cache_step marshal (disconnect "peer-one") snapped.cache }

abbrev renoted : Hub ℤ
renoted = record left {
  cache = queued (penalty "peer-two") left.cache;
  history = left.history ++ event_of (penalty "peer-two") ∷ [];
}

abbrev stored_db : Db ℤ
stored_db = get_or (store always (copy_cache noted.cache) renoted.db) empty_db

abbrev written : Hub ℤ
written = record renoted { db = stored_db; phase = committed (copy_cache noted.cache) }

abbrev emptied : PeerCache ℤ
emptied = get_or (drain (copy_cache noted.cache) written.cache) empty_cache

abbrev done : Hub ℤ
done = record written { cache = emptied; phase = idle }

run : Reach marshal start done
unfolding copy_cache store batch_flush transaction write_peers write_events delete_all append_event
    row_of drain cancel_all cache_step upsert_connection remove_peer queue_event connected_peer
    blank_peer new_peer_cache put remove find
run =
    next
      (next
        (next
          (next
            (next
              (next (next here (calls start (connect "12:01" "peer-one" "10.0.0.2")))
                (audits met (penalty "peer-one")))
              (copies noted refl))
            (calls snapped (disconnect "peer-one")))
          (audits left (penalty "peer-two")))
        (stores renoted (copy_cache noted.cache) always stored_db refl refl))
      (drains written (copy_cache noted.cache) emptied refl refl)

-- The event of the second audit waits in the queue, the row of the peer that left for its deletion.
Reach-events_example :
    Covered done.cache done.db.peers × Intact done.phase done.cache done.db done.history
Reach-events_example = Reach-events start-IsSafe run
