-- ===== src/Flush/System/Reachable.antt =====
-- The steps of the hub's cache and flusher (peer_cache.go), one by one.
use mathlib.Core.List.{append_assoc, map-append}
use yuanyi.Base.{
  String, Bool, true, ◌||◌, Option, some, List, [], ◌∷◌, length, drop, length-append,
  drop_all-append, ◌≡◌, refl, arith,
}
use yuanyi.Float.{Float64}
use yuanyi.Peer.{GpuInfo, PeerEvent}
use yuanyi.Cache.{PeerCache, queue_event, reset_stats}
use yuanyi.Cache.Invariant.{queue_event-IsValid, reset_stats-IsValid, find-clear_all}
use yuanyi.Db.{Db}
use yuanyi.Db.Batch.{Statement}
use yuanyi.Db.Batch.Laws.{unnumbered, batch_flush_lem}
use yuanyi.Flush.{Copied, store, drain, cancel_all}
use yuanyi.Flush.Covered.{
  has, Covered, find-cancel_all, cache_step-has, cache_step-IsValid, cache_step-events,
}
use yuanyi.Flush.System.{
  Phase, idle, copied, committed, Hub, queued, event_of, Step, calls, audits, resets, copies,
  stores, fails, drains, Reach, here, next,
}
use yuanyi.Flush.System.Safe.{
  Stored, AtCopy, AtCommit, IsSafe, keep-IsSafe, grow-IsSafe, copies-IsSafe,
}

module _ {F : Type 0} ⦃fl : Float64 F⦄ where
  stores-IsSafe :
      (h : Hub F) (c : Copied F) (runs : Statement F → Bool) (db' : Db F)
      → h.phase ≡ copied c
      → store runs c h.db ≡ some db'
      → IsSafe h
      → IsSafe (record h { db = db'; phase = committed c })
  unfolding store
  stores-IsSafe h c runs db' e r s =
      let i : AtCopy c h.cache h.db h.history = rw e at s.in_phase in
      let done = batch_flush_lem runs c.peers c.events c.deletes h.db i.distinct i.keyed r in
      record {
        valid = s.valid;
        covered = λ k p. ground (arith, done.0 k, i.live k, s.covered k);
        in_phase = record {
          gone = λ k p. ground (arith, done.0 k, i.disjoint k, i.known k);
          rest = i.rest;
          queue = i.queue;
          stored =
              rw (done.1, append_assoc, ← map-append unnumbered c.events i.rest, ← i.queue)
                i.stored;
        };
      }

  fails-IsSafe :
      (h : Hub F) (c : Copied F)
      → h.phase ≡ copied c
      → IsSafe h
      → IsSafe (record h { phase = idle })
  fails-IsSafe h c e s =
      let i : AtCopy c h.cache h.db h.history = rw e at s.in_phase in
      record { valid = s.valid; covered = s.covered; in_phase = i.stored }

  -- The queue still begins with what was copied, so the slice is in range.
  drain_lem :
      (h : Hub F) (c : Copied F)
      → h.phase ≡ committed c
      → IsSafe h
      → let i : List PeerEvent = drop (length c.events) h.cache.pending_events in
        (drain c h.cache
          ≡ some (record h.cache {
            pending_events = i;
            pending_deletes = cancel_all c.deletes h.cache.pending_deletes;
          }))
        × Stored h.db i h.history
  unfolding drain
  drain_lem h c e s =
      let i : AtCommit c h.cache h.db h.history = rw e at s.in_phase in
      (
        ground (arith, i.queue, length-append c.events i.rest),
        rw (i.queue, drop_all-append) i.stored,
      )

  drains-IsSafe :
      (h : Hub F) (c : Copied F) (pc' : PeerCache F)
      → h.phase ≡ committed c
      → drain c h.cache ≡ some pc'
      → IsSafe h
      → IsSafe (record h { cache = pc'; phase = idle })
  drains-IsSafe h c pc' e r s =
      let i : AtCommit c h.cache h.db h.history = rw e at s.in_phase in
      let (eq, stored) = drain_lem h c e s in
      let same : record h.cache {
        pending_events = drop (length c.events) h.cache.pending_events;
        pending_deletes = cancel_all c.deletes h.cache.pending_deletes;
      }
          ≡ pc' =
        cc (eq, r) in
      rw (← same) (record {
        valid = record {
          distinct = s.valid.distinct;
          keyed = s.valid.keyed;
          disjoint = λ k.
              ground
                (arith, s.valid.disjoint k, find-cancel_all k c.deletes h.cache.pending_deletes);
        };
        covered = λ k p.
            ground
              (arith, s.covered k, i.gone k, find-cancel_all k c.deletes h.cache.pending_deletes);
        in_phase = stored;
      })

  reset_stats-has :
      (pc : PeerCache F) (k : String)
      → (has k pc.peers || has k pc.pending_deletes) ≡ true
      → (has k (reset_stats pc).0.peers || has k (reset_stats pc).0.pending_deletes) ≡ true
  unfolding reset_stats
  reset_stats-has pc k r = ground (arith, find-clear_all k pc.peers)

  -- Outside a flush every event is stored or queued; past the copy nothing is lost yet; past the
  -- commit the drain is in range.
  abbrev pub Intact : Phase F → PeerCache F → Db F → List PeerEvent → Type 0
  Intact idle pc db history = Stored db pc.pending_events history
  Intact (copied c) pc db history = Stored db pc.pending_events history
  Intact (committed c) pc db history = (pc' : PeerCache F) × (drain c pc ≡ some pc')

  Intact_lem :
      (h : Hub F) (ph : Phase F) → h.phase ≡ ph → IsSafe h → Intact ph h.cache h.db h.history
  Intact_lem h idle e s = rw e at s.in_phase
  Intact_lem h (copied c) e s =
      let i : AtCopy c h.cache h.db h.history = rw e at s.in_phase in i.stored
  Intact_lem h (committed c) e s = (_, (drain_lem h c e s).0)

  module _ {marshal : GpuInfo F → Option String} where
    pub Step-IsSafe : {t u : Hub F} → Step marshal t u → IsSafe t → IsSafe u
    Step-IsSafe (calls h c) s =
        keep-IsSafe h _ (cache_step-IsValid marshal c h.cache s.valid)
          (cache_step-has marshal c h.cache) (cache_step-events marshal c h.cache) s
    Step-IsSafe (audits h a) s =
        unfold queue_event in
        grow-IsSafe h (queued a h.cache) (event_of a ∷ [])
          (queue_event-IsValid a.now a.peer_id a.ip_address a.event_type a.fail_count
            a.penalty_points a.detail h.cache s.valid)
          (λ k r. r) refl s
    Step-IsSafe (resets h) s =
        keep-IsSafe h (reset_stats h.cache).0 (reset_stats-IsValid h.cache s.valid)
          (reset_stats-has h.cache) (unfold reset_stats in refl) s
    Step-IsSafe (copies h e) s = copies-IsSafe h e s
    Step-IsSafe (stores h c runs db' e r) s = stores-IsSafe h c runs db' e r s
    Step-IsSafe (fails h c runs e r) s = fails-IsSafe h c e s
    Step-IsSafe (drains h c pc' e r) s = drains-IsSafe h c pc' e r s

    pub Reach-IsSafe : {t u : Hub F} → Reach marshal t u → IsSafe t → IsSafe u
    Reach-IsSafe here s = s
    Reach-IsSafe (next r st) s = Step-IsSafe st (Reach-IsSafe r s)

    -- Whatever calls, audit events and resets run between the steps of one flusher, from a safe
    -- start: every row of the table belongs to a live peer or to a pending deletion; before a commit
    -- the events of the table followed by the queue are exactly the history; and the drain after a
    -- commit is never out of range.
    pub Reach-events :
        {t u : Hub F}
        → IsSafe t
        → Reach marshal t u
        → Covered u.cache u.db.peers × Intact u.phase u.cache u.db u.history
    Reach-events {u} s r =
        let safe = Reach-IsSafe r s in (safe.covered, Intact_lem u u.phase refl safe)
