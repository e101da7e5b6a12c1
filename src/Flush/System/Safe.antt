-- ===== src/Flush/System/Safe.antt =====
-- The states of the hub's cache and flusher (peer_cache.go).
use mathlib.Core.List.{append_assoc, append-nil, map-append}
use yuanyi.Base.{
  String, true, false, ◌||◌, List, [], ◌++◌, map, IsMap, contains, contains-keys, ◌≡◌, refl, sym,
  ◌∙◌, arith,
}
use yuanyi.Float.{Float64}
use yuanyi.Peer.{PeerEvent}
use yuanyi.Cache.{PeerCache}
use yuanyi.Cache.Invariant.{Keyed, IsValid}
use yuanyi.Db.{Db}
use yuanyi.Db.Batch.Laws.{unnumbered}
use yuanyi.Flush.{Copied, copy_cache}
use yuanyi.Flush.Covered.{has, Covered}
use yuanyi.Flush.System.{Phase, idle, copied, committed, Hub}

module _ {F : Type 0} where
  -- The events of the table are the history, but for those still in the queue.
  abbrev pub Stored : Db F → List PeerEvent → List PeerEvent → Type 0
  Stored db rest history = map unnumbered db.events ++ map unnumbered rest ≡ map unnumbered history

  pub record AtCopy (c : Copied F) (pc : PeerCache F) (db : Db F) (history : List PeerEvent)
      : Type 0 where
    pub distinct : IsMap c.peers
    pub keyed : Keyed c.peers
    pub disjoint : (k : String) → contains k c.deletes ≡ true → has k c.peers ≡ false
    pub known :
        (k : String) → has k db.peers ≡ true → (has k c.peers || contains k c.deletes) ≡ true
    pub live :
        (k : String) → has k c.peers ≡ true → (has k pc.peers || has k pc.pending_deletes) ≡ true
    pub rest : List PeerEvent
    pub queue : pc.pending_events ≡ c.events ++ rest
    pub stored : Stored db pc.pending_events history

  pub record AtCommit (c : Copied F) (pc : PeerCache F) (db : Db F) (history : List PeerEvent)
      : Type 0 where
    pub gone : (k : String) → has k db.peers ≡ true → contains k c.deletes ≡ false
    pub rest : List PeerEvent
    pub queue : pc.pending_events ≡ c.events ++ rest
    pub stored : Stored db rest history

  abbrev pub InPhase : Phase F → PeerCache F → Db F → List PeerEvent → Type 0
  InPhase idle pc db history = Stored db pc.pending_events history
  InPhase (copied c) pc db history = AtCopy c pc db history
  InPhase (committed c) pc db history = AtCommit c pc db history

  pub record IsSafe (h : Hub F) : Type 0 where
    pub valid : IsValid h.cache
    pub covered : Covered h.cache h.db.peers
    pub in_phase : InPhase h.phase h.cache h.db h.history

module _ {F : Type 0} ⦃fl : Float64 F⦄ where
  Stored-grow :
      (db : Db F) (rest rest' history es : List PeerEvent)
      → rest' ≡ rest ++ es
      → Stored db rest history
      → Stored db rest' (history ++ es)
  Stored-grow db rest rest' history es e h =
      rw (e, map-append unnumbered rest es, ← append_assoc, h)
        (sym (map-append unnumbered history es))

  -- A change of the cache that forgets no peer and appends events to queue and history.
  InPhase-grow :
      (ph : Phase F) (pc pc' : PeerCache F) (db : Db F) (history es : List PeerEvent)
      → ((k : String)
          → (has k pc.peers || has k pc.pending_deletes) ≡ true
          → (has k pc'.peers || has k pc'.pending_deletes) ≡ true)
      → pc'.pending_events ≡ pc.pending_events ++ es
      → InPhase ph pc db history
      → InPhase ph pc' db (history ++ es)
  InPhase-grow idle pc pc' db history es f e i = Stored-grow db _ _ history es e i
  InPhase-grow (copied c) pc pc' db history es f e i = record {
    distinct = i.distinct;
    keyed = i.keyed;
    disjoint = i.disjoint;
    known = i.known;
    live = λ k h. f k (i.live k h);
    rest = i.rest ++ es;
    queue = rw (e, i.queue) (append_assoc c.events i.rest es);
    stored = Stored-grow db _ _ history es e i.stored;
  }
  InPhase-grow (committed c) pc pc' db history es f e i = record {
    gone = i.gone;
    rest = i.rest ++ es;
    queue = rw (e, i.queue) (append_assoc c.events i.rest es);
    stored = Stored-grow db i.rest _ history es refl i.stored;
  }

  pub grow-IsSafe :
      (h : Hub F) (pc' : PeerCache F) (es : List PeerEvent)
      → IsValid pc'
      → ((k : String)
          → (has k h.cache.peers || has k h.cache.pending_deletes) ≡ true
          → (has k pc'.peers || has k pc'.pending_deletes) ≡ true)
      → pc'.pending_events ≡ h.cache.pending_events ++ es
      → IsSafe h
      → IsSafe (record h { cache = pc'; history = h.history ++ es })
  grow-IsSafe h pc' es v f e s = record {
    valid = v;
    covered = λ k r. f k (s.covered k r);
    in_phase = InPhase-grow h.phase h.cache pc' h.db h.history es f e s.in_phase;
  }

  -- The same with no event.
  pub keep-IsSafe :
      (h : Hub F) (pc' : PeerCache F)
      → IsValid pc'
      → ((k : String)
          → (has k h.cache.peers || has k h.cache.pending_deletes) ≡ true
          → (has k pc'.peers || has k pc'.pending_deletes) ≡ true)
      → pc'.pending_events ≡ h.cache.pending_events
      → IsSafe h
      → IsSafe (record h { cache = pc' })
  keep-IsSafe h pc' v f e s =
      rw append-nil at (grow-IsSafe h pc' [] v f (e ∙ sym (append-nil h.cache.pending_events)) s)

  pub copies-IsSafe :
      (h : Hub F)
      → h.phase ≡ idle
      → IsSafe h
      → IsSafe (record h { phase = copied (copy_cache h.cache) })
  unfolding copy_cache
  copies-IsSafe h e s = record {
    valid = s.valid;
    covered = s.covered;
    in_phase = record {
      distinct = s.valid.distinct;
      keyed = s.valid.keyed;
      disjoint = λ k c. ground (arith, contains-keys k h.cache.pending_deletes, s.valid.disjoint k);
      known = λ k r. ground (arith, contains-keys k h.cache.pending_deletes, s.covered k r);
      live = λ k r. ground (arith, r);
      rest = [];
      queue = sym (append-nil h.cache.pending_events);
      stored = rw e at s.in_phase;
    };
  }
