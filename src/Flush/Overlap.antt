-- ===== src/Flush/Overlap.antt =====
-- Two calls of Flush at once: the periodic flusher and the reset_stats handler (server_web.go) both
-- call it, and nothing keeps their copies and drains apart.
use mathlib.Core.List.{append_assoc}
use yuanyi.Base.{
  Bool-cases, inl, inr, if◌then◌else◌, Option, Bool, none, some, List, [], ◌++◌, map, length, drop,
  drop_all-append, length-append, ltb, ℕ, zero, suc, ◌>>=◌, ◌+◌, ◌∷◌, false, ◌≡◌, refl, ap, ◌∙◌,
  arith,
}
use yuanyi.Peer.{PeerEvent}
use yuanyi.Cache.{PeerCache}
use yuanyi.Cache.Invariant.{IsValid}
use yuanyi.Db.{Db}
use yuanyi.Db.Batch.{Statement}
use yuanyi.Db.Batch.Laws.{unnumbered, batch_flush_lem}
use yuanyi.Flush.{copy_cache, store, drain}

drop_more : (m n : ℕ) (xs ys : List PeerEvent) → m ≡ length xs + n → drop m (xs ++ ys) ≡ drop n ys
drop_more m n [] ys h = ap (λ k. drop k ys) (omega (arith, h))
drop_more zero n (x ∷ xs) ys h = absurd (omega (arith, h))
drop_more (suc m) n (x ∷ xs) ys h = drop_more m n xs ys (omega (arith, h))

module _ {F : Type 0} where
  -- The cache with more events in its queue.
  unfoldable pub queued : PeerCache F → List PeerEvent → PeerCache F
  queued pc es = record pc { pending_events = pc.pending_events ++ es }

  -- The events that two flushes leave in the queue: the first copies the cache `pc`, the second when
  -- the events `a` have come to it, the first drains when `b` have come after these, and the second
  -- when `c` have.
  unfoldable pub both_drains :
      PeerCache F → List PeerEvent → List PeerEvent → List PeerEvent → Option (List PeerEvent)
  unfolding drain queued
  both_drains pc a b c = do
    let first = copy_cache pc
    let second = copy_cache (queued pc a)
    once ← drain first (queued (queued pc a) b)
    twice ← drain second (queued once c)
    some twice.pending_events

  -- When two flushes both copy the cache before either drains it, whatever is queued between the
  -- four steps, the second drain panics if fewer events were queued after the second copy than the
  -- first flush had copied, and otherwise it drops as many of these new events as that.
  pub both_drains_lem :
      (pc : PeerCache F) (a b c : List PeerEvent)
      → both_drains pc a b c ≡ (
          if ltb (length (b ++ c)) (length pc.pending_events)
          then none
          else some (drop (length pc.pending_events) (b ++ c)))
  unfolding both_drains drain copy_cache queued
  both_drains_lem pc a b c =
      let q = pc.pending_events in
      let first : ltb (length ((q ++ a) ++ b)) (length q) ≡ false =
        ground (arith, length-append (q ++ a) b, length-append q a) in
      let second : ltb (length ((a ++ b) ++ c)) (length (q ++ a))
          ≡ ltb (length (b ++ c)) (length q) =
        ground (
          arith,
          length-append (a ++ b) c,
          length-append a b,
          length-append q a,
          length-append b c,
        ) in
      let left : drop (length q) ((q ++ a) ++ b) ≡ a ++ b =
        rw (append_assoc q a b) (drop_all-append q (a ++ b)) in
      let size : length (q ++ a) ≡ length a + length q = omega (arith, length-append q a) in
      let last : drop (length (q ++ a)) ((a ++ b) ++ c) ≡ drop (length q) (b ++ c) =
        rw (append_assoc a b c) (drop_more (length (q ++ a)) (length q) a (b ++ c) size) in
      elim (Bool-cases (ltb (length (b ++ c)) (length q))) [
        | inl e ↦ rw (first, left, second) (rw e refl)
        | inr e ↦ rw (first, left, second) (rw (e, last) refl)
      ]

  -- Both transactions insert the copied events, so each of these is in the table twice.
  pub overlapping_stores :
      (pc : PeerCache F) (runs : Statement F → Bool) (db : Db F) {db₁ db₂ : Db F}
      → IsValid pc
      → store runs (copy_cache pc) db ≡ some db₁
      → store runs (copy_cache pc) db₁ ≡ some db₂
      → map unnumbered db₂.events
        ≡ map unnumbered db.events
          ++ map unnumbered pc.pending_events
          ++ map unnumbered pc.pending_events
  unfolding store copy_cache
  overlapping_stores pc runs db {db₁} v e₁ e₂ =
      let first = batch_flush_lem runs pc.peers pc.pending_events _ db v.distinct v.keyed e₁ in
      let second = batch_flush_lem runs pc.peers pc.pending_events _ db₁ v.distinct v.keyed e₂ in
      second.1 ∙ ap (λ es. es ++ map unnumbered pc.pending_events) first.1
