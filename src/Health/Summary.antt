-- ===== src/Health/Summary.antt =====
-- The GPU entries of a summary (parseSummaryGPUs of server_p2p.go).
use yuanyi.Base.{
  String, ℤ, pos, true, false, Option, List, [], ◌∷◌, Map, find, find-put, get_or, is_none,
  is_empty, if◌then◌else◌, contains, All, ◌==◌, add64, ◌≡◌, refl, arith, eq_iff, not, ◌||◌,
  Bool-cases, inl, inr,
}
use yuanyi.Peer.{GpuEntry}
use yuanyi.Health.{
  Match, Tally, id_of, num_of, count_match, count_all, entries, parse_summary_gpus, snoc,
}

abbrev pub ids_of : List GpuEntry → List String
ids_of [] = []
ids_of (e ∷ es) = e.id ∷ ids_of es

-- No text occurs twice.
abbrev pub Distinct : List String → Type 0
Distinct [] = Unit
Distinct (s ∷ ss) = (contains s ss ≡ false) × Distinct ss

contains-snoc :
    (k x : String) (xs : List String) → contains k (snoc xs x) ≡ (contains k xs || x == k)
contains-snoc k x [] = ground arith
contains-snoc k x (y ∷ ys) = ground (arith, contains-snoc k x ys)

snoc-Distinct :
    (x : String) (xs : List String) → contains x xs ≡ false → Distinct xs → Distinct (snoc xs x)
snoc-Distinct x [] h d = (refl, tt)
snoc-Distinct x (y ∷ ys) h d = (
  ground (arith, contains-snoc y x ys, d.0, eq_iff x y, eq_iff y x),
  snoc-Distinct x ys (ground arith) d.1,
)

module _ (trim : String → String) (atoi : String → Option ℤ) where
  -- The counts of the matches with an ID, added up from the left.
  abbrev pub total : String → List Match → ℤ → ℤ
  total id [] acc = acc
  total id (m ∷ ms) acc =
      total id ms (if id_of trim atoi m == id then add64 acc (num_of trim atoi m) else acc)

  counts-count_match :
      (id : String) (m : Match) (t : Tally)
      → get_or (find id (count_match trim atoi m t).counts) (pos 0) ≡ (
          if id_of trim atoi m == id
          then add64 (get_or (find id t.counts) (pos 0)) (num_of trim atoi m)
          else get_or (find id t.counts) (pos 0))
  unfolding count_match
  counts-count_match id m t =
      let id' = id_of trim atoi m in
      let n = add64 (get_or (find id' t.counts) (pos 0)) (num_of trim atoi m) in
      rw (find-put id' id n t.counts) (ground (arith, eq_iff id' id))

  counts-count_all :
      (id : String) (ms : List Match) (t : Tally)
      → get_or (find id (count_all trim atoi ms t).counts) (pos 0)
        ≡ total id ms (get_or (find id t.counts) (pos 0))
  unfolding count_all
  counts-count_all id [] t = refl
  counts-count_all id (m ∷ ms) t =
      rw (← counts-count_match id m t) (counts-count_all id ms (count_match trim atoi m t))

  -- The order lists the keys of the counts, each once.
  abbrev Listed : Tally → Type 0
  Listed t =
      Distinct t.order × ((k : String) → contains k t.order ≡ not (is_none (find k t.counts)))

  count_match-Listed : (m : Match) (t : Tally) → Listed t → Listed (count_match trim atoi m t)
  unfolding count_match
  count_match-Listed m t h =
      let id = id_of trim atoi m in
      let n = add64 (get_or (find id t.counts) (pos 0)) (num_of trim atoi m) in
      elim (Bool-cases (is_none (find id t.counts))) [
        | inl new ↦ (
          rw new (snoc-Distinct id t.order (ground (arith, h.1 id)) h.0),
          λ k.
              rw (new, find-put id k n t.counts)
                (ground (arith, contains-snoc k id t.order, h.1 k)),
        )
        | inr old ↦ (
          rw old h.0,
          λ k. rw (old, find-put id k n t.counts) (ground (arith, h.1 k, eq_iff id k)),
        )
      ]

  count_all-Listed : (ms : List Match) (t : Tally) → Listed t → Listed (count_all trim atoi ms t)
  unfolding count_all
  count_all-Listed [] t h = h
  count_all-Listed (m ∷ ms) t h =
      count_all-Listed ms (count_match trim atoi m t) (count_match-Listed m t h)

  ids_of-entries :
      (counts : Map ℤ) (ids : List String) → ids_of (entries trim atoi counts ids) ≡ ids
  unfolding entries
  ids_of-entries counts [] = refl
  ids_of-entries counts (id ∷ ids) = ground (arith, ids_of-entries counts ids)

  entries-All :
      (ms : List Match) (counts : Map ℤ) (ids : List String)
      → ((id : String) → get_or (find id counts) (pos 0) ≡ total id ms (pos 0))
      → All (λ e. e.num ≡ total e.id ms (pos 0)) (entries trim atoi counts ids)
  unfolding entries
  entries-All ms counts [] h = tt
  entries-All ms counts (id ∷ ids) h = (h id, entries-All ms counts ids h)

  kept_match :
      (k : String) (m : Match) (t : Tally)
      → contains k t.order ≡ true
      → contains k (count_match trim atoi m t).order ≡ true
  unfolding count_match
  kept_match k m t h = ground (arith, contains-snoc k (id_of trim atoi m) t.order)

  kept_all :
      (k : String) (ms : List Match) (t : Tally)
      → contains k t.order ≡ true
      → contains k (count_all trim atoi ms t).order ≡ true
  unfolding count_all
  kept_all k [] t h = h
  kept_all k (m ∷ ms) t h = kept_all k ms (count_match trim atoi m t) (kept_match k m t h)

  contains-count_match :
      (m : Match) (t : Tally)
      → Listed t
      → contains (id_of trim atoi m) (count_match trim atoi m t).order ≡ true
  unfolding count_match
  contains-count_match m t h =
      let id = id_of trim atoi m in
      ground (arith, contains-snoc id id t.order, h.1 id, eq_iff id id)

  contains-count_all :
      (ms : List Match) (t : Tally)
      → Listed t
      → All (λ m. contains (id_of trim atoi m) (count_all trim atoi ms t).order ≡ true) ms
  unfolding count_all
  contains-count_all [] t h = tt
  contains-count_all (m ∷ ms) t h =
      let u = count_match trim atoi m t in
      (
        kept_all (id_of trim atoi m) ms u (contains-count_match m t h),
        contains-count_all ms u (count_match-Listed m t h),
      )

  abbrev Complete : List Match → List GpuEntry → Type 0
  Complete ms es =
      Distinct (ids_of es)
      × All (λ e. e.num ≡ total e.id ms (pos 0)) es
      × All (λ m. contains (id_of trim atoi m) (ids_of es) ≡ true) ms

  entries-Complete :
      (ms : List Match)
      → let t : Tally = count_all trim atoi ms (record { counts = []; order = [] }) in
        Complete ms (entries trim atoi t.counts t.order)
  unfolding find
  entries-Complete ms =
      let start : Tally = record { counts = []; order = [] } in
      let listed : Listed start = (tt, λ k. refl) in
      let t = count_all trim atoi ms start in
      let same = ids_of-entries t.counts t.order in
      (
        rw same (count_all-Listed ms start listed).0,
        entries-All ms t.counts t.order (λ id. counts-count_all id ms start),
        rw same (contains-count_all ms start listed),
      )

  if_Complete :
      (ms : List Match) (es : List GpuEntry)
      → Complete ms es
      → Complete ms (if is_empty ms then [] else es)
  if_Complete [] es h = (tt, tt, tt)
  if_Complete (m ∷ ms) es h = h

  -- Whatever the expression matches, the entries of a summary have distinct IDs, each with the sum
  -- on int64 of the counts of its matches (1 where no number is given), and every match has its
  -- entry.
  pub parse_summary_gpus_lem :
      (matches : String → List Match) (summary : String)
      → let es : List GpuEntry = parse_summary_gpus trim atoi matches summary in
        Distinct (ids_of es)
        × All (λ e. e.num ≡ total e.id (matches summary) (pos 0)) es
        × All (λ m. contains (id_of trim atoi m) (ids_of es) ≡ true) (matches summary)
  unfolding parse_summary_gpus
  parse_summary_gpus_lem matches summary =
      if_Complete (matches summary) _ (entries-Complete (matches summary))
