-- ===== src/Rank/Board.antt =====
-- The leaderboard and Snapshot do not show the order of a Go map (server_web.go, peer_cache.go).
use mathlib.Core.List.{Permᴰ}
use mathlib.Core.Path.{fun_ext}
use yuanyi.Base.{
  ℕ, refl, ap, length, leb_ℤ, if◌then◌else◌, Option-cases, pos, String, Bool, List, [], ◌∷◌, none,
  some, ◌≡◌, ◌≢◌, sym, ◌∙◌, All, All-imp, arith, Bool-cases, inl, inr, map, Map, find, values,
  IsMap, eq_refl, ◌==◌, subst,
}
use yuanyi.Float.{Float64}
use yuanyi.Peer.{PeerData}
use yuanyi.Cache.{PeerCache, snapshot, snapshot_less}
use yuanyi.Cache.Invariant.{IsValid, Keyed}
use yuanyi.Sort.{IsOrder, IsTotalOn, slice_stable, IsSortOf, map-Permᴰ}
use yuanyi.Sort.Stable.{IsWeakOrder, slice_stable-IsSortOf}
use yuanyi.Sort.Unique.{slice_stable-perm, IsSortOf-eq}
use yuanyi.Sort.Scores.{
  IsTextOrder, IsDistinct, score_less, score_less-IsOrder, score_less-IsWeakOrder,
  score_less-IsTotalOn,
}
use yuanyi.Strings.{Text}
use yuanyi.Rank.{GpuSpec}
use yuanyi.Rank.Numbers.{extract_vram_from_id}
use yuanyi.Rank.Score.{
  Ranker, RankInfo, RankedGpu, RankedPeer, ranked_peer, gpus_of, vram_of, multiplier, total_score,
  score_of, score_in, board_less, calculate_score, leaderboard,
}

All-map :
    {A B : Type 0} (f : A → B) (P : B → Type 0) (xs : List A)
    → All (λ x. P (f x)) xs
    → All P (map f xs)
All-map f P [] h = tt
All-map f P (x ∷ xs) h = (h.0, All-map f P xs h.1)

module _ {F : Type 0} where
  abbrev pub id_of_peer : PeerData F → String
  id_of_peer p = p.peer_id

  abbrev score_of_entry : RankedPeer F → F
  score_of_entry rp = rp.score

  abbrev id_of_entry : RankedPeer F → String
  id_of_entry rp = rp.peer.peer_id

  abbrev score_of_peer : PeerData F → F
  score_of_peer p = p.contribution_score

  abbrev entry : (PeerData F → F) → PeerData F → RankedPeer F
  entry g p = record { peer = p; score = g p }

  IsDistinct-map :
      (g : PeerData F → F) (peers : List (PeerData F))
      → IsDistinct id_of_peer peers
      → IsDistinct id_of_entry (map (entry g) peers)
  IsDistinct-map g [] d = tt
  IsDistinct-map g (p ∷ ps) d =
      (All-map (entry g) (λ e. p.peer_id ≢ e.peer.peer_id) ps d.0, IsDistinct-map g ps d.1)

  -- The entries of a cache have different IDs.
  missing-All :
      (k : String) (m : Map (PeerData F))
      → find k m ≡ none
      → Keyed m
      → All (λ p. k ≢ p.peer_id) (values m)
  unfolding find
  missing-All k [] h v = tt
  missing-All k ((j, p) ∷ m) h v = elim (Bool-cases (j == k)) [
    | inl e ↦ ground arith
    | inr e ↦ (λ same. cc (eq_refl k, same, v.0, e), missing-All k m (ground arith) v.1)
  ]

  values-IsDistinct : (m : Map (PeerData F)) → IsMap m → Keyed m → IsDistinct id_of_peer (values m)
  values-IsDistinct [] h v = tt
  values-IsDistinct ((k, p) ∷ m) h v = (
    All-imp {P = λ q. k ≢ q.peer_id} (values m) (λ q n e. n (sym v.0 ∙ e))
        (missing-All k m h.0 v.1),
    values-IsDistinct m h.1 v.1,
  )

module _ {F : Type 0} ⦃fl : Float64 F⦄ where
  -- The text of every card of the peer states its memory or names a known model.
  abbrev pub IsSized : Ranker F → PeerData F → Type 0
  IsSized rm p =
      (info : RankInfo)
      → rm.unmarshal p.gpu_info ≡ some info
      → All (λ g. (v : F) × (extract_vram_from_id rm.lib g.id ≡ some v)) (gpus_of rm info)

  vram_of-Sized :
      (rm : Ranker F) (specs specs' : List (Text × GpuSpec F)) (id : Text) (v : F)
      → extract_vram_from_id rm.lib id ≡ some v
      → vram_of rm specs id ≡ vram_of rm specs' id
  unfolding vram_of
  vram_of-Sized rm specs specs' id v e = rw (e, vram_of) refl

  total_score-Sized :
      (rm : Ranker F) (call call' : ℕ) (total : F) (gpus : List RankedGpu)
      → All (λ g. (v : F) × (extract_vram_from_id rm.lib g.id ≡ some v)) gpus
      → total_score rm call total gpus ≡ total_score rm call' total gpus
  unfolding total_score
  total_score-Sized rm call call' total [] h = refl
  total_score-Sized rm call call' total (g ∷ gpus) ((v, e), h) =
      let specs = rm.gpu_map call (length gpus) in
      let specs' = rm.gpu_map call' (length gpus) in
      let num = if leb_ℤ g.num (pos 0) then pos 1 else g.num in
      let after : F → F = λ vram. fl.add total (fl.mul (fl.mul vram multiplier) (fl.of_int num)) in
      ap (λ vram. total_score rm call (after vram) gpus) (vram_of-Sized rm specs specs' g.id v e)
      ∙ total_score-Sized rm call call' (after (vram_of rm specs' g.id)) gpus h

  calculate_score-Sized :
      (rm : Ranker F) (call call' : ℕ) (p : PeerData F)
      → IsSized rm p
      → calculate_score rm call p.gpu_info ≡ calculate_score rm call' p.gpu_info
  unfolding calculate_score score_of
  calculate_score-Sized rm call call' p h = elim (Option-cases (rm.unmarshal p.gpu_info)) [
    | inl n ↦ rw (n, calculate_score) refl
    | inr (info, e) ↦
        rw (e, calculate_score)
          (rw (total_score-Sized rm call call' (fl.of_int (pos 0)) (gpus_of rm info) (h info e))
            refl)
  ]

  ranked-Sized :
      (rm : Ranker F) (calls calls' : PeerData F → ℕ) (peers : List (PeerData F))
      → All (IsSized rm) peers
      → map (ranked_peer rm calls) peers ≡ map (ranked_peer rm calls') peers
  ranked-Sized rm calls calls' [] h = refl
  ranked-Sized rm calls calls' (p ∷ ps) h =
      ap (λ v. record { peer = p; score = v } ∷ map (ranked_peer rm calls) ps)
        (calculate_score-Sized rm (calls p) (calls' p) p h.0)
      ∙ ap (λ l. ranked_peer rm calls' p ∷ l) (ranked-Sized rm calls calls' ps h.1)

module _ {F : Type 0} ⦃fl : Float64 F⦄ (str_lt : String → String → Bool)
    (o : IsTextOrder str_lt) where
  board-perm :
      (g : PeerData F → F) {peers peers' : List (PeerData F)}
      → Permᴰ peers peers'
      → IsDistinct id_of_peer peers
      → slice_stable (board_less str_lt) (map (entry g) peers)
        ≡ slice_stable (board_less str_lt) (map (entry g) peers')
  unfolding board_less
  board-perm g {peers} p d =
      slice_stable-perm (score_less score_of_entry id_of_entry str_lt)
        (score_less-IsOrder score_of_entry id_of_entry str_lt o) (map-Permᴰ (entry g) p)
        (score_less-IsTotalOn score_of_entry id_of_entry str_lt o (map (entry g) peers)
          (IsDistinct-map g peers d))

  -- If string comparison is a total order, no ID occurs twice, and the text of every card of every
  -- peer states its memory or names a known model, the leaderboard is one list for all orders in
  -- which the peers may come, and for all orders in which the database of cards is searched.
  pub leaderboard-perm :
      (rm : Ranker F) (calls calls' : PeerData F → ℕ) {peers peers' : List (PeerData F)}
      → Permᴰ peers peers'
      → IsDistinct id_of_peer peers
      → All (IsSized rm) peers
      → leaderboard str_lt (some rm) calls peers ≡ leaderboard str_lt (some rm) calls' peers'
  unfolding leaderboard
  leaderboard-perm rm calls calls' {peers} p d sized =
      ap (slice_stable (board_less str_lt)) (ranked-Sized rm calls calls' peers sized)
      ∙ board-perm (score_in rm calls') p d

  snapshot_less-eq :
      (x y : PeerData F) → score_less score_of_peer id_of_peer str_lt x y ≡ snapshot_less str_lt x y
  unfolding snapshot_less
  snapshot_less-eq x y = ground arith

  snapshot_order :
      score_less {F = F} {A = PeerData F} score_of_peer id_of_peer str_lt ≡ snapshot_less str_lt
  snapshot_order = fun_ext (λ x. fun_ext (λ y. snapshot_less-eq x y))

  -- The stable sort is one that sorts by this order.
  pub snapshot_less-IsSortOf :
      (peers : List (PeerData F))
      → IsSortOf (snapshot_less str_lt) peers (slice_stable (snapshot_less str_lt) peers)
  snapshot_less-IsSortOf = slice_stable-IsSortOf (snapshot_less str_lt) (
      subst (λ (less : PeerData F → PeerData F → Bool). IsWeakOrder less) snapshot_order
        (score_less-IsWeakOrder score_of_peer id_of_peer str_lt o))

  -- If string comparison is a total order, two valid caches with the same entries have one
  -- snapshot, whatever the orders of their maps, and whatever two functions sort them, as long as
  -- these sort.
  pub snapshot-perm :
      (sort sort' : (PeerData F → PeerData F → Bool) → List (PeerData F) → List (PeerData F))
      (pc pc' : PeerCache F)
      → ((peers : List (PeerData F))
          → IsSortOf (snapshot_less str_lt) peers (sort (snapshot_less str_lt) peers))
      → ((peers : List (PeerData F))
          → IsSortOf (snapshot_less str_lt) peers (sort' (snapshot_less str_lt) peers))
      → IsValid pc
      → Permᴰ (values pc.peers) (values pc'.peers)
      → snapshot sort str_lt pc ≡ snapshot sort' str_lt pc'
  unfolding snapshot
  snapshot-perm sort sort' pc pc' s s' v p =
      IsSortOf-eq (snapshot_less str_lt)
        (subst (λ (less : PeerData F → PeerData F → Bool). IsOrder less) snapshot_order
          (score_less-IsOrder score_of_peer id_of_peer str_lt o))
        (s (values pc.peers)) (s' (values pc'.peers)) p
        (subst (λ (less : PeerData F → PeerData F → Bool). IsTotalOn less (values pc.peers))
          snapshot_order
          (score_less-IsTotalOn score_of_peer id_of_peer str_lt o (values pc.peers)
            (values-IsDistinct pc.peers v.distinct v.keyed)))
