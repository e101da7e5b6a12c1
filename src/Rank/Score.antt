-- ===== src/Rank/Score.antt =====
-- CalculateScore and TriggerUpdate (server_rank.go), and the order of the leaderboard
-- (server_web.go).
use yuanyi.Base.{
  ℕ, suc, ◌+◌, ◌*◌, ℤ, pos, String, Bool, ◌&&◌, ◌||◌, not, List, [], ◌∷◌, Option, none, some,
  is_empty, if◌then◌else◌, leb_ℤ, map, get_or, ◌==◌, length,
}
use yuanyi.Float.{Float64}
use yuanyi.Strings.{Text, codes, text_eq}
use yuanyi.Peer.{PeerData}
use yuanyi.Sort.{slice_stable}
use yuanyi.Rank.{GpuSpec, Library}
use yuanyi.Rank.Numbers.{extract_vram_from_id}
use yuanyi.Rank.Specs.{get_vram, match_gpu_spec}

pub record RankedGpu : Type 0 where
  pub id : Text
  pub num : ℤ

-- What CalculateScore reads of GPUInfo.
pub record RankInfo : Type 0 where
  pub role : Text
  pub summary : Text
  pub gpus : List RankedGpu

-- `unmarshal` reads a GPUInfo, `text_of` is the same string as a text, `parse_summary` is
-- parseSummaryGPUs. `gpu_map` is what getGPUMap returns, in the order in which the `range` of
-- matchGPUSpec meets it: Go leaves it open, and it may be another one for each call of CalculateScore,
-- which the first number tells, and for each card in it, which the number of cards left tells.
pub record Ranker (F : Type 0) : Type 0 where
  pub lib : Library F
  pub unmarshal : String → Option RankInfo
  pub text_of : String → Text
  pub parse_summary : Text → List RankedGpu
  pub gpu_map : ℕ → ℕ → List (Text × GpuSpec F)

pub record RankedPeer (F : Type 0) : Type 0 where
  pub peer : PeerData F
  pub score : F

-- An entry of top.json: the peer, the rounded score and the position.
pub record RankedResult (F : Type 0) : Type 0 where
  pub peer : PeerData F
  pub score : ℤ
  pub rank_position : ℕ

module _ {F : Type 0} ⦃fl : Float64 F⦄ where
  abbrev pub positive_score : F → Bool
  positive_score v = fl.lt (fl.of_int (pos 0)) v

  abbrev pub multiplier : F
  multiplier = fl.of_int (pos 300)

  -- float64(defaultVRAMGB * vramScoreMultiplier)
  abbrev pub fallback : F
  fallback = fl.of_int (pos (16 * 300))

  -- The capacity of a card: stated or known by its model, from the database, or the default.
  unfoldable pub vram_of : Ranker F → List (Text × GpuSpec F) → Text → F
  unfolding match_gpu_spec extract_vram_from_id get_vram
  vram_of rm specs id =
      let listed : F = elim (match_gpu_spec rm.lib.lower id specs) [
        | none ↦ fl.of_int (pos 0)
        | some (spec, key) ↦ get_vram rm.lib spec
      ] in
      let vram = get_or (extract_vram_from_id rm.lib id) listed in
      if positive_score vram then vram else fl.of_int (pos 16)

  -- The loop over the cards.
  unfoldable pub total_score : Ranker F → ℕ → F → List RankedGpu → F
  unfolding vram_of
  total_score rm call total [] = total
  total_score rm call total (g ∷ gpus) =
      let num = if leb_ℤ g.num (pos 0) then pos 1 else g.num in
      let vram = vram_of rm (rm.gpu_map call (length gpus)) g.id in
      total_score rm call (fl.add total (fl.mul (fl.mul vram multiplier) (fl.of_int num))) gpus

  -- The cards that were reported, or those of the summary.
  abbrev pub gpus_of : Ranker F → RankInfo → List RankedGpu
  gpus_of rm info =
      if is_empty info.gpus && not (is_empty info.summary)
      then rm.parse_summary info.summary
      else info.gpus

  -- The score of a GPUInfo that decodes.
  unfoldable pub score_of : Ranker F → ℕ → RankInfo → F
  unfolding total_score text_eq
  score_of rm call info =
      let total = total_score rm call (fl.of_int (pos 0)) (gpus_of rm info) in
      if text_eq info.role (codes "relay") || text_eq info.summary (codes "No GPU Detected")
      then fl.of_int (pos 0)
      else if positive_score total
      then total
      else fallback

  -- The score of one that does not.
  unfoldable pub score_of_text : Ranker F → String → F
  unfolding extract_vram_from_id
  score_of_text rm s = elim (if s == "" then none else extract_vram_from_id rm.lib (rm.text_of s)) [
    | none ↦ fallback
    | some vram ↦ if positive_score vram then fl.mul vram multiplier else fallback
  ]

  -- The number tells the calls apart.
  unfoldable pub calculate_score : Ranker F → ℕ → String → F
  unfolding score_of score_of_text
  calculate_score rm call s = elim (rm.unmarshal s) [
    | none ↦ score_of_text rm s
    | some info ↦ score_of rm call info
  ]

  -- `calls` gives the call that each peer gets.
  abbrev pub score_in : Ranker F → (PeerData F → ℕ) → PeerData F → F
  score_in rm calls p = calculate_score rm (calls p) p.gpu_info

  abbrev pub ranked_peer : Ranker F → (PeerData F → ℕ) → PeerData F → RankedPeer F
  ranked_peer rm calls p = record { peer = p; score = score_in rm calls p }

  abbrev pub higher : RankedPeer F → RankedPeer F → Bool
  higher a b = fl.lt b.score a.score

  -- The loop that numbers the sorted peers; `i` is the index of the first.
  unfoldable pub number_from : ℕ → List (RankedPeer F) → List (RankedResult F)
  number_from i [] = []
  number_from i (rp ∷ rps) =
      record { peer = rp.peer; score = fl.round rp.score; rank_position = i + 1 }
      ∷ number_from (suc i) rps

  -- The list that TriggerUpdate publishes for a snapshot.
  unfoldable pub trigger_update :
      Ranker F → (PeerData F → ℕ) → List (PeerData F) → List (RankedResult F)
  unfolding number_from slice_stable
  trigger_update rm calls peers =
      number_from 0 (slice_stable higher (map (ranked_peer rm calls) peers))

  -- The `less` of the leaderboard and of the peer list.
  unfoldable pub board_less : (String → String → Bool) → RankedPeer F → RankedPeer F → Bool
  board_less str_lt a b =
      if fl.eq a.score b.score then str_lt a.peer.peer_id b.peer.peer_id else fl.lt b.score a.score

  -- /hub/api/leaderboard; without a RankManager every score is 0.
  unfoldable pub leaderboard :
      (String → String → Bool)
      → Option (Ranker F)
      → (PeerData F → ℕ)
      → List (PeerData F)
      → List (RankedPeer F)
  unfolding slice_stable board_less calculate_score
  leaderboard str_lt none calls peers =
      slice_stable (board_less str_lt)
        (map (λ p. record { peer = p; score = fl.of_int (pos 0) }) peers)
  leaderboard str_lt (some rm) calls peers =
      slice_stable (board_less str_lt) (map (ranked_peer rm calls) peers)
