-- ===== src/Tests/Ranks.antt =====
-- The ranking (server_rank.go) and the leaderboard (server_web.go) at concrete peers.
use mathlib.Core.List.{Permᴰ}
use yuanyi.Base.{
  subst, All, find, ℕ, ◌+◌, ◌*◌, ◌-◌, String, ℤ, pos, sub_ℕ, Bool, true, false, List, [], ◌∷◌,
  Option, none, some, ◌≡◌, refl, inr, arith, map, nat_eq, if◌then◌else◌, ◌==◌, eq_iff, leb_ℤ,
}
use yuanyi.Strings.{Text, codes, text_eq, to_lower, all_chars}
use yuanyi.Peer.{PeerData}
use yuanyi.Cache.{PeerCache, snapshot}
use yuanyi.Cache.Invariant.{IsValid}
use yuanyi.Strings.Order.{str_lt, str_lt-IsTextOrder}
use yuanyi.Sort.{slice_stable}
use yuanyi.Sort.Scores.{IsDistinct}
use yuanyi.Rank.{text, GpuSpec, Library}
use yuanyi.Rank.Numbers.{extract_number, extract_vram_from_id}
use yuanyi.Rank.Specs.{match_gpu_spec}
use yuanyi.Rank.Score.{
  gpus_of, Ranker, RankInfo, RankedResult, calculate_score, trigger_update, leaderboard,
}
use yuanyi.Rank.Order.{idle_last, is_idle, IsRanked, peer_of_result, trigger_update_lem}
use yuanyi.Rank.Ranges.{extract_number-range}
use yuanyi.Rank.Board.{IsSized, id_of_peer, leaderboard-perm, snapshot_less-IsSortOf, snapshot-perm}
use yuanyi.Tests.Sample.{integers}

-- Decimal numbers with a sign.
abbrev digits_from : ℕ → Text → ℕ
digits_from n [] = n
digits_from n (c ∷ s) = digits_from (10 * n + (c - 48)) s

abbrev parse : Text → Option ℤ
parse [] = none
parse (c ∷ s) =
    if nat_eq c 45 then some (sub_ℕ 0 (digits_from 0 s)) else some (pos (digits_from 0 (c ∷ s)))

abbrev to_upper : ℕ → ℕ
to_upper c = if leb_ℤ (pos 97) (pos c) then (if leb_ℤ (pos c) (pos 122) then c - 32 else c) else c

abbrev lib : Library ℤ
lib = record { parse_float = parse; lower = map to_lower; upper = map to_upper }

-- "$1,200" is read as the average of 1 and 200, cut to an integer here.
extract_price : extract_number lib (text (codes "$1,200")) ≡ some (pos 100)
unfolding integers extract_number
extract_price = refl

extract_unit : extract_number lib (text (codes " 24 GB")) ≡ some (pos 24)
unfolding integers extract_number
extract_unit = refl

extract_number-range_example : extract_number lib (text (codes "10-12")) ≡ some (sub_ℕ 0 1)
unfolding integers all_chars extract_number
extract_number-range_example =
    extract_number-range lib 49 49 (codes "0") (codes "2") refl refl refl refl refl

vram_megabytes : extract_vram_from_id lib (codes "RTX 4090(24576 MB)") ≡ some (pos 24)
unfolding integers extract_vram_from_id
vram_megabytes = refl

vram_gigabytes : extract_vram_from_id lib (codes "Card 48 gb") ≡ some (pos 48)
unfolding integers extract_vram_from_id
vram_gigabytes = refl

vram_known : extract_vram_from_id lib (codes "nvidia a100-sxm") ≡ some (pos 80)
unfolding integers extract_vram_from_id
vram_known = refl

abbrev spec_a : Text × GpuSpec ℤ
spec_a = (codes "RTX_X1", (codes "Memory Size (GiB)", text (codes "10")) ∷ [])

abbrev spec_b : Text × GpuSpec ℤ
spec_b = (codes "rtx x1", (codes "Memory Size (GiB)", text (codes "20")) ∷ [])

-- Two keys that compare loosely as equal: the one met first wins.
match_order :
    (match_gpu_spec (map to_lower) (codes "RTX X1(0 MB)") (spec_a ∷ spec_b ∷ [])
      ≡ some (spec_a.1, spec_a.0))
    × (match_gpu_spec (map to_lower) (codes "RTX X1(0 MB)") (spec_b ∷ spec_a ∷ [])
        ≡ some (spec_b.1, spec_b.0))
unfolding match_gpu_spec
match_order = (refl, refl)

-- A GPUInfo is its role here.
abbrev read_info : String → Option RankInfo
read_info s =
    if s == "broken"
    then none
    else if s == "relay"
    then some (record { role = codes "relay"; summary = []; gpus = [] })
    else some (record {
      role = [];
      summary = [];
      gpus = record { id = codes "RTX 4090"; num = pos 2 } ∷ [];
    })

abbrev rm : Ranker ℤ
rm = record {
  lib = lib;
  unmarshal = read_info;
  text_of = λ s. [];
  parse_summary = λ s. [];
  gpu_map = λ call left. [];
}

abbrev calls : PeerData ℤ → ℕ
calls p = 0

abbrev peer_of : String → String → PeerData ℤ
peer_of id info = record {
  peer_id = id;
  gpu_info = info;
  ip_address = "";
  last_ping = "";
  bootstrap_addr = "";
  engine_id = "";
  fail_count = pos 0;
  penalty_points = pos 0;
  total_requests = pos 0;
  total_tokens = pos 0;
  in_tokens = pos 0;
  out_tokens = pos 0;
  contribution_score = pos 7;
  role = "";
  ip_verified = false;
}

abbrev pair : List (PeerData ℤ)
pair = peer_of "b" "relay" ∷ peer_of "a" "gpu" ∷ []

abbrev ranked : PeerData ℤ → ℤ → ℕ → RankedResult ℤ
ranked p s n = record { peer = p; score = s; rank_position = n }

publish_pair :
    trigger_update rm calls pair
    ≡ ranked (peer_of "a" "gpu") (pos 14400) 1 ∷ ranked (peer_of "b" "relay") (pos 0) 2 ∷ []
unfolding integers trigger_update calculate_score
publish_pair = refl

trigger_update_lem_example :
    IsRanked rm calls 0 (trigger_update rm calls pair)
    × Permᴰ pair (map peer_of_result (trigger_update rm calls pair))
trigger_update_lem_example = trigger_update_lem rm calls pair

score_broken : calculate_score rm 1 "broken" ≡ pos 4800
unfolding integers calculate_score
score_broken = refl

abbrev idle : RankInfo
idle = record { role = codes "relay"; summary = []; gpus = [] }

abbrev relays : List (PeerData ℤ)
relays = peer_of "b" "relay" ∷ peer_of "a" "relay" ∷ []

idle_last_example : is_idle idle ≡ true
unfolding integers trigger_update calculate_score text_eq
idle_last_example =
    idle_last rm calls relays 0 1 (ranked (peer_of "b" "relay") (pos 0) 1)
      (ranked (peer_of "a" "relay") (pos 0) 2) idle idle refl refl (omega arith) refl refl refl

differ : ◌≡◌ {A = String} "b" "a" → ⊥
differ e = cc ((eq_iff "b" "a").1 e)

pair-IsDistinct : IsDistinct id_of_peer pair
pair-IsDistinct = ((λ e. absurd (differ e), tt), (tt, tt))

abbrev swapped : List (PeerData ℤ)
swapped = peer_of "a" "gpu" ∷ peer_of "b" "relay" ∷ []

-- Two calls that search the database in other orders.
abbrev searching : Ranker ℤ
searching = record rm {
  gpu_map = λ call left. if nat_eq call 0 then spec_a ∷ spec_b ∷ [] else spec_b ∷ spec_a ∷ [];
}

abbrev others : PeerData ℤ → ℕ
others p = 1

abbrev AllSized : Option RankInfo → Type 0
AllSized none = Unit
AllSized (some info) =
    All (λ g. (v : ℤ) × (extract_vram_from_id lib g.id ≡ some v)) (gpus_of searching info)

relay-IsSized : IsSized searching (peer_of "b" "relay")
relay-IsSized info e = subst AllSized e tt

gpu-IsSized : IsSized searching (peer_of "a" "gpu")
unfolding integers extract_vram_from_id
gpu-IsSized info e = subst AllSized e ((pos 24, refl), tt)

leaderboard-perm_example :
    leaderboard str_lt (some searching) calls pair
    ≡ leaderboard str_lt (some searching) others swapped
leaderboard-perm_example =
    leaderboard-perm str_lt str_lt-IsTextOrder searching calls others (Permᴰ.swap refl refl)
      pair-IsDistinct (relay-IsSized, (gpu-IsSized, tt))

abbrev cache_of : List (PeerData ℤ) → PeerCache ℤ
cache_of peers = record {
  peers = map (λ p. (p.peer_id, p)) peers;
  pending_events = [];
  pending_deletes = [];
}

abbrev stable : (PeerData ℤ → PeerData ℤ → Bool) → List (PeerData ℤ) → List (PeerData ℤ)
stable less = slice_stable less

pair-IsValid : IsValid (cache_of pair)
unfolding find
pair-IsValid = record {
  distinct = (refl, (refl, tt));
  keyed = (refl, (refl, tt));
  disjoint = λ k. inr refl;
}

snapshot-perm_example :
    snapshot stable str_lt (cache_of pair) ≡ snapshot stable str_lt (cache_of swapped)
snapshot-perm_example =
    snapshot-perm str_lt str_lt-IsTextOrder stable stable (cache_of pair) (cache_of swapped)
      (snapshot_less-IsSortOf str_lt str_lt-IsTextOrder)
      (snapshot_less-IsSortOf str_lt str_lt-IsTextOrder) pair-IsValid (Permᴰ.swap refl refl)
