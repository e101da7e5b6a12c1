-- ===== src/Rank/Numbers.antt =====
-- Numbers in the fields of the specification database and in model names (server_rank.go).
use yuanyi.Base.{
  ℕ, zero, suc, ◌+◌, ◌-◌, pos, Bool, ◌||◌, not, List, [], ◌∷◌, ◌++◌, Option, none, some, is_empty,
  if◌then◌else◌, nat_eq, ◌>>=◌, ◌>>◌, guard, length, map, get_or,
}
use yuanyi.Float.{Float64}
use yuanyi.Strings.{
  Text, codes, text_eq, strip_prefix, has_infix, trim_space, span, is_digit, is_re_space, to_lower,
}
use yuanyi.Rank.{RawJson, number, text, null, other_json, Library}

-- (\.\d+)?
abbrev pub fraction : Text → Text
fraction s = elim (strip_prefix (codes ".") s) [
  | none ↦ []
  | some r ↦ let run = span is_digit r in if is_empty run.0 then [] else 46 ∷ run.0
]

-- numberRe at the start of a text: the match.
unfoldable pub match_number : Text → Option Text
unfolding strip_prefix span
match_number s =
    let sign : Text = elim (strip_prefix (codes "-") s) [ none ↦ [] | some r ↦ codes "-" ] in
    let run = span is_digit (get_or (strip_prefix (codes "-") s) s) in
    if is_empty run.0 then none else some (sign ++ (run.0 ++ fraction run.1))

-- FindAllString; `skip` counts the characters left of the last match.
unfoldable pub find_numbers : ℕ → Text → List Text
unfolding match_number
find_numbers skip [] = []
find_numbers (suc skip) (c ∷ s) = find_numbers skip s
find_numbers zero (c ∷ s) = elim (match_number (c ∷ s)) [
  | none ↦ find_numbers zero s
  | some m ↦ m ∷ find_numbers (length m - 1) s
]

-- strings.TrimPrefix(s, "$")
unfoldable pub without_dollar : Text → Text
unfolding strip_prefix
without_dollar s = get_or (strip_prefix (codes "$") s) s

-- One parsed match; one that cannot be parsed is passed over.
abbrev pub add_match : {F : Type 0} ⦃fl : Float64 F⦄ → Option F → F × ℕ → F × ℕ
add_match none total = total
add_match ⦃fl⦄ (some x) (sum, count) = (fl.add sum x, count + 1)

module _ {F : Type 0} ⦃fl : Float64 F⦄ (lib : Library F) where
  -- The loop over several matches: the sum and the count.
  unfoldable pub sum_matches : F × ℕ → List Text → F × ℕ
  sum_matches total [] = total
  sum_matches total (m ∷ ms) = sum_matches (add_match (lib.parse_float m) total) ms

  abbrev pub average : List Text → Option F
  average [] = none
  average (m ∷ []) = lib.parse_float m
  average (m ∷ n ∷ ms) =
      let total = sum_matches (fl.of_int (pos 0), 0) (m ∷ n ∷ ms) in
      if nat_eq total.1 0 then none else some (fl.div total.0 (fl.of_int (pos total.1)))

  -- The texts that stand for a missing value.
  unfoldable pub is_missing : Text → Bool
  unfolding text_eq
  is_missing s =
      let lower = lib.lower s in
      is_empty s
      || text_eq s (codes "?")
      || text_eq lower (codes "-n/a")
      || text_eq lower (codes "nan")

  -- A field that is a text.
  unfoldable pub number_in : Text → Option F
  unfolding sum_matches find_numbers trim_space is_missing without_dollar
  number_in raw =
      let s = trim_space raw in
      if is_missing s then none else average (find_numbers 0 (without_dollar s))

  unfoldable pub extract_number : RawJson F → Option F
  unfolding number_in
  extract_number (number v) = some v
  extract_number (text s) = number_in s
  extract_number null = some (fl.of_int (pos 0))
  extract_number other_json = none

-- vramRe at a parenthesis: the digits.
unfoldable pub match_vram : Text → Option Text
unfolding strip_prefix span text_eq
match_vram t = do
  s ← strip_prefix (codes "(") t
  let run = span is_digit (span is_re_space s).1
  guard (not (is_empty run.0))
  let rest = (span is_re_space run.1).1
  let unit = get_or (strip_prefix (codes "mb") (map to_lower rest)) (map to_lower rest)
  _ ← strip_prefix (codes ")") (span is_re_space unit).1
  some run.0

-- vramGBRe at a digit: the digits.
unfoldable pub match_vram_gb : Text → Option Text
unfolding strip_prefix span
match_vram_gb t = do
  let run = span is_digit t
  guard (not (is_empty run.0))
  _ ← strip_prefix (codes "gb") (map to_lower (span is_re_space run.1).1)
  some run.0

-- FindStringSubmatch: the leftmost match.
unfoldable pub leftmost : (Text → Option Text) → Text → Option Text
leftmost m [] = none
leftmost m (c ∷ s) = let rest = leftmost m s in elim (m (c ∷ s)) [ none ↦ rest | some r ↦ some r ]

-- knownModelVRAM
abbrev pub known_model_vram : List (Text × ℕ)
known_model_vram =
    (codes "4090", 24)
    ∷ (codes "3090", 24)
    ∷ (codes "4080", 16)
    ∷ (codes "3080", 10)
    ∷ (codes "4070", 12)
    ∷ (codes "3070", 8)
    ∷ (codes "2080", 8)
    ∷ (codes "A100", 80)
    ∷ (codes "H100", 80)
    ∷ (codes "L40", 48)
    ∷ (codes "A10", 24)
    ∷ (codes "T4", 24)
    ∷ []

-- The loop over the table.
unfoldable pub known_vram : Text → List (Text × ℕ) → Option ℕ
unfolding has_infix
known_vram upper [] = none
known_vram upper ((token, gb) ∷ table) =
    if has_infix token upper then some gb else known_vram upper table

module _ {F : Type 0} ⦃fl : Float64 F⦄ (lib : Library F) where
  abbrev pub positive : Option F → Option F
  positive none = none
  positive (some v) = if fl.lt (fl.of_int (pos 0)) v then some v else none

  abbrev pub first_of : Option F → Option F → Option F
  first_of none k = k
  first_of (some v) k = some v

  -- Megabytes above 1024, gigabytes below.
  abbrev pub in_gigabytes : F → F
  in_gigabytes v = if fl.lt (fl.of_int (pos 1024)) v then fl.div v (fl.of_int (pos 1024)) else v

  unfoldable pub extract_vram_from_id : Text → Option F
  unfolding match_vram match_vram_gb leftmost known_vram
  extract_vram_from_id id =
      let stated = positive (leftmost match_vram id >>= lib.parse_float) in
      let in_gb = positive (leftmost match_vram_gb id >>= lib.parse_float) in
      let known = known_vram (lib.upper id) known_model_vram >>= λ gb. some (fl.of_int (pos gb)) in
      first_of (stated >>= λ v. some (in_gigabytes v)) (first_of in_gb known)
