-- ===== src/Rank/Specs.antt =====
-- The specification database and the score of a peer (server_rank.go).
use yuanyi.Base.{
  ℕ, ◌+◌, pos, Bool, ◌&&◌, ◌||◌, not, List, [], ◌∷◌, ◌++◌, Option, none, some, is_empty,
  if◌then◌else◌, nat_eq, leb, ltb, ◌>>=◌, map, get_or,
}
use yuanyi.Float.{Float64}
use yuanyi.Strings.{Text, codes, text_eq, has_infix, trim_space, is_space, span, cons_first}
use yuanyi.Rank.{RawJson, number, text, null, other_json, GpuSpec, Library}
use yuanyi.Rank.Numbers.{extract_number}

module _ {F : Type 0} where
  -- s[k], with `ok`
  unfoldable pub field : Text → GpuSpec F → Option (RawJson F)
  unfolding text_eq
  field k [] = none
  field k ((j, v) ∷ spec) = if text_eq j k then some v else field k spec

  -- A field that decodes as a string; null leaves the string empty.
  abbrev pub as_string : RawJson F → Option Text
  as_string (number v) = none
  as_string (text s) = some s
  as_string null = some []
  as_string other_json = none

  -- getString of one key; no caller passes more.
  unfoldable pub get_string : Text → GpuSpec F → Text
  unfolding field
  get_string k spec = get_or (field k spec >>= as_string) []

module _ {F : Type 0} ⦃fl : Float64 F⦄ (lib : Library F) where
  -- getFlexNumber of one key; no caller passes more.
  unfoldable pub get_flex_number : Text → GpuSpec F → F
  unfolding field extract_number
  get_flex_number k spec = get_or (field k spec >>= extract_number lib) (fl.of_int (pos 0))

  unfoldable pub get_vram : GpuSpec F → F
  unfolding get_flex_number
  get_vram spec =
      let gib = get_flex_number (codes "Memory Size (GiB)") spec in
      let mb = get_flex_number (codes "Memory Configuration Size (MB)") spec in
      let zero_vram = fl.of_int (pos 0) in
      if fl.lt zero_vram gib
      then gib
      else if fl.lt zero_vram mb
      then fl.div mb (fl.of_int (pos 1024))
      else zero_vram

-- Up to the first parenthesis, trimmed.
unfoldable pub clean_gpu_name : Text → Text
unfolding span trim_space
clean_gpu_name raw = trim_space (span (λ c. not (nat_eq c 40)) raw).0

-- strings.Fields, with the word at the front under construction.
unfoldable pub fields : Text → List Text
unfolding is_space
fields [] = []
fields (c ∷ s) =
    let rest = fields s in
    let joined : List Text = elim s [
      | [] ↦ (c ∷ []) ∷ []
      | d ∷ t ↦ if is_space d then (c ∷ []) ∷ rest else cons_first c rest
    ] in
    if is_space c then rest else joined

abbrev pub join_words : List Text → Text
join_words [] = []
join_words (w ∷ []) = w
join_words (w ∷ v ∷ ws) = w ++ 32 ∷ join_words (v ∷ ws)

abbrev pub separator : ℕ → ℕ
separator c = if nat_eq c 95 || nat_eq c 45 then 32 else c

unfoldable pub normalize : (Text → Text) → Text → Text
unfolding fields
normalize lower s = join_words (fields (map separator (lower s)))

-- len, in bytes of UTF-8
abbrev pub utf8_len : ℕ → ℕ
utf8_len c = if ltb c 0x80 then 1 else if ltb c 0x800 then 2 else if ltb c 0x10000 then 3 else 4

unfoldable pub len : Text → ℕ
len [] = 0
len (c ∷ s) = utf8_len c + len s

-- best, bestKey and bestLen + 1; 0 is none.
pub record Best (F : Type 0) : Type 0 where
  pub spec : GpuSpec F
  pub key : Text
  pub size : ℕ

abbrev pub fits : Text → Text → Bool
fits name v = not (is_empty v) && (text_eq v name || has_infix v name || has_infix name v)

module _ {F : Type 0} (lower : Text → Text) where
  abbrev pub variants : Text → GpuSpec F → List Text
  variants key spec =
      normalize lower key
      ∷ normalize lower (get_string (codes "Model") spec)
      ∷ normalize lower (get_string (codes "Model name") spec)
      ∷ normalize lower (get_string (codes "Code name") spec)
      ∷ []

  -- The loop over the variants of one entry.
  unfoldable pub try_variants : Text → Text → GpuSpec F → List Text → Best F → Best F
  unfolding text_eq has_infix len
  try_variants name key spec [] best = best
  try_variants name key spec (v ∷ vs) best = try_variants name key spec vs (
      if fits name v && leb best.size (len v)
      then record { spec = spec; key = key; size = len v + 1 }
      else best)

  -- The loop over the database, in the order of iteration.
  unfoldable pub try_specs : Text → List (Text × GpuSpec F) → Best F → Best F
  unfolding try_variants normalize get_string
  try_specs name [] best = best
  try_specs name ((key, spec) ∷ gpu_map) best =
      try_specs name gpu_map (try_variants name key spec (variants key spec) best)

  unfoldable pub match_gpu_spec : Text → List (Text × GpuSpec F) → Option (GpuSpec F × Text)
  unfolding try_specs normalize clean_gpu_name
  match_gpu_spec raw gpu_map =
      let name = normalize lower (clean_gpu_name raw) in
      let best = try_specs name gpu_map (record { spec = []; key = []; size = 0 }) in
      if is_empty name || nat_eq best.size 0 then none else some (best.spec, best.key)
