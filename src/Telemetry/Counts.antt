-- ===== src/Telemetry/Counts.antt =====
-- What the hub counts in the summary of a node (sys.go, server_web.go).
use yuanyi.Base.{
  ℕ, suc, ℤ, pos, negsuc, Bool, true, false, not, List, [], ◌∷◌, ◌++◌, Option, none, some, ◌≡◌,
  refl, arith, All, nat_eq, get_elem?, get_or, Bool-cases, inl, inr, leb, length, map, is_empty,
  if_intro,
}
use yuanyi.Float.{Float64}
use yuanyi.Strings.{Text, codes, all_chars, trim_space, split_lines, is_digit, text_eq}
use yuanyi.Strings.Laws.{all_chars-append}
use yuanyi.Strings.Chars.{
  Clean-trim_space, Clean-cons_first, Clean-split_lines, Clean-get_elem?, Clean-digits,
  has_infix-none,
}
use yuanyi.Telemetry.{
  split_commas, join_commas, show_int, GpuTelemetry, ModelCounts, count_model, Survey, model_key,
  summary_part, no_gpu_telemetry, survey_columns, survey_line, survey_lines, get_gpu_telemetry,
}
use yuanyi.Web.{count_gpus_in_summary}

-- Not the counter that the hub looks for.
abbrev pub plain_char : ℕ → Bool
plain_char c = not (nat_eq c 0x5f35)

abbrev pub Plain : Text → Type 0
Plain s = all_chars plain_char s ≡ true

Plain-split_commas : (s : Text) → Plain s → All Plain (split_commas s)
unfolding all_chars split_commas
Plain-split_commas [] h = (refl, tt)
Plain-split_commas (c ∷ s) h = elim (Bool-cases (nat_eq c 44)) [
  | inl e ↦ rw (e, split_commas) (refl, Plain-split_commas s (ground arith))
  | inr e ↦
      rw (e, split_commas)
        (Clean-cons_first plain_char c (split_commas s) (ground arith)
          (Plain-split_commas s (ground arith)))
]

digit-plain : (d : ℕ) → is_digit d ≡ true → plain_char d ≡ true
digit-plain d h = ground arith

Plain-show_int : (n : ℤ) → Plain (show_int n)
unfolding show_int all_chars
Plain-show_int (pos n) = Clean-digits plain_char digit-plain (suc n) n [] refl
Plain-show_int (negsuc n) = Clean-digits plain_char digit-plain (suc (suc n)) (suc n) [] refl

Plain-key : (name : Text) (vram : ℤ) → Plain name → Plain (model_key name vram)
unfolding all_chars
Plain-key name vram h =
    all_chars-append plain_char name (40 ∷ (show_int vram ++ codes "MB)")) h
      (all_chars-append plain_char (show_int vram) (codes "MB)") (Plain-show_int vram) refl)

Plain-part : (e : Text × ℤ) → Plain e.0 → Plain (summary_part e)
unfolding all_chars
Plain-part (key, n) h =
    all_chars-append plain_char key (codes " x" ++ show_int n) h (Plain-show_int n)

abbrev Keys : ModelCounts → Type 0
Keys = All (λ (e : Text × ℤ). Plain e.0)

Keys-count_model : (k : Text) (m : ModelCounts) → Plain k → Keys m → Keys (count_model k m)
unfolding count_model
Keys-count_model k [] h v = (h, tt)
Keys-count_model k ((j, n) ∷ m) h v = elim (Bool-cases (text_eq j k)) [
  | inl e ↦ rw (e, count_model) v
  | inr e ↦ rw (e, count_model) (v.0, Keys-count_model k m h v.1)
]

Plain-join : (m : ModelCounts) → Keys m → Plain (join_commas (map summary_part m))
unfolding join_commas all_chars
Plain-join [] h = refl
Plain-join (e ∷ []) h = Plain-part e h.0
Plain-join (e ∷ f ∷ m) h =
    all_chars-append plain_char (summary_part e) (44 ∷ 32 ∷ join_commas (map summary_part (f ∷ m)))
      (Plain-part e h.0) (Plain-join (f ∷ m) h.1)

module _ {F : Type 0} ⦃fl : Float64 F⦄ (atoi : Text → ℤ) (parse_float : Text → F) where
  Keys-survey_line :
      (line : Text) (v : Survey F)
      → Plain line
      → Keys v.models
      → Keys (survey_line atoi parse_float line v).models
  unfolding survey_line survey_columns
  Keys-survey_line line v h k =
      let parts = split_commas line in
      let column = λ (i : ℕ). trim_space (get_or (get_elem? parts i) []) in
      if_intro (λ (w : Survey F). Keys w.models) (leb 10 (length parts))
        (survey_columns atoi parse_float column v) v
        (Keys-count_model (model_key (column 0) (atoi (column 1))) v.models
          (Plain-key (column 0) (atoi (column 1)) (
            Clean-trim_space plain_char (get_or (get_elem? parts 0) [])
              (Clean-get_elem? plain_char parts 0 (Plain-split_commas line h))))
          k)
        k

  Keys-survey_lines :
      (ls : List Text) (v : Survey F)
      → All Plain ls
      → Keys v.models
      → Keys (survey_lines atoi parse_float ls v).models
  unfolding survey_lines
  Keys-survey_lines [] v h k = k
  Keys-survey_lines (l ∷ ls) v h k =
      Keys-survey_lines ls (survey_line atoi parse_float l v) h.1 (Keys-survey_line l v h.0 k)

  Plain-summary :
      (relay_only : Bool) (out : Option Text) (order : ModelCounts → ModelCounts)
      → Plain (get_or out [])
      → ((m : ModelCounts) → Keys m → Keys (order m))
      → Plain (get_gpu_telemetry atoi parse_float relay_only out order).summary
  unfolding get_gpu_telemetry no_gpu_telemetry all_chars
  Plain-summary true out order h keep = refl
  Plain-summary false none order h keep = refl
  Plain-summary false (some out) order h keep =
      let lines = split_lines (trim_space out) in
      let start : Survey F = record { totals = no_gpu_telemetry; models = [] } in
      let v = survey_lines atoi parse_float lines start in
      if_intro (λ (t : GpuTelemetry F). Plain t.summary) (is_empty (get_or (get_elem? lines 0) []))
        no_gpu_telemetry
        (record v.totals { summary = join_commas (map summary_part (order v.models)) }) refl
        (Plain-join (order v.models) (
          keep v.models (
            Keys-survey_lines lines start
              (Clean-split_lines plain_char (trim_space out) (Clean-trim_space plain_char out h))
              tt)))

  -- If nvidia-smi does not print the counter that the hub looks for, and ranging over the map makes
  -- up no key with it, the hub counts no GPU in the summary of any node, whatever cards it has.
  pub count_gpus-get_gpu_telemetry :
      (read : Text → Option ℤ) (relay_only : Bool) (out : Option Text)
      (order : ModelCounts → ModelCounts)
      → Plain (get_or out [])
      → ((m : ModelCounts)
          → All (λ (e : Text × ℤ). Plain e.0) m
          → All (λ (e : Text × ℤ). Plain e.0) (order m))
      → count_gpus_in_summary read (get_gpu_telemetry atoi parse_float relay_only out order).summary
        ≡ pos 0
  unfolding count_gpus_in_summary
  count_gpus-get_gpu_telemetry read relay_only out order h keep =
      let summary = (get_gpu_telemetry atoi parse_float relay_only out order).summary in
      rw
        (
          has_infix-none plain_char 0x5f35 summary refl (Plain-summary relay_only out order h keep),
          count_gpus_in_summary,
        )
        refl
