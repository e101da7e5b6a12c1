-- ===== src/Telemetry/Peaks.antt =====
-- The maxima that GetGPUTelemetry (sys.go) reports.
use yuanyi.Base.{
  ℕ, zero, suc, ℤ, true, false, List, [], ◌∷◌, some, ◌≡◌, refl, ap, arith, get_elem?, get_or,
  Bool-cases, inl, inr, leb, ltb_ℤ, length, is_empty, if_intro,
}
use yuanyi.Float.{Float64}
use yuanyi.Strings.{Text, trim_space, split_lines}
use yuanyi.Telemetry.{
  split_commas, GpuTelemetry, ModelCounts, Survey, larger, larger_float, no_gpu_telemetry,
  survey_columns, survey_line, survey_lines, get_gpu_telemetry,
}

-- The i-th column of a line.
abbrev pub column_of : Text → ℕ → Text
column_of line i = trim_space (get_or (get_elem? (split_commas line) i) [])

larger_self : (v best : ℤ) → ltb_ℤ (larger v best) v ≡ false
larger_self v best = ground arith

larger_mono : (v best x : ℤ) → ltb_ℤ best x ≡ false → ltb_ℤ (larger v best) x ≡ false
larger_mono v best x h = ground arith

module _ {F : Type 0} ⦃fl : Float64 F⦄ where
  larger_float_self : (v best : F) → fl.lt (larger_float v best) v ≡ false
  larger_float_self v best = elim (Bool-cases (fl.lt best v)) [
    | inl e ↦ rw e (fl.lt_irrefl v)
    | inr e ↦ rw (e, e) refl
  ]

  larger_float_mono : (v best x : F) → fl.lt best x ≡ false → fl.lt (larger_float v best) x ≡ false
  larger_float_mono v best x h = elim (Bool-cases (fl.lt best v)) [
    | inl e ↦ elim (Bool-cases (fl.lt v x)) [
      | inl k ↦ ground (arith, fl.lt_trans best v x e k)
      | inr k ↦ rw e k
    ]
    | inr e ↦ rw e h
  ]

  module _ (atoi : Text → ℤ) (parse_float : Text → F) where
    -- No maximum is below the value of the column.
    abbrev pub Tops : GpuTelemetry F → (ℕ → Text) → Type 0
    Tops t column =
        (ltb_ℤ t.gpu_util (atoi (column 3)) ≡ false)
        × (ltb_ℤ t.mem_util (atoi (column 4)) ≡ false)
        × (ltb_ℤ t.gpu_temp (atoi (column 5)) ≡ false)
        × (fl.lt t.power_draw (parse_float (column 6)) ≡ false)
        × (fl.lt t.power_limit (parse_float (column 7)) ≡ false)
        × (ltb_ℤ t.fan_speed (atoi (column 8)) ≡ false)

    Tops-own :
        (column : ℕ → Text) (v : Survey F)
        → Tops (survey_columns atoi parse_float column v).totals column
    unfolding survey_columns
    Tops-own column v = (
      larger_self (atoi (column 3)) v.totals.gpu_util,
      larger_self (atoi (column 4)) v.totals.mem_util,
      larger_self (atoi (column 5)) v.totals.gpu_temp,
      larger_float_self (parse_float (column 6)) v.totals.power_draw,
      larger_float_self (parse_float (column 7)) v.totals.power_limit,
      larger_self (atoi (column 8)) v.totals.fan_speed,
    )

    Tops-survey_columns :
        (column other : ℕ → Text) (v : Survey F)
        → Tops v.totals column
        → Tops (survey_columns atoi parse_float other v).totals column
    unfolding survey_columns
    Tops-survey_columns column other v (u, m, t, d, l, f) = (
      larger_mono (atoi (other 3)) v.totals.gpu_util (atoi (column 3)) u,
      larger_mono (atoi (other 4)) v.totals.mem_util (atoi (column 4)) m,
      larger_mono (atoi (other 5)) v.totals.gpu_temp (atoi (column 5)) t,
      larger_float_mono (parse_float (other 6)) v.totals.power_draw (parse_float (column 6)) d,
      larger_float_mono (parse_float (other 7)) v.totals.power_limit (parse_float (column 7)) l,
      larger_mono (atoi (other 8)) v.totals.fan_speed (atoi (column 8)) f,
    )

    Tops-survey_lines :
        (column : ℕ → Text) (ls : List Text) (v : Survey F)
        → Tops v.totals column
        → Tops (survey_lines atoi parse_float ls v).totals column
    unfolding survey_lines survey_line
    Tops-survey_lines column [] v h = h
    Tops-survey_lines column (l ∷ ls) v h =
        Tops-survey_lines column ls (survey_line atoi parse_float l v) (
          if_intro (λ (w : Survey F). Tops w.totals column) (leb 10 (length (split_commas l)))
            (survey_columns atoi parse_float (column_of l) v) v
            (Tops-survey_columns column (column_of l) v h) h)

    Tops-line :
        (ls : List Text) (i : ℕ) (line : Text) (v : Survey F)
        → get_elem? ls i ≡ some line
        → leb 10 (length (split_commas line)) ≡ true
        → Tops (survey_lines atoi parse_float ls v).totals (column_of line)
    unfolding survey_lines survey_line
    Tops-line [] i line v e h = cc
    Tops-line (l ∷ ls) zero line v e h =
        let same : l ≡ line = ap (λ o. get_or o l) e in
        Tops-survey_lines (column_of line) ls (survey_line atoi parse_float l v)
          (rw (same, h) (Tops-own (column_of line) v))
    Tops-line (l ∷ ls) (suc i) line v e h =
        Tops-line ls i line (survey_line atoi parse_float l v) e h

    -- If the first line of the output is not empty, no maximum that is reported is below the value
    -- in the column of any line that has ten columns.
    pub get_gpu_telemetry-Tops :
        (out : Text) (order : ModelCounts → ModelCounts) (i : ℕ) (line : Text)
        → is_empty (get_or (get_elem? (split_lines (trim_space out)) 0) []) ≡ false
        → get_elem? (split_lines (trim_space out)) i ≡ some line
        → leb 10 (length (split_commas line)) ≡ true
        → Tops (get_gpu_telemetry atoi parse_float false (some out) order) (column_of line)
    unfolding get_gpu_telemetry
    get_gpu_telemetry-Tops out order i line first e h = rw first (
        Tops-line (split_lines (trim_space out)) i line
          (record { totals = no_gpu_telemetry; models = [] }) e h)
