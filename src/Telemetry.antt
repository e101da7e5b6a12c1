-- ===== src/Telemetry.antt =====
-- GetGPUTelemetry (sys.go): the output of nvidia-smi as a record, and its summary. `atoi` and
-- `parse_float` are what strconv.Atoi and ParseFloat return as the value, whose error is dropped.
pub mod Counts
pub mod Peaks
use yuanyi.Base.{
  ℕ, ℤ, pos, negsuc, ◌+◌, suc, Bool, true, false, List, [], ◌∷◌, ◌++◌, Option, none, some, is_empty,
  if◌then◌else◌, nat_eq, leb, ltb_ℤ, add64, length, get_elem?, get_or, map,
}
use yuanyi.Float.{Float64}
use yuanyi.Strings.{Text, codes, text_eq, trim_space, split_lines, cons_first, decimal, digits}

-- strings.Split(s, ",")
unfoldable pub split_commas : Text → List Text
split_commas [] = [] ∷ []
split_commas (c ∷ s) =
    let rest = split_commas s in if nat_eq c 44 then [] ∷ rest else cons_first c rest

-- strings.Join(parts, ", ")
unfoldable pub join_commas : List Text → Text
join_commas [] = []
join_commas (p ∷ []) = p
join_commas (p ∷ q ∷ ps) = p ++ 44 ∷ 32 ∷ join_commas (q ∷ ps)

-- %d of an int
unfoldable pub show_int : ℤ → Text
unfolding digits
show_int (pos n) = decimal n
show_int (negsuc n) = 45 ∷ decimal (suc n)

pub record GpuTelemetry (F : Type 0) : Type 0 where
  pub summary : Text
  pub gpu_temp : ℤ
  pub gpu_util : ℤ
  pub mem_util : ℤ
  pub vram_used : ℤ
  pub vram_total : ℤ
  pub power_draw : F
  pub power_limit : F
  pub fan_speed : ℤ
  pub driver_version : Text

-- statsMap, in the order of insertion.
abbrev pub ModelCounts : Type 0
ModelCounts = List (Text × ℤ)

-- statsMap[key]++
unfoldable pub count_model : Text → ModelCounts → ModelCounts
unfolding text_eq
count_model k [] = (k, pos 1) ∷ []
count_model k ((j, n) ∷ m) =
    if text_eq j k then (j, add64 n (pos 1)) ∷ m else (j, n) ∷ count_model k m

-- The variables of the loop; the summary is not yet written.
pub record Survey (F : Type 0) : Type 0 where
  pub totals : GpuTelemetry F
  pub models : ModelCounts

-- name(capacityMB)
abbrev pub model_key : Text → ℤ → Text
model_key name vram = name ++ (40 ∷ (show_int vram ++ codes "MB)"))

-- An entry of the summary.
abbrev pub summary_part : Text × ℤ → Text
summary_part (key, count) = key ++ (codes " x" ++ show_int count)

abbrev pub larger : ℤ → ℤ → ℤ
larger v best = if ltb_ℤ best v then v else best

module _ {F : Type 0} ⦃fl : Float64 F⦄ where
  abbrev pub larger_float : F → F → F
  larger_float v best = if fl.lt best v then v else best

  unfoldable pub no_gpu_telemetry : GpuTelemetry F
  no_gpu_telemetry = record {
    summary = codes "No GPU Detected";
    gpu_temp = pos 0;
    gpu_util = pos 0;
    mem_util = pos 0;
    vram_used = pos 0;
    vram_total = pos 0;
    power_draw = fl.of_int (pos 0);
    power_limit = fl.of_int (pos 0);
    fan_speed = pos 0;
    driver_version = [];
  }

  module _ (atoi : Text → ℤ) (parse_float : Text → F) where
    -- The ten columns of a line.
    unfoldable pub survey_columns : (ℕ → Text) → Survey F → Survey F
    unfolding count_model show_int
    survey_columns column v = record {
      totals = record v.totals {
        vram_total = add64 v.totals.vram_total (atoi (column 1));
        vram_used = add64 v.totals.vram_used (atoi (column 2));
        gpu_util = larger (atoi (column 3)) v.totals.gpu_util;
        mem_util = larger (atoi (column 4)) v.totals.mem_util;
        gpu_temp = larger (atoi (column 5)) v.totals.gpu_temp;
        power_draw = larger_float (parse_float (column 6)) v.totals.power_draw;
        power_limit = larger_float (parse_float (column 7)) v.totals.power_limit;
        fan_speed = larger (atoi (column 8)) v.totals.fan_speed;
        driver_version = column 9;
      };
      models = count_model (model_key (column 0) (atoi (column 1))) v.models;
    }

    -- One line; lines with fewer columns are passed over.
    unfoldable pub survey_line : Text → Survey F → Survey F
    unfolding survey_columns split_commas trim_space
    survey_line line v =
        let parts = split_commas line in
        if leb 10 (length parts)
        then survey_columns (λ i. trim_space (get_or (get_elem? parts i) [])) v
        else v

    unfoldable pub survey_lines : List Text → Survey F → Survey F
    unfolding survey_line
    survey_lines [] v = v
    survey_lines (line ∷ ls) v = survey_lines ls (survey_line line v)

    -- `out` is the output of nvidia-smi, if it could be run, and `order` the order in which the
    -- map is ranged over.
    unfoldable pub get_gpu_telemetry :
        Bool → Option Text → (ModelCounts → ModelCounts) → GpuTelemetry F
    unfolding survey_lines no_gpu_telemetry split_lines trim_space join_commas show_int
    get_gpu_telemetry true out order = no_gpu_telemetry
    get_gpu_telemetry false none order = no_gpu_telemetry
    get_gpu_telemetry false (some out) order =
        let trimmed = trim_space out in
        let v =
          survey_lines (split_lines trimmed) (record { totals = no_gpu_telemetry; models = [] }) in
        if is_empty (get_or (get_elem? (split_lines trimmed) 0) [])
        then no_gpu_telemetry
        else record v.totals { summary = join_commas (map summary_part (order v.models)) }
