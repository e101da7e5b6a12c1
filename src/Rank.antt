-- ===== src/Rank.antt =====
-- server_rank.go: the score of a peer from its hardware. A JSON value is what json.Unmarshal tells
-- apart, `parse_float` is strconv.ParseFloat on the texts that the regular expressions find, and
-- `lower` and `upper` are strings.ToLower and strings.ToUpper.
pub mod Numbers
pub mod Specs
pub mod Score
pub mod Order
pub mod Ranges
pub mod Board
use yuanyi.Base.{
  ℕ, String, ℤ, pos, Bool, true, false, ◌&&◌, ◌||◌, not, List, [], ◌∷◌, Option, none, some,
  is_empty, is_none, get_or, if◌then◌else◌, leb_ℤ, ◌>>=◌,
}
use yuanyi.Float.{Float64}
use yuanyi.Strings.{Text, codes, text_eq}

-- json.RawMessage
pub data RawJson (F : Type 0) : Type 0 where
  number : F → RawJson F
  text : Text → RawJson F
  null : RawJson F
  other_json : RawJson F

-- GPUSpec, a map with its keys in the order of iteration.
abbrev pub GpuSpec : Type 0 → Type 0
GpuSpec F = List (Text × RawJson F)

-- The functions of other packages.
pub record Library (F : Type 0) : Type 0 where
  pub parse_float : Text → Option F
  pub lower : Text → Text
  pub upper : Text → Text
