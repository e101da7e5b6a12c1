-- ===== src/Tests/Scrapes.antt =====
-- Scrapes of vLLM's metrics (sys.go) at concrete texts.
use yuanyi.Base.{
  Option, Bool, false, ltb_ℤ, arith, if◌then◌else◌, ℕ, ◌-◌, ℤ, pos, List, [], ◌∷◌, none, some, ◌≡◌,
  refl, pos_part, sub_ℕ, ◌+ℤ◌,
}
use yuanyi.Strings.{is_digit, Text, codes, split_lines}
use yuanyi.Console.{zero_stats}
use yuanyi.Metrics.{Tick, new_sys_monitor, scan_lines, no_samples, metric_scraper}
use yuanyi.Metrics.Steady.{NonNegative, HasGrown, metric_scraper_lem}
use yuanyi.Float.{RawFloat}
use yuanyi.Tests.Sample.{product, quotient}

-- Integers and a NaN, `none`.
abbrev lift : (ℤ → ℤ → ℤ) → Option ℤ → Option ℤ → Option ℤ
lift f (some a) (some b) = some (f a b)
lift f a b = none

abbrev less_than : Option ℤ → Option ℤ → Bool
less_than (some a) (some b) = ltb_ℤ a b
less_than a b = false

less_than_irrefl : (a : Option ℤ) → less_than a a ≡ false
less_than_irrefl none = refl
less_than_irrefl (some a) = ground arith

instance unfoldable with_nan : RawFloat (Option ℤ)
unfolding ◌+ℤ◌
with_nan = record {
  raw_int = some;
  raw_add = lift ◌+ℤ◌;
  raw_mul = lift product;
  raw_div = lift quotient;
  raw_lt = less_than;
  raw_irrefl = less_than_irrefl;
}

abbrev difference : Option ℤ → Option ℤ → Option ℤ
difference = lift (λ a b. sub_ℕ (pos_part a) (pos_part b))

abbrev cut : Option ℤ → ℤ
cut none = pos 0
cut (some a) = a

abbrev elapsed : ℕ → ℕ → Option ℤ
elapsed now last = some (pos (now - last))

-- Single digits; every other text is a NaN.
abbrev read_digit : Text → Option ℤ
read_digit (c ∷ []) = if is_digit c then some (pos (c - 48)) else none
read_digit s = none

abbrev answer : Text
answer =
    codes
      "# HELP vllm:prompt_tokens_total x\nvllm:prompt_tokens_total{model=\"m\"} 6\nvllm:prompt_tokens_total{model=\"n\"} 2\nbroken"

abbrev ticks : List (Tick (Option ℤ))
ticks =
    record { cpu = some (some (pos 3)); mem = none; body = some answer; now = 2 }
    ∷ record {
      cpu = none;
      mem = some 5;
      body = some (codes "vllm:prompt_tokens_total 1\nvllm:generation_tokens_total NaN");
      now = 4;
    }
    ∷ []

summed : (scan_lines read_digit (split_lines answer) no_samples).prompt_tokens ≡ some (pos 8)
unfolding scan_lines split_lines no_samples ◌+ℤ◌ with_nan
summed = refl

not_a_number :
    (scan_lines read_digit
      (split_lines (codes "vllm:generation_tokens_total NaN"))
      no_samples).gen_tokens
    ≡ none
unfolding scan_lines split_lines no_samples with_nan
not_a_number = refl

metric_scraper_lem_example :
    NonNegative
      (metric_scraper difference cut elapsed read_digit ticks
        (new_sys_monitor, zero_stats)).0.current
    × HasGrown zero_stats
        (metric_scraper difference cut elapsed read_digit ticks (new_sys_monitor, zero_stats)).1
metric_scraper_lem_example = metric_scraper_lem difference cut elapsed read_digit ticks zero_stats
