-- ===== src/Float.antt =====
-- Go's float64, as far as the scores use it. The arithmetic is the machine's: a parameter with the
-- behaviour that IEEE 754 documents for values that are no NaN. No score is a NaN: scores are built
-- from integers by `+`, `*` and `/` by a non-zero constant, or read from JSON, which has no NaN.
-- What is read from other texts may be one, and has the laws of `RawFloat` alone.
use yuanyi.Base.{ℕ, ◌<◌, ◌≤◌, ◌^◌, Bool, true, false, ◌||◌, not, ◌≡◌, ℤ, pos, ◌≤ℤ◌}

pub record Float64 (F : Type 0) : Type 0 where
  -- float64(n)
  pub of_int : ℤ → F
  pub add : F → F → F
  pub mul : F → F → F
  pub div : F → F → F
  -- a < b
  pub lt : F → F → Bool
  -- a == b
  pub eq : F → F → Bool
  -- int(math.Round(a))
  pub round : F → ℤ
  pub lt_irrefl : (a : F) → lt a a ≡ false
  pub lt_trans : (a b c : F) → lt a b ≡ true → lt b c ≡ true → lt a c ≡ true
  -- Values that are no NaN are comparable.
  pub lt_split : (a b c : F) → lt a c ≡ true → (lt a b || lt b c) ≡ true
  pub eq_lt : (a b : F) → eq a b ≡ not (lt a b || lt b a)
  -- Conversion and addition are rounded, and rounding is monotone.
  pub of_int_mono : (m n : ℤ) → m ≤ℤ n → lt (of_int n) (of_int m) ≡ false
  -- Integers up to 2^53 are exact.
  pub of_int_lt : (m n : ℕ) → m < n → n ≤ 2 ^ 53 → lt (of_int (pos m)) (of_int (pos n)) ≡ true
  pub add_nonneg : (a b : F) → lt b (of_int (pos 0)) ≡ false → lt (add a b) a ≡ false

-- A float64 that may be a NaN or infinite: the operations, and what holds of every value.
pub record RawFloat (F : Type 0) : Type 0 where
  pub raw_int : ℤ → F
  pub raw_add : F → F → F
  pub raw_mul : F → F → F
  pub raw_div : F → F → F
  -- a < b, which is false if one of them is a NaN
  pub raw_lt : F → F → Bool
  pub raw_irrefl : (a : F) → raw_lt a a ≡ false
