-- ===== src/Rank/Ranges.antt =====
-- How the specification database's texts are read as numbers (server_rank.go).
use mathlib.Core.List.{append-nil}
use yuanyi.Base.{
  ℕ, suc, ◌-◌, pos, Bool, true, false, ◌||◌, [], ◌∷◌, ◌++◌, some, ◌≡◌, refl, sym, ap, subst, ◌∙◌,
  arith, length, nat_eq,
}
use yuanyi.Float.{Float64}
use yuanyi.Strings.{Text, is_space, trim_left, trim_right, trim_space, all_chars, span, is_digit}
use yuanyi.Strings.Laws.{span-break, all_chars-append, all_chars-imp}
use yuanyi.Rank.{text, Library}
use yuanyi.Rank.Numbers.{
  is_missing, without_dollar, average, match_number, find_numbers, number_in, extract_number,
  sum_matches,
}

-- A digit, a point, a comma, a hyphen: what numbers are written with.
abbrev numeric : ℕ → Bool
numeric c = is_digit c || nat_eq c 45

numeric-visible : (c : ℕ) → numeric c ≡ true → is_space c ≡ false
unfolding is_space
numeric-visible c h = ground arith

digit-numeric : (c : ℕ) → is_digit c ≡ true → numeric c ≡ true
digit-numeric c h = ground arith

trim_right-visible : (s : Text) → all_chars numeric s ≡ true → trim_right s ≡ s
unfolding all_chars trim_right
trim_right-visible [] h = refl
trim_right-visible (c ∷ s) h = ground (arith, numeric-visible c, trim_right-visible s)

trim_space-visible : (s : Text) → all_chars numeric s ≡ true → trim_space s ≡ s
unfolding all_chars trim_space trim_left
trim_space-visible [] h = refl
trim_space-visible (c ∷ s) h = ground (arith, numeric-visible c, trim_right-visible (c ∷ s))

span-all : (p : ℕ → Bool) (s : Text) → all_chars p s ≡ true → span p s ≡ (s, [])
unfolding span all_chars
span-all p [] h = refl
span-all p (c ∷ s) h = ground (arith, span-all p s)

find_numbers-skip : (s t : Text) → find_numbers (length s) (s ++ t) ≡ find_numbers 0 t
unfolding find_numbers
find_numbers-skip [] t = refl
find_numbers-skip (c ∷ s) t = find_numbers-skip s t

one_less : (s : Text) → suc (length s) - 1 ≡ length s
one_less s = omega arith

-- A match at the front, and what is found after it.
find_numbers-match :
    (c : ℕ) (s t : Text)
    → match_number (c ∷ (s ++ t)) ≡ some (c ∷ s)
    → find_numbers 0 (c ∷ (s ++ t)) ≡ (c ∷ s) ∷ find_numbers 0 t
unfolding find_numbers
find_numbers-match c s t h =
    rw (h, find_numbers)
      (ap (◌∷◌ (c ∷ s))
        (ap (λ (n : ℕ). find_numbers n (s ++ t)) (one_less s) ∙ find_numbers-skip s t))

-- Digits before a hyphen.
match_number-digits :
    (c : ℕ) (a t : Text)
    → all_chars is_digit (c ∷ a) ≡ true
    → match_number (c ∷ (a ++ 45 ∷ t)) ≡ some (c ∷ a)
unfolding match_number
match_number-digits c a t h =
    let run = span-break is_digit (c ∷ a) 45 t h refl in
    let unsigned : nat_eq 45 c ≡ false = ground arith in
    rw (unsigned, match_number) (rw (run, match_number) (ap some (append-nil (c ∷ a))))

-- A hyphen before digits is their sign.
match_number-signed :
    (c : ℕ) (b : Text)
    → all_chars is_digit (c ∷ b) ≡ true
    → match_number (45 ∷ (c ∷ b)) ≡ some (45 ∷ c ∷ b)
unfolding match_number
match_number-signed c b h =
    let run = span-all is_digit (c ∷ b) h in
    rw (run, match_number) (ap (λ (t : Text). some (45 ∷ t)) (append-nil (c ∷ b)))

find_numbers-range :
    (c d : ℕ) (a b : Text)
    → all_chars is_digit (c ∷ a) ≡ true
    → all_chars is_digit (d ∷ b) ≡ true
    → find_numbers 0 (c ∷ (a ++ 45 ∷ d ∷ b)) ≡ (c ∷ a) ∷ (45 ∷ d ∷ b) ∷ []
unfolding find_numbers
find_numbers-range c d a b h k =
    find_numbers-match c a (45 ∷ d ∷ b) (match_number-digits c a (d ∷ b) h)
    ∙ ap (◌∷◌ (c ∷ a)) (
        subst (λ (t : Text). find_numbers 0 (45 ∷ t) ≡ (45 ∷ d ∷ b) ∷ []) (append-nil (d ∷ b))
          (find_numbers-match 45 (d ∷ b) [] (
            subst (λ (t : Text). match_number (45 ∷ t) ≡ some (45 ∷ d ∷ b))
              (sym (append-nil (d ∷ b))) (match_number-signed d b k))))

range-numeric :
    (c d : ℕ) (a b : Text)
    → all_chars is_digit (c ∷ a) ≡ true
    → all_chars is_digit (d ∷ b) ≡ true
    → all_chars numeric (c ∷ (a ++ 45 ∷ d ∷ b)) ≡ true
unfolding all_chars
range-numeric c d a b h k =
    all_chars-append numeric (c ∷ a) (45 ∷ d ∷ b)
      (all_chars-imp is_digit numeric (c ∷ a) digit-numeric h)
      (all_chars-imp is_digit numeric (d ∷ b) digit-numeric k)

without_dollar-digit : (c : ℕ) (s : Text) → is_digit c ≡ true → without_dollar (c ∷ s) ≡ c ∷ s
unfolding without_dollar
without_dollar-digit c s h = ground arith

first_digit : (c : ℕ) (s : Text) → all_chars is_digit (c ∷ s) ≡ true → is_digit c ≡ true
unfolding all_chars
first_digit c s h = ground arith

module _ {F : Type 0} ⦃fl : Float64 F⦄ (lib : Library F) where
  is_missing-digit :
      (c : ℕ) (s : Text)
      → is_digit c ≡ true
      → lib.lower (c ∷ s) ≡ c ∷ s
      → is_missing lib (c ∷ s) ≡ false
  unfolding is_missing
  is_missing-digit c s h low = rw (low, is_missing) (ground arith)

  average-two :
      (m n : Text) {x y : F}
      → lib.parse_float m ≡ some x
      → lib.parse_float n ≡ some y
      → average lib (m ∷ n ∷ [])
        ≡ some (fl.div (fl.add (fl.add (fl.of_int (pos 0)) x) y) (fl.of_int (pos 2)))
  unfolding sum_matches
  average-two m n ex ey = rw (ex, ey, sum_matches) refl

  -- A text of digits, a hyphen and digits is read as half the sum of the first number and of the
  -- second with the hyphen as its sign, if strings.ToLower leaves the text alone and both numbers
  -- can be parsed.
  pub extract_number-range :
      (c d : ℕ) (a b : Text) {x y : F}
      → all_chars is_digit (c ∷ a) ≡ true
      → all_chars is_digit (d ∷ b) ≡ true
      → lib.lower (c ∷ (a ++ 45 ∷ d ∷ b)) ≡ c ∷ (a ++ 45 ∷ d ∷ b)
      → lib.parse_float (c ∷ a) ≡ some x
      → lib.parse_float (45 ∷ d ∷ b) ≡ some y
      → extract_number lib (text (c ∷ (a ++ 45 ∷ d ∷ b)))
        ≡ some (fl.div (fl.add (fl.add (fl.of_int (pos 0)) x) y) (fl.of_int (pos 2)))
  unfolding extract_number number_in
  extract_number-range c d a b h k low ex ey =
      let s = c ∷ (a ++ 45 ∷ d ∷ b) in
      let first = first_digit c a h in
      rw
        (
          trim_space-visible s (range-numeric c d a b h k),
          is_missing-digit c (a ++ 45 ∷ d ∷ b) first low,
          without_dollar-digit c (a ++ 45 ∷ d ∷ b) first,
          find_numbers-range c d a b h k,
        )
        (average-two (c ∷ a) (45 ∷ d ∷ b) ex ey)
