-- ===== src/Console/Thousands.antt =====
-- Numbers with separators (formatNum of tui.go) beside their definition by thousands.
use mathlib.Core.List.{append_assoc}
use yuanyi.Base.{
  ℕ, zero, suc, ◌+◌, ◌-◌, ◌/◌, ◌%◌, ◌≤◌, ◌<◌, pos, Bool, true, false, ◌&&◌, [], ◌∷◌, ◌++◌, ◌≡◌, ◌∙◌,
  refl, sym, ap, arith, if◌then◌else◌, ltb, leb, nat_eq, length, length-append, Bool-cases, inl,
  inr, is_empty,
}
use yuanyi.Strings.{Text, digits, decimal}
use yuanyi.Telemetry.{show_int}
use yuanyi.Console.{with_commas, format_num}

-- The three digits of a number below 1000.
abbrev pub three_digits : ℕ → Text
three_digits r = (48 + r / 100) ∷ (48 + r / 10 % 10) ∷ (48 + r % 10) ∷ []

-- By thousands: the number of thousands, a comma, and the rest in three digits.
unfoldable pub by_thousands : ℕ → ℕ → Text
by_thousands zero n = []
by_thousands (suc fuel) n =
    let high = by_thousands fuel (n / 1000) in
    if ltb n 1000 then decimal n else high ++ 44 ∷ three_digits (n % 1000)

digits_fuel : (f g n : ℕ) (s : Text) → n < f → n < g → digits f n s ≡ digits g n s
unfolding digits
digits_fuel zero g n s h k = absurd (omega arith)
digits_fuel (suc f) zero n s h k = absurd (omega arith)
digits_fuel (suc f) (suc g) n s h k = elim (Bool-cases (ltb n 10)) [
  | inl e ↦ rw e refl
  | inr e ↦ rw e (digits_fuel f g (n / 10) ((48 + n % 10) ∷ s) (ground arith) (ground arith))
]

digits-append : (f n : ℕ) (s : Text) → n < f → digits f n s ≡ digits f n [] ++ s
unfolding digits
digits-append zero n s h = absurd (omega arith)
digits-append (suc f) n s h = elim (Bool-cases (ltb n 10)) [
  | inl e ↦ rw e refl
  | inr e ↦ rw e (
      digits-append f (n / 10) ((48 + n % 10) ∷ s) (ground arith)
      ∙ sym (append_assoc (digits f (n / 10) []) ((48 + n % 10) ∷ []) s)
      ∙ ap (λ t. t ++ s) (sym (digits-append f (n / 10) ((48 + n % 10) ∷ []) (ground arith))))
]

-- The last digit of a number of two or more.
decimal_step : (n : ℕ) → 10 ≤ n → decimal n ≡ decimal (n / 10) ++ (48 + n % 10) ∷ []
unfolding digits
decimal_step n h = elim (Bool-cases (ltb n 10)) [
  | inl e ↦ absurd (ground arith)
  | inr e ↦ rw e (
      digits_fuel n (suc (n / 10)) (n / 10) ((48 + n % 10) ∷ []) (omega arith) (omega arith)
      ∙ digits-append (suc (n / 10)) (n / 10) ((48 + n % 10) ∷ []) (omega arith))
]

same_digits :
    (n : ℕ)
    → decimal (n / 10 / 10 / 10)
        ++ (48 + n / 10 / 10 % 10) ∷ (48 + n / 10 % 10) ∷ (48 + n % 10) ∷ []
      ≡ decimal (n / 1000) ++ three_digits (n % 1000)
same_digits n =
    let a : n / 10 / 10 / 10 ≡ n / 1000 = omega arith in
    let b : n / 10 / 10 % 10 ≡ n % 1000 / 100 = omega arith in
    let c : n / 10 % 10 ≡ n % 1000 / 10 % 10 = omega arith in
    let d : n % 10 ≡ n % 1000 % 10 = omega arith in rw (a, b, c, d) refl

decimal_thousands : (n : ℕ) → 1000 ≤ n → decimal n ≡ decimal (n / 1000) ++ three_digits (n % 1000)
decimal_thousands n h =
    decimal_step n (omega arith)
    ∙ ap (λ t. t ++ (48 + n % 10) ∷ []) (decimal_step (n / 10) (omega arith))
    ∙ ap (λ t. (t ++ (48 + n / 10 % 10) ∷ []) ++ (48 + n % 10) ∷ [])
        (decimal_step (n / 10 / 10) (omega arith))
    ∙ append_assoc (decimal (n / 10 / 10 / 10) ++ (48 + n / 10 / 10 % 10) ∷ [])
        ((48 + n / 10 % 10) ∷ []) ((48 + n % 10) ∷ [])
    ∙ append_assoc (decimal (n / 10 / 10 / 10)) ((48 + n / 10 / 10 % 10) ∷ [])
        ((48 + n / 10 % 10) ∷ (48 + n % 10) ∷ [])
    ∙ same_digits n

-- Commas in a text, told by the number of digits that follow.
commas : Bool → Text → Text
commas started [] = []
commas started (c ∷ s) =
    let rest = commas true s in
    if started && nat_eq (length (c ∷ s) % 3) 0 then 44 ∷ c ∷ rest else c ∷ rest

commas-append :
    (s t : Text) → length t % 3 ≡ 0 → commas true (s ++ t) ≡ commas true s ++ commas true t
unfolding commas
commas-append [] t h = refl
commas-append (c ∷ s) t h =
    let e : length (c ∷ (s ++ t)) % 3 ≡ length (c ∷ s) % 3 = omega (arith, length-append s t) in
    elim (Bool-cases (nat_eq (length (c ∷ s) % 3) 0)) [
      | inl k ↦ rw (e, k) (ap (λ r. 44 ∷ c ∷ r) (commas-append s t h))
      | inr k ↦ rw (e, k) (ap (λ r. c ∷ r) (commas-append s t h))
    ]

commas_start :
    (s t : Text)
    → is_empty s ≡ false
    → length t % 3 ≡ 0
    → commas false (s ++ t) ≡ commas false s ++ commas true t
unfolding commas
commas_start [] t k h = cc
commas_start (c ∷ s) t k h = ap (λ r. c ∷ r) (commas-append s t h)

commas_short : (s : Text) → length s ≤ 3 → commas false s ≡ s
unfolding commas
commas_short [] h = refl
commas_short (a ∷ []) h = refl
commas_short (a ∷ b ∷ []) h = refl
commas_short (a ∷ b ∷ c ∷ []) h = refl
commas_short (a ∷ b ∷ c ∷ d ∷ s) h = absurd (omega arith)

-- The index of the loop counts the digits that went before.
with_commas-commas :
    (total i : ℕ) (s : Text) → i + length s ≡ total → with_commas total i s ≡ commas (ltb 0 i) s
unfolding with_commas commas
with_commas-commas total i [] h = refl
with_commas-commas total i (c ∷ s) h =
    let e : total - i ≡ length (c ∷ s) = omega arith in
    let p : ltb 0 (i + 1) ≡ true = ground arith in
    rw (e, with_commas-commas total (i + 1) s (omega arith), p) refl

format_num-commas : (n : ℕ) → format_num (pos n) ≡ commas false (decimal n)
unfolding format_num show_int
format_num-commas n = elim (Bool-cases (leb (length (decimal n)) 3)) [
  | inl e ↦ rw e (sym (commas_short (decimal n) (ground arith)))
  | inr e ↦ rw e (with_commas-commas (length (decimal n)) 0 (decimal n) (omega arith))
]

decimal_below_10 : (n : ℕ) → n < 10 → decimal n ≡ (48 + n) ∷ []
unfolding digits
decimal_below_10 n h = ground arith

length-decimal : (n : ℕ) → n < 1000 → length (decimal n) ≤ 3
length-decimal n h = elim (Bool-cases (ltb n 10)) [
  | inl e ↦ rw (decimal_below_10 n (ground arith)) (omega arith)
  | inr e ↦ elim (Bool-cases (ltb n 100)) [
    | inl k ↦
        rw (decimal_step n (ground arith), decimal_below_10 (n / 10) (ground arith)) (omega arith)
    | inr k ↦
        rw
          (
            decimal_step n (ground arith),
            decimal_step (n / 10) (ground arith),
            decimal_below_10 (n / 10 / 10) (ground arith),
          )
          (omega arith)
  ]
]

is_empty-snoc : (s : Text) (c : ℕ) → is_empty (s ++ c ∷ []) ≡ false
is_empty-snoc [] c = refl
is_empty-snoc (d ∷ s) c = refl

decimal_visible : (n : ℕ) → is_empty (decimal n) ≡ false
decimal_visible n = elim (Bool-cases (ltb n 10)) [
  | inl e ↦ rw (decimal_below_10 n (ground arith)) refl
  | inr e ↦ rw (decimal_step n (ground arith)) (is_empty-snoc (decimal (n / 10)) (48 + n % 10))
]

three_commas : (r : ℕ) → commas true (three_digits r) ≡ 44 ∷ three_digits r
unfolding commas
three_commas r = refl

commas-by_thousands : (f n : ℕ) → n < f → commas false (decimal n) ≡ by_thousands f n
unfolding by_thousands
commas-by_thousands zero n h = absurd (omega arith)
commas-by_thousands (suc f) n h = elim (Bool-cases (ltb n 1000)) [
  | inl e ↦ rw e (commas_short (decimal n) (length-decimal n (ground arith)))
  | inr e ↦ rw e (
      ap (commas false) (decimal_thousands n (ground arith))
      ∙ commas_start (decimal (n / 1000)) (three_digits (n % 1000)) (decimal_visible (n / 1000))
          refl
      ∙ rw (commas-by_thousands f (n / 1000) (ground arith), three_commas (n % 1000)) refl)
]

-- A count is printed by thousands: the number of thousands in the same way, a comma and three
-- digits, and without a comma below 1000.
pub format_num-by_thousands : (n : ℕ) → format_num (pos n) ≡ by_thousands (suc n) n
format_num-by_thousands n = format_num-commas n ∙ commas-by_thousands (suc n) n (omega arith)
