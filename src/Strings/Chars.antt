-- ===== src/Strings/Chars.antt =====
-- What holds of every character of a text holds of the texts made from its parts.
use yuanyi.Base.{
  ℕ, zero, suc, ◌+◌, ◌/◌, ◌%◌, Bool, true, false, List, [], ◌∷◌, ◌≡◌, refl, arith, All, nat_eq,
  get_elem?, get_or, Bool-cases, inl, inr,
}
use yuanyi.Strings.{
  Text, all_chars, trim_left, trim_right, trim_space, split_lines, cons_first, digits, has_infix,
  strip_prefix, is_digit,
}

module _ (p : ℕ → Bool) where
  abbrev pub Clean : Text → Type 0
  Clean s = all_chars p s ≡ true

  Clean-trim_left : (s : Text) → Clean s → Clean (trim_left s)
  unfolding all_chars trim_left
  Clean-trim_left [] h = refl
  Clean-trim_left (c ∷ s) h = ground (arith, Clean-trim_left s)

  Clean-trim_right : (s : Text) → Clean s → Clean (trim_right s)
  unfolding all_chars trim_right
  Clean-trim_right [] h = refl
  Clean-trim_right (c ∷ s) h = ground (arith, Clean-trim_right s)

  pub Clean-trim_space : (s : Text) → Clean s → Clean (trim_space s)
  unfolding trim_space
  Clean-trim_space s h = Clean-trim_right (trim_left s) (Clean-trim_left s h)

  pub Clean-cons_first :
      (c : ℕ) (ls : List Text) → p c ≡ true → All Clean ls → All Clean (cons_first c ls)
  unfolding all_chars
  Clean-cons_first c [] h k = (ground arith, tt)
  Clean-cons_first c (l ∷ ls) h k = (ground (arith, k.0), k.1)

  pub Clean-split_lines : (s : Text) → Clean s → All Clean (split_lines s)
  unfolding all_chars split_lines
  Clean-split_lines [] h = (refl, tt)
  Clean-split_lines (c ∷ s) h = elim (Bool-cases (nat_eq c 10)) [
    | inl e ↦ rw (e, split_lines) (refl, Clean-split_lines s (ground arith))
    | inr e ↦
        rw (e, split_lines)
          (Clean-cons_first c (split_lines s) (ground arith) (Clean-split_lines s (ground arith)))
  ]

  pub Clean-get_elem? : (ls : List Text) (i : ℕ) → All Clean ls → Clean (get_or (get_elem? ls i) [])
  unfolding all_chars
  Clean-get_elem? [] i h = refl
  Clean-get_elem? (l ∷ ls) zero h = h.0
  Clean-get_elem? (l ∷ ls) (suc i) h = Clean-get_elem? ls i h.1

  pub Clean-digits :
      ((d : ℕ) → is_digit d ≡ true → p d ≡ true)
      → (fuel n : ℕ) (s : Text) → Clean s
      → Clean (digits fuel n s)
  unfolding all_chars digits
  Clean-digits f zero n s h = h
  Clean-digits f (suc fuel) n s h =
      ground (arith, f (48 + n), f (48 + n % 10), Clean-digits f fuel (n / 10) ((48 + n % 10) ∷ s))

-- A character that fails a test is in no text that passes it.
pub has_infix-none :
    (p : ℕ → Bool) (c : ℕ) (s : Text)
    → p c ≡ false
    → all_chars p s ≡ true
    → has_infix (c ∷ []) s ≡ false
unfolding has_infix all_chars strip_prefix
has_infix-none p c [] h k = refl
has_infix-none p c (d ∷ s) h k = elim (Bool-cases (nat_eq c d)) [
  | inl e ↦ let same : c ≡ d = ground arith in ground arith
  | inr e ↦ ground (arith, has_infix-none p c s)
]
