-- ===== src/Strings/Laws.antt =====
-- The functions on text, under concatenation.
use mathlib.Core.List.{append_assoc}
use yuanyi.Base.{
  ℕ, ◌≤◌, Bool, true, false, ◌&&◌, not, List, [], ◌∷◌, ◌++◌, some, ◌≡◌, refl, ap, ◌∙◌, arith,
  length, nat_eq, is_empty, Bool-cases, inl, inr,
}
use yuanyi.Strings.{
  Text, text_eq, strip_prefix, has_prefix, is_space, trim_left, trim_right, trim_space, trim_cr,
  cons_first, split_lines, join_lines, cut_line, all_chars, span,
}

pub text_eq_refl : (s : Text) → text_eq s s ≡ true
unfolding text_eq
text_eq_refl [] = refl
text_eq_refl (c ∷ s) = ground (arith, text_eq_refl s)

pub text_eq-eq : (s t : Text) → text_eq s t ≡ true → s ≡ t
unfolding text_eq
text_eq-eq [] [] h = refl
text_eq-eq [] (d ∷ t) h = cc
text_eq-eq (c ∷ s) [] h = cc
text_eq-eq (c ∷ s) (d ∷ t) h = ground (arith, text_eq-eq s t)

pub strip_prefix-append : (p s : Text) → strip_prefix p (p ++ s) ≡ some s
unfolding strip_prefix
strip_prefix-append [] s = refl
strip_prefix-append (c ∷ p) s = ground (arith, strip_prefix-append p s)

-- A prefix without line breaks that a line lacks is not made by what follows the line.
pub strip_prefix-line :
    (p s t : Text)
    → all_chars (λ c. not (nat_eq c 10)) p ≡ true
    → has_prefix p s ≡ false
    → has_prefix p (s ++ 10 ∷ t) ≡ false
unfolding strip_prefix all_chars
strip_prefix-line [] s t h k = cc
strip_prefix-line (c ∷ p) [] t h k = ground arith
strip_prefix-line (c ∷ p) (d ∷ s) t h k = ground (arith, strip_prefix-line p s t)

-- Nothing to trim at either end.
abbrev pub IsTrimmed : Text → Type 0
IsTrimmed s = (trim_left s ≡ s) × (trim_right s ≡ s)

length-trim_left : (s : Text) → length (trim_left s) ≤ length s
unfolding trim_left
length-trim_left [] = omega arith
length-trim_left (c ∷ s) = ground (arith, length-trim_left s)

-- A text that starts with a visible character.
pub trim_left-visible : (c : ℕ) (s : Text) → trim_left (c ∷ s) ≡ c ∷ s → is_space c ≡ false
unfolding trim_left
trim_left-visible c s h = elim (Bool-cases (is_space c)) [
  | inl e ↦ absurd (omega (arith, length-trim_left s, ap length (rw e at h)))
  | inr e ↦ e
]

pub trim_right-append_space :
    (s : Text) (c : ℕ) → is_space c ≡ true → trim_right (s ++ c ∷ []) ≡ trim_right s
unfolding trim_right
trim_right-append_space [] c h = ground arith
trim_right-append_space (d ∷ s) c h = ground (arith, trim_right-append_space s c h)

pub trim_space_lem : (s : Text) → IsTrimmed s → trim_space s ≡ s
unfolding trim_space
trim_space_lem s h = cc

pub trim_cr_lem : (s : Text) → trim_right s ≡ s → trim_cr s ≡ s
unfolding trim_right trim_cr is_space
trim_cr_lem [] h = refl
trim_cr_lem (c ∷ s) h = elim (Bool-cases (is_empty (trim_right s) && is_space c)) [
  | inl e ↦ ground arith
  | inr e ↦ ground (arith, trim_cr_lem s)
]

split_lines-cons : (s : Text) → (l : Text) × (ls : List Text) × (split_lines s ≡ l ∷ ls)
unfolding split_lines
split_lines-cons [] = ([], [], refl)
split_lines-cons (c ∷ s) =
    let (l, ls, e) = split_lines-cons s in
    elim (Bool-cases (nat_eq c 10)) [
      | inl nl ↦ ([], l ∷ ls, ground arith)
      | inr other ↦ (c ∷ l, ls, ground arith)
    ]

cons_first-append :
    (c : ℕ) (s : Text) (ls : List Text)
    → cons_first c (split_lines s ++ ls) ≡ cons_first c (split_lines s) ++ ls
cons_first-append c s ls = let (l, ms, e) = split_lines-cons s in ground arith

pub split_lines-break : (s t : Text) → split_lines (s ++ 10 ∷ t) ≡ split_lines s ++ split_lines t
unfolding split_lines
split_lines-break [] t = refl
split_lines-break (c ∷ s) t =
    ground (arith, split_lines-break s t, cons_first-append c s (split_lines t))

join_lines-cons_first :
    (c : ℕ) (s : Text) → join_lines (cons_first c (split_lines s)) ≡ c ∷ join_lines (split_lines s)
unfolding join_lines
join_lines-cons_first c s = let (l, ls, e) = split_lines-cons s in rw e (join_cons c l ls)
  where
    join_cons :
        (c : ℕ) (l : Text) (ls : List Text) → join_lines ((c ∷ l) ∷ ls) ≡ c ∷ join_lines (l ∷ ls)
    join_cons c l [] = refl
    join_cons c l (m ∷ ls) = refl

pub join_lines-split_lines : (s : Text) → join_lines (split_lines s) ≡ s
unfolding join_lines split_lines
join_lines-split_lines [] = refl
join_lines-split_lines (c ∷ s) = elim (Bool-cases (nat_eq c 10)) [
  | inl nl ↦
      let (l, ls, e) = split_lines-cons s in
      let line : c ≡ 10 = ground arith in ground (arith, join_lines-split_lines s)
  | inr other ↦ rw other (join_lines-cons_first c s ∙ ap (◌∷◌ c) (join_lines-split_lines s))
]

-- One line alone.
pub split_lines-line :
    (s : Text) → all_chars (λ c. not (nat_eq c 10)) s ≡ true → split_lines s ≡ s ∷ []
unfolding split_lines all_chars
split_lines-line [] h = refl
split_lines-line (c ∷ s) h = ground (arith, split_lines-line s)

pub cut_line-break :
    (s t : Text) → all_chars (λ c. not (nat_eq c 10)) s ≡ true → cut_line (s ++ 10 ∷ t) ≡ (s, t)
unfolding cut_line all_chars
cut_line-break [] t h = refl
cut_line-break (c ∷ s) t h = ground (arith, cut_line-break s t)

pub span-break :
    (p : ℕ → Bool) (s : Text) (c : ℕ) (t : Text)
    → all_chars p s ≡ true
    → p c ≡ false
    → span p (s ++ c ∷ t) ≡ (s, c ∷ t)
unfolding span all_chars
span-break p [] c t h k = ground arith
span-break p (d ∷ s) c t h k = ground (arith, span-break p s c t)

trim_right-lines : (s : Text) → trim_right (s ++ 10 ∷ 10 ∷ []) ≡ trim_right s
unfolding is_space
trim_right-lines s =
    rw (← append_assoc s (10 ∷ []) (10 ∷ []))
      (trim_right-append_space (s ++ 10 ∷ []) 10 refl ∙ trim_right-append_space s 10 refl)

-- What encloses a trimmed text is trimmed off.
pub trim_space-lines : (s : Text) → IsTrimmed s → trim_space (10 ∷ (s ++ 10 ∷ 10 ∷ [])) ≡ s
unfolding trim_space trim_left
trim_space-lines [] h = refl
trim_space-lines (c ∷ s) h =
    let visible : is_space c ≡ false = trim_left-visible c s h.0 in
    rw visible (trim_right-lines (c ∷ s) ∙ h.1)

pub all_chars-append :
    (p : ℕ → Bool) (s t : Text)
    → all_chars p s ≡ true
    → all_chars p t ≡ true
    → all_chars p (s ++ t) ≡ true
unfolding all_chars
all_chars-append p [] t h k = k
all_chars-append p (c ∷ s) t h k = ground (arith, all_chars-append p s t)

pub all_chars-imp :
    (p q : ℕ → Bool) (s : Text)
    → ((c : ℕ) → p c ≡ true → q c ≡ true)
    → all_chars p s ≡ true
    → all_chars q s ≡ true
unfolding all_chars
all_chars-imp p q [] f h = refl
all_chars-imp p q (c ∷ s) f h = ground (arith, f c, all_chars-imp p q s f)

pub trim_cr-none : (s : Text) → all_chars (λ c. not (nat_eq c 13)) s ≡ true → trim_cr s ≡ s
unfolding all_chars trim_cr
trim_cr-none [] h = refl
trim_cr-none (c ∷ s) h = ground (arith, trim_cr-none s)

pub split_lines-first :
    (s t : Text)
    → all_chars (λ c. not (nat_eq c 10)) s ≡ true
    → split_lines (s ++ 10 ∷ t) ≡ s ∷ split_lines t
split_lines-first s t h =
    split_lines-break s t ∙ ap (λ (ls : List Text). ls ++ split_lines t) (split_lines-line s h)

pub strip_prefix-some : (p s : Text) {r : Text} → strip_prefix p s ≡ some r → s ≡ p ++ r
unfolding strip_prefix
strip_prefix-some [] s h = ground arith
strip_prefix-some (c ∷ p) [] h = cc
strip_prefix-some (c ∷ p) (d ∷ s) h = elim (Bool-cases (nat_eq c d)) [
  | inl e ↦ let same : c ≡ d = ground arith in let rest = strip_prefix-some p s (rw e at h) in cc
  | inr e ↦ ground arith
]
