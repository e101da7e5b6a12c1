-- ===== src/Strings/Order.antt =====
-- Go's `<` on strings. It compares bytes, and UTF-8 keeps the order of the code points.
use Prim.Native.Char.{code}
use text.Mathlib.TextEquality.{Char-path}
use yuanyi.Base.{
  String, Bool, true, false, ◌&&◌, ◌||◌, [], ◌∷◌, ◌≡◌, ◌≢◌, refl, ◌⊎◌, inl, inr, arith, ltb, nat_eq,
  Bool-cases,
}
use yuanyi.Strings.{Text, codes}
use yuanyi.Sort.Scores.{IsTextOrder}

unfoldable pub text_lt : Text → Text → Bool
text_lt s [] = false
text_lt [] (d ∷ t) = true
text_lt (c ∷ s) (d ∷ t) = ltb c d || (nat_eq c d && text_lt s t)

text_lt_trans : (r s t : Text) → text_lt r s ≡ true → text_lt s t ≡ true → text_lt r t ≡ true
unfolding text_lt
text_lt_trans r s [] h k = cc
text_lt_trans r [] (d ∷ t) h k = cc
text_lt_trans [] (c ∷ s) (d ∷ t) h k = refl
text_lt_trans (b ∷ r) (c ∷ s) (d ∷ t) h k = ground (arith, text_lt_trans r s t)

text_lt_asym : (s t : Text) → text_lt s t ≡ true → text_lt t s ≡ false
unfolding text_lt
text_lt_asym s [] h = cc
text_lt_asym [] (d ∷ t) h = refl
text_lt_asym (c ∷ s) (d ∷ t) h = ground (arith, text_lt_asym s t)

text_lt_weak : (r s t : Text) → text_lt s r ≡ false → text_lt t s ≡ false → text_lt t r ≡ false
unfolding text_lt
text_lt_weak [] s t h k = refl
text_lt_weak (b ∷ r) [] t h k = cc
text_lt_weak (b ∷ r) (c ∷ s) [] h k = cc
text_lt_weak (b ∷ r) (c ∷ s) (d ∷ t) h k = ground (arith, text_lt_weak r s t)

text_lt_total : (s t : Text) → s ≢ t → (text_lt s t ≡ true) ⊎ (text_lt t s ≡ true)
unfolding text_lt
text_lt_total [] [] h = absurd (h refl)
text_lt_total [] (d ∷ t) h = inl refl
text_lt_total (c ∷ s) [] h = inr refl
text_lt_total (c ∷ s) (d ∷ t) h = elim (Bool-cases (nat_eq c d)) [
  | inl e ↦
      let same : c ≡ d = ground arith in ground (arith, text_lt_total s t (λ p. h (cc (same, p))))
  | inr e ↦ ground arith
]

codes_inj : (a b : String) → codes a ≡ codes b → a ≡ b
codes_inj String.[] String.[] h = refl
codes_inj String.[] (String.◌∷◌ d t) h = cc
codes_inj (String.◌∷◌ c s) String.[] h = cc
codes_inj (String.◌∷◌ c s) (String.◌∷◌ d t) h =
    let first : code c ≡ code d = cc in
    let rest : codes s ≡ codes t = cc in cc (Char-path c d first, codes_inj s t rest)

unfoldable pub str_lt : String → String → Bool
unfolding text_lt
str_lt a b = text_lt (codes a) (codes b)

pub str_lt-IsTextOrder : IsTextOrder str_lt
unfolding str_lt
str_lt-IsTextOrder = record {
  trans = λ a b c h k. text_lt_trans (codes a) (codes b) (codes c) h k;
  asym = λ a b h. text_lt_asym (codes a) (codes b) h;
  weak = λ a b c h k. text_lt_weak (codes a) (codes b) (codes c) h k;
  total = λ a b ne. text_lt_total (codes a) (codes b) (λ e. ne (codes_inj a b e));
}
