-- ===== src/Sort/Scores.antt =====
-- The order by score, highest first, and then by name, which the hub sorts peers by.
use yuanyi.Base.{
  String, Bool, true, false, List, [], ◌∷◌, ◌≡◌, ◌≢◌, ◌⊎◌, All, All-imp, arith, if◌then◌else◌,
}
use yuanyi.Float.{Float64}
use yuanyi.Sort.Stable.{IsWeakOrder}
use yuanyi.Sort.{IsTotalOn, IsOrder}

-- `<` on strings.
pub record IsTextOrder (str_lt : String → String → Bool) : Type 0 where
  pub trans : (a b c : String) → str_lt a b ≡ true → str_lt b c ≡ true → str_lt a c ≡ true
  pub asym : (a b : String) → str_lt a b ≡ true → str_lt b a ≡ false
  pub weak : (a b c : String) → str_lt b a ≡ false → str_lt c b ≡ false → str_lt c a ≡ false
  pub total : (a b : String) → a ≢ b → (str_lt a b ≡ true) ⊎ (str_lt b a ≡ true)

-- No two elements have one name.
abbrev pub IsDistinct {ℓ} : {A : Type ℓ} → (A → String) → List A → Type 0
IsDistinct name [] = Unit
IsDistinct name (x ∷ xs) = All (λ y. name x ≢ name y) xs × IsDistinct name xs

lt_asym : {F : Type 0} ⦃fl : Float64 F⦄ (a b : F) → fl.lt a b ≡ true → fl.lt b a ≡ false
lt_asym ⦃fl⦄ a b h = ground (arith, fl.lt_trans a b a, fl.lt_irrefl a)

module _ {F : Type 0} ⦃fl : Float64 F⦄ {A : Type 0} (score : A → F) (name : A → String)
    (str_lt : String → String → Bool) where
  abbrev pub score_less : A → A → Bool
  score_less a b =
      if fl.eq (score a) (score b) then str_lt (name a) (name b) else fl.lt (score b) (score a)

  module _ (o : IsTextOrder str_lt) where
    score_less_asym : (x y : A) → score_less x y ≡ true → score_less y x ≡ false
    score_less_asym x y h = ground (
      arith,
      fl.eq_lt (score x) (score y),
      fl.eq_lt (score y) (score x),
      fl.lt_trans (score x) (score y) (score x),
      fl.lt_irrefl (score x),
      o.asym (name x) (name y),
    )

    score_less_trans :
        (x y z : A) → score_less x y ≡ true → score_less y z ≡ true → score_less x z ≡ true
    score_less_trans x y z h k = ground (
      arith,
      fl.eq_lt (score x) (score y),
      fl.eq_lt (score y) (score z),
      fl.eq_lt (score x) (score z),
      fl.lt_trans (score z) (score y) (score x),
      lt_asym (score x) (score y),
      lt_asym (score y) (score z),
      lt_asym (score x) (score z),
      fl.lt_split (score z) (score y) (score x),
      fl.lt_split (score x) (score y) (score z),
      fl.lt_split (score y) (score x) (score z),
      fl.lt_split (score z) (score x) (score y),
      fl.lt_split (score y) (score z) (score x),
      fl.lt_split (score x) (score z) (score y),
      o.trans (name x) (name y) (name z),
    )

    pub score_less-IsOrder : IsOrder score_less
    score_less-IsOrder = record { trans = score_less_trans; asym = score_less_asym }

    score_less_total :
        (x y : A) → name x ≢ name y → (score_less x y ≡ true) ⊎ (score_less y x ≡ true)
    score_less_total x y h = ground (
      arith,
      fl.eq_lt (score x) (score y),
      fl.eq_lt (score y) (score x),
      o.total (name x) (name y) h,
    )

    pub score_less-IsTotalOn : (xs : List A) → IsDistinct name xs → IsTotalOn score_less xs
    score_less-IsTotalOn [] d = tt
    score_less-IsTotalOn (x ∷ xs) d = (
      All-imp {P = λ y. name x ≢ name y} xs (λ y h. score_less_total x y h) d.0,
      score_less-IsTotalOn xs d.1,
    )

    score_less_weak :
        (x y z : A) → score_less y x ≡ false → score_less z y ≡ false → score_less z x ≡ false
    score_less_weak x y z h k = ground (
      arith,
      fl.eq_lt (score y) (score x),
      fl.eq_lt (score z) (score y),
      fl.eq_lt (score z) (score x),
      lt_asym (score x) (score y),
      lt_asym (score y) (score z),
      lt_asym (score x) (score z),
      fl.lt_split (score z) (score y) (score x),
      fl.lt_split (score x) (score y) (score z),
      fl.lt_split (score y) (score x) (score z),
      fl.lt_split (score z) (score x) (score y),
      fl.lt_split (score y) (score z) (score x),
      fl.lt_split (score x) (score z) (score y),
      o.weak (name x) (name y) (name z),
    )

    pub score_less-IsWeakOrder : IsWeakOrder score_less
    score_less-IsWeakOrder = record { trans = score_less_weak; asym = score_less_asym }
