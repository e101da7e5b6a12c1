-- ===== src/Sort.antt =====
-- Go's package sort: SliceStable as a function, and what Slice promises of its result.
pub mod Unique
pub mod Stable
pub mod Scores
use mathlib.Core.List.{Permᴰ}
use yuanyi.Base.{Bool, true, false, List, [], ◌∷◌, ◌≡◌, ◌⊎◌, All, subst, ap, map, if◌then◌else◌}

module _ {ℓ} {A : Type ℓ} (less : A → A → Bool) where
  -- Before the first element that is not less.
  unfoldable pub insert : A → List A → List A
  insert x [] = x ∷ []
  insert x (y ∷ ys) = let rest = insert x ys in if less y x then y ∷ rest else x ∷ y ∷ ys

  -- sort.SliceStable: elements of which neither is less keep their order.
  unfoldable pub slice_stable : List A → List A
  unfolding insert
  slice_stable [] = []
  slice_stable (x ∷ xs) = insert x (slice_stable xs)

  -- No element is less than one before it.
  abbrev pub IsSorted : List A → Type ℓ
  IsSorted [] = Unit
  IsSorted (x ∷ xs) = All (λ y. less y x ≡ false) xs × IsSorted xs

  -- One of any two elements is less than the other.
  abbrev pub IsTotalOn : List A → Type ℓ
  IsTotalOn [] = Unit
  IsTotalOn (x ∷ xs) = All (λ y. (less x y ≡ true) ⊎ (less y x ≡ true)) xs × IsTotalOn xs

  -- What sort.Slice documents of its result.
  pub record IsSortOf (xs ys : List A) : Type ℓ where
    pub perm : Permᴰ xs ys
    pub sorted : IsSorted ys

  pub record IsOrder : Type ℓ where
    pub trans : (x y z : A) → less x y ≡ true → less y z ≡ true → less x z ≡ true
    pub asym : (x y : A) → less x y ≡ true → less y x ≡ false

module _ {ℓ} {A : Type ℓ} where
  pub All-Permᴰ {κ} : (P : A → Type κ) {xs ys : List A} → Permᴰ xs ys → All P xs → All P ys
  All-Permᴰ P Permᴰ.nil h = tt
  All-Permᴰ P (Permᴰ.cons e p) h = (subst P e h.0, All-Permᴰ P p h.1)
  All-Permᴰ P (Permᴰ.swap e f) h = (subst P f h.1.0, (subst P e h.0, h.1.1))
  All-Permᴰ P (Permᴰ.trans p q) h = All-Permᴰ P q (All-Permᴰ P p h)

pub map-Permᴰ {ℓ κ} :
    {A : Type ℓ} {B : Type κ} (f : A → B) {xs ys : List A}
    → Permᴰ xs ys
    → Permᴰ (map f xs) (map f ys)
map-Permᴰ f Permᴰ.nil = Permᴰ.nil
map-Permᴰ f (Permᴰ.cons e p) = Permᴰ.cons (ap f e) (map-Permᴰ f p)
map-Permᴰ f (Permᴰ.swap e g) = Permᴰ.swap (ap f e) (ap f g)
map-Permᴰ f (Permᴰ.trans p q) = Permᴰ.trans (map-Permᴰ f p) (map-Permᴰ f q)
