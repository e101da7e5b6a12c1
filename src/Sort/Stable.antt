-- ===== src/Sort/Stable.antt =====
-- SliceStable sorts.
use mathlib.Core.List.{Permᴰ}
use mathlib.Core.List.Permᴰ
use yuanyi.Base.{Bool, true, false, List, [], ◌∷◌, ◌≡◌, refl, inl, inr, All, All-imp, Bool-cases}
use yuanyi.Sort.{insert, slice_stable, IsSorted, IsSortOf}

module _ {ℓ} {A : Type ℓ} (less : A → A → Bool) where
  -- Neither less nor equal is transitive.
  pub record IsWeakOrder : Type ℓ where
    pub trans : (x y z : A) → less y x ≡ false → less z y ≡ false → less z x ≡ false
    pub asym : (x y : A) → less x y ≡ true → less y x ≡ false

  insert-Permᴰ : (x : A) (xs : List A) → Permᴰ (x ∷ xs) (insert less x xs)
  unfolding insert
  insert-Permᴰ x [] = Permᴰ.refl (x ∷ [])
  insert-Permᴰ x (y ∷ ys) = elim (Bool-cases (less y x)) [
    | inl e ↦
        rw (e, insert) (Permᴰ.trans (Permᴰ.swap refl refl) (Permᴰ.cons refl (insert-Permᴰ x ys)))
    | inr e ↦ rw (e, insert) (Permᴰ.refl (x ∷ y ∷ ys))
  ]

  All-insert : (P : A → Type 0) (x : A) (xs : List A) → P x → All P xs → All P (insert less x xs)
  unfolding insert
  All-insert P x [] h k = (h, tt)
  All-insert P x (y ∷ ys) h k = elim (Bool-cases (less y x)) [
    | inl e ↦ rw (e, insert) (k.0, All-insert P x ys h k.1)
    | inr e ↦ rw (e, insert) (h, k)
  ]

  module _ (o : IsWeakOrder) where
    insert-IsSorted : (x : A) (xs : List A) → IsSorted less xs → IsSorted less (insert less x xs)
    unfolding insert
    insert-IsSorted x [] h = (tt, tt)
    insert-IsSorted x (y ∷ ys) h = elim (Bool-cases (less y x)) [
      | inl e ↦
          rw (e, insert)
            (All-insert (λ z. less z y ≡ false) x ys (o.asym y x e) h.0, insert-IsSorted x ys h.1)
      | inr e ↦
          rw (e, insert)
            ((e, All-imp {P = λ z. less z y ≡ false} ys (λ z k. o.trans x y z e k) h.0), h)
    ]

    pub slice_stable-IsSortOf : (xs : List A) → IsSortOf less xs (slice_stable less xs)
    unfolding slice_stable
    slice_stable-IsSortOf [] = record { perm = Permᴰ.nil; sorted = tt }
    slice_stable-IsSortOf (x ∷ xs) =
        let rest = slice_stable-IsSortOf xs in
        record {
          perm = Permᴰ.trans (Permᴰ.cons refl rest.perm) (insert-Permᴰ x (slice_stable less xs));
          sorted = insert-IsSorted x (slice_stable less xs) rest.sorted;
        }
