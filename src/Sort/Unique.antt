-- ===== src/Sort/Unique.antt =====
-- What sorting gives does not depend on the order of the input, where the order is total.
use mathlib.Core.List.{Permᴰ}
use yuanyi.Base.{
  Bool, true, List, [], ◌∷◌, ◌≡◌, refl, sym, ap, ◌∙◌, subst, ◌⊎◌, inl, inr, All, arith,
}
use yuanyi.Sort.{All-Permᴰ, insert, slice_stable, IsSorted, IsTotalOn, IsSortOf, IsOrder}

module _ {ℓ} {A : Type ℓ} (less : A → A → Bool) where
  abbrev Related : A → A → Type 0
  Related x y = (less x y ≡ true) ⊎ (less y x ≡ true)

  Related-sym : (x y : A) → Related x y → Related y x
  Related-sym x y (inl h) = inr h
  Related-sym x y (inr h) = inl h

  IsTotalOn-Permᴰ : {xs ys : List A} → Permᴰ xs ys → IsTotalOn less xs → IsTotalOn less ys
  IsTotalOn-Permᴰ Permᴰ.nil t = tt
  IsTotalOn-Permᴰ (Permᴰ.cons {l₂ = ys} e p) t =
      (subst (λ b. All (Related b) ys) e (All-Permᴰ (Related _) p t.0), IsTotalOn-Permᴰ p t.1)
  IsTotalOn-Permᴰ (Permᴰ.swap {a = a} {b = b} {a' = a'} {l = l} e f) t =
      subst (λ v. IsTotalOn less (a' ∷ v ∷ l)) e
        (subst (λ u. IsTotalOn less (u ∷ a ∷ l)) f ((Related-sym a b t.0.0, t.1.0), (t.0.1, t.1.1)))
  IsTotalOn-Permᴰ (Permᴰ.trans p q) t = IsTotalOn-Permᴰ q (IsTotalOn-Permᴰ p t)

  module _ (o : IsOrder less) where
    insert-insert :
        (x y : A) (l : List A)
        → less x y ≡ true
        → insert less x (insert less y l) ≡ insert less y (insert less x l)
    unfolding insert
    insert-insert x y [] h = ground (arith, o.asym x y)
    insert-insert x y (z ∷ l) h = ground (arith, o.asym x y, o.trans z x y, insert-insert x y l h)

    insert_comm :
        (x y : A) (l : List A)
        → Related x y
        → insert less x (insert less y l) ≡ insert less y (insert less x l)
    insert_comm x y l (inl h) = insert-insert x y l h
    insert_comm x y l (inr h) = sym (insert-insert y x l h)

    -- The stable sort gives one list for all orders of the input.
    pub slice_stable-perm :
        {xs ys : List A}
        → Permᴰ xs ys
        → IsTotalOn less xs
        → slice_stable less xs ≡ slice_stable less ys
    unfolding slice_stable
    slice_stable-perm Permᴰ.nil t = refl
    slice_stable-perm (Permᴰ.cons e p) t = cc (e, slice_stable-perm p t.1)
    slice_stable-perm (Permᴰ.swap {a = a} {b = b} {l = l} e f) t =
        insert_comm a b (slice_stable less l) t.0.0 ∙ cc (e, f)
    slice_stable-perm (Permᴰ.trans p q) t =
        slice_stable-perm p t ∙ slice_stable-perm q (IsTotalOn-Permᴰ p t)

    slice_stable-sorted : (xs : List A) → IsSorted less xs → slice_stable less xs ≡ xs
    unfolding slice_stable insert
    slice_stable-sorted [] h = refl
    slice_stable-sorted (x ∷ []) h = refl
    slice_stable-sorted (x ∷ y ∷ xs) h =
        ap (insert less x) (slice_stable-sorted (y ∷ xs) h.1) ∙ rw h.0.0 refl

    -- Whatever sorting function, the result is one list for all orders of the input.
    pub IsSortOf-eq :
        {xs ys xs' ys' : List A}
        → IsSortOf less xs xs'
        → IsSortOf less ys ys'
        → Permᴰ xs ys
        → IsTotalOn less xs
        → xs' ≡ ys'
    IsSortOf-eq {xs' = xs'} {ys' = ys'} s r p t =
        sym (slice_stable-sorted xs' s.sorted)
        ∙ sym (slice_stable-perm s.perm t)
        ∙ slice_stable-perm p t
        ∙ slice_stable-perm r.perm (IsTotalOn-Permᴰ p t)
        ∙ slice_stable-sorted ys' r.sorted
