-- ===== src/Gossip/Advertised.antt =====
-- The address that a node tells the others (selectBestAddr of p2p.go).
use yuanyi.Base.{
  Bool, List, [], ◌∷◌, ◌++◌, Option, some, ◌≡◌, ◌∙◌, refl, ap, if◌then◌else◌, is_empty, select,
  get_elem?, Bool-cases, inl, inr,
}
use yuanyi.Console.History.{first_some}
use yuanyi.Gossip.{AddrKind, is_public, is_deferred, filter_advertised_addrs, select_best_addr}

module _ {A : Type 0} where
  -- The first element that passes a test, or a default.
  abbrev pub first : (A → Bool) → List A → Option A → Option A
  first p [] o = o
  first p (x ∷ xs) o = let rest = first p xs o in if p x then some x else rest

  first-select :
      (p : A → Bool) (xs ys : List A) (o : Option A)
      → first_some (get_elem? (select p xs ++ ys) 0) o ≡ first p xs (first_some (get_elem? ys 0) o)
  first-select p [] ys o = refl
  first-select p (x ∷ xs) ys o = elim (Bool-cases (p x)) [
    | inl e ↦ rw e refl
    | inr e ↦ rw e (first-select p xs ys o)
  ]

  deferred_first :
      (p : A → Bool) (xs : List A) (o : Option A)
      → first_some (get_elem? (select p xs) 0) o ≡ first p xs o
  deferred_first p [] o = refl
  deferred_first p (x ∷ xs) o = elim (Bool-cases (p x)) [
    | inl e ↦ rw e refl
    | inr e ↦ rw e (deferred_first p xs o)
  ]

  head_or :
      (f d : List A)
      → get_elem? (if is_empty f then d else f) 0 ≡ first_some (get_elem? f 0) (get_elem? d 0)
  head_or [] d = refl
  head_or (x ∷ f) d = refl

  -- The address is the first public one; without one, the first that is private or no IP address;
  -- without either, the first of all, though it be of no use to others.
  pub select_best_addr_lem :
      (kind : A → AddrKind) (addrs : List A)
      → select_best_addr kind addrs
        ≡ first
            (λ a. is_public (kind a))
            addrs
            (first (λ a. is_deferred (kind a)) addrs (get_elem? addrs 0))
  unfolding select_best_addr filter_advertised_addrs
  select_best_addr_lem kind addrs =
      let deferred = select (λ a. is_deferred (kind a)) addrs in
      head_or (select (λ a. is_public (kind a)) addrs ++ deferred) addrs
      ∙ first-select (λ a. is_public (kind a)) addrs deferred (get_elem? addrs 0)
      ∙ ap (first (λ a. is_public (kind a)) addrs)
          (deferred_first (λ a. is_deferred (kind a)) addrs (get_elem? addrs 0))
