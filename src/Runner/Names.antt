-- ===== src/Runner/Names.antt =====
-- The names under which a Windows node serves its model (runner.go).
use yuanyi.Base.{
  ℕ, false, List, [], ◌∷◌, some, ◌≡◌, refl, sym, subst, Elem, here, there, get_elem?, is_empty,
  if◌then◌else◌, Bool-cases, inl, inr,
}
use yuanyi.Strings.{Text, codes, text_eq}
use yuanyi.Strings.Laws.{text_eq-eq}
use yuanyi.Runner.Windows.{choose_model, served_names, is_stock_model}

-- What a client relies on: the loaded model is among the names, and the first name is the
-- configured one, if there is one.
pub record IsServed (configured model : Text) (names : List Text) : Type 0 where
  pub loaded : Elem model names
  pub named : get_elem? names 0 ≡ some (if is_empty configured then model else configured)

-- A model that takes the place of another is served under both names.
replaced :
    (configured : Text) (c : ℕ) (model : Text)
    → IsServed configured (c ∷ model) (served_names configured (c ∷ model, c ∷ model))
unfolding served_names
replaced [] c model = record { loaded = here; named = refl }
replaced (d ∷ s) c model = elim (Bool-cases (text_eq (c ∷ model) (d ∷ s))) [
  | inl e ↦ rw e (record {
    loaded = subst (λ m. Elem m ((d ∷ s) ∷ [])) (sym (text_eq-eq (c ∷ model) (d ∷ s) e)) here;
    named = refl;
  })
  | inr e ↦ rw e (record { loaded = there here; named = refl })
]

kept :
    (configured : Text)
    → is_stock_model configured ≡ false
    → IsServed configured configured (served_names configured (configured, []))
unfolding served_names is_stock_model
kept [] h = cc
kept (d ∷ s) h = record { loaded = here; named = refl }

-- Without local weights the model that is loaded is always among the names that the server answers
-- to, and the first of them is the configured name, if there is one, so that requests for it find
-- the server though another model takes its place.
pub served_names-choose_model :
    (configured : Text)
    → IsServed configured
        (choose_model [] configured).0
        (served_names configured (choose_model [] configured))
unfolding choose_model
served_names-choose_model configured = elim (Bool-cases (is_stock_model configured)) [
  | inl e ↦ rw e (replaced configured 81 (codes "wen/Qwen3-4B-AWQ"))
  | inr e ↦ rw e (kept configured e)
]
