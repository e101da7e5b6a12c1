-- ===== src/Chat/RoundTrip/Header.antt =====
-- The first lines of a document: the front matter and the title (chat_history.go).
use yuanyi.Base.{
  ℕ, Bool, true, false, not, [], ◌∷◌, ◌++◌, some, ◌≡◌, refl, ap, nat_eq, is_empty, arith,
}
use yuanyi.Strings.{Text, codes, trim_cr, trim_right, split_lines, is_re_space, all_chars}
use yuanyi.Strings.Laws.{
  IsTrimmed, split_lines-break, split_lines-line, trim_space_lem, trim_cr_lem, trim_cr-none,
  span-break, all_chars-append, all_chars-imp,
}
use yuanyi.Chat.{is_id_char, valid_session_id}
use yuanyi.Chat.Patterns.{match_front_matter}
use yuanyi.Chat.Write.{front_matter}
use yuanyi.Chat.Read.{find_title, drop_cr}
use yuanyi.Chat.RoundTrip.Plain.{no_comment}

-- A line that ends in no carriage return loses none.
pub drop_cr_lem : (s : Text) → trim_cr s ≡ s → drop_cr s ≡ s
unfolding trim_cr
drop_cr_lem [] h = refl
drop_cr_lem (c ∷ []) h = h
drop_cr_lem (c ∷ d ∷ s) h =
    let inner : trim_cr (d ∷ s) ≡ d ∷ s = ground arith in ap (◌∷◌ c) (drop_cr_lem (d ∷ s) inner)

-- No white space for a regular expression, so no line break.
abbrev word : ℕ → Bool
word c = not (is_re_space c)

abbrev pub one_line : ℕ → Bool
one_line c = not (nat_eq c 10)

id-word : (c : ℕ) → is_id_char c ≡ true → word c ≡ true
id-word c h = ground arith

word-one_line : (c : ℕ) → word c ≡ true → one_line c ≡ true
word-one_line c h = ground arith

abbrev no_cr : ℕ → Bool
no_cr c = not (nat_eq c 13)

word-no_cr : (c : ℕ) → word c ≡ true → no_cr c ≡ true
word-no_cr c h = ground arith

module _ (id model : Text) (valid : valid_session_id id ≡ true)
    (m : all_chars word model ≡ true) where
  id_chars : all_chars word id ≡ true
  unfolding valid_session_id
  id_chars = all_chars-imp is_id_char word id id-word (ground arith)

  pub front_matter_line : all_chars one_line (front_matter id model) ≡ true
  unfolding all_chars
  front_matter_line =
      all_chars-append one_line id (codes " model=" ++ (model ++ codes " -->"))
        (all_chars-imp word one_line id word-one_line id_chars)
        (all_chars-append one_line model (codes " -->")
          (all_chars-imp word one_line model word-one_line m) refl)

  pub drop_cr-front_matter : drop_cr (front_matter id model) ≡ front_matter id model
  unfolding all_chars
  drop_cr-front_matter = drop_cr_lem (front_matter id model) (
      trim_cr-none (front_matter id model) (
        all_chars-append no_cr id (codes " model=" ++ (model ++ codes " -->"))
          (all_chars-imp word no_cr id word-no_cr id_chars)
          (all_chars-append no_cr model (codes " -->") (all_chars-imp word no_cr model word-no_cr m)
            refl)))

  -- The expression finds the model.
  pub match-front_matter : match_front_matter (front_matter id model) ≡ some model
  unfolding match_front_matter valid_session_id
  match-front_matter =
      let id_end =
        span-break word id 32 (codes "model=" ++ (model ++ codes " -->")) id_chars refl in
      let model_end = span-break word model 32 (codes "-->") m refl in
      let filled : is_empty id ≡ false = ground arith in
      rw (id_end, match_front_matter) (rw (filled, model_end) refl)

pub trim_cr-title :
    (title : Text) → trim_right title ≡ title → trim_cr (codes "# " ++ title) ≡ codes "# " ++ title
unfolding trim_cr
trim_cr-title title h = rw (trim_cr_lem title h) (ground arith)

pub find_title-written :
    (title rest : Text)
    → IsTrimmed title
    → all_chars one_line title ≡ true
    → find_title (split_lines (codes "# " ++ (title ++ 10 ∷ rest))) ≡ title
unfolding find_title all_chars
find_title-written title rest t l =
    let first = codes "# " ++ title in
    rw (split_lines-break first rest, split_lines-line first l)
      (rw (trim_cr-title title t.1, find_title) (trim_space_lem title t))

pub no_comment-line : (s : Text) → all_chars one_line s ≡ true → no_comment false s ≡ true
unfolding all_chars no_comment
no_comment-line [] h = refl
no_comment-line (c ∷ s) h = ground (arith, no_comment-line s)
