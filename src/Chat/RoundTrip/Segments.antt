-- ===== src/Chat/RoundTrip/Segments.antt =====
-- The messages in the document, found again by their markers.
use yuanyi.Base.{
  ℕ, Bool, true, false, ◌&&◌, List, [], ◌∷◌, ◌++◌, none, some, ◌≡◌, refl, ◌∙◌, ap, suc, ◌+◌, ◌-◌,
  length, nat_eq, arith, Option-cases, inl, inr,
}
use yuanyi.Strings.{Text, codes, text_eq, has_prefix, strip_prefix, all_chars}
use yuanyi.Strings.Laws.{strip_prefix-line}
use yuanyi.Chat.Patterns.{match_marker, split_markers, Role, user, assistant, role_name}
use yuanyi.Chat.Write.{role_label, message_head}
use yuanyi.Chat.RoundTrip.Plain.{no_comment}

-- What is not a comment is no marker.
match_marker-none : (s : Text) → has_prefix (codes "<!--") s ≡ false → match_marker s ≡ none
unfolding match_marker
match_marker-none s h = elim (Option-cases (strip_prefix (codes "<!--") s)) [
  | inl e ↦ rw (e, match_marker) refl
  | inr (r, e) ↦ cc
]

-- More text before the first marker.
abbrev pub prepend : Text → Text × List (Role × Text) → Text × List (Role × Text)
prepend t (pre, segments) = (t ++ pre, segments)

split_markers-char :
    (start : Bool) (c : ℕ) (s : Text)
    → (start && has_prefix (codes "<!--") (c ∷ s)) ≡ false
    → split_markers start 0 (c ∷ s) ≡ prepend (c ∷ []) (split_markers (nat_eq c 10) 0 s)
unfolding split_markers
split_markers-char false c s h = refl
split_markers-char true c s h = rw (match_marker-none (c ∷ s) h, split_markers) refl

still_no_comment :
    (start : Bool) (s t : Text)
    → (start && has_prefix (codes "<!--") s) ≡ false
    → (start && has_prefix (codes "<!--") (s ++ 10 ∷ t)) ≡ false
unfolding all_chars
still_no_comment false s t h = refl
still_no_comment true s t h = strip_prefix-line (codes "<!--") s t refl h

-- Text with no comment goes to the segment that it stands in.
pub split_markers-text :
    (start : Bool) (s t : Text)
    → no_comment start s ≡ true
    → split_markers start 0 (s ++ 10 ∷ t) ≡ prepend (s ++ 10 ∷ []) (split_markers true 0 t)
unfolding no_comment
split_markers-text start [] t h =
    split_markers-char start 10 t (still_no_comment start [] t (ground arith))
split_markers-text start (c ∷ s) t h =
    split_markers-char start c (s ++ 10 ∷ t) (still_no_comment start (c ∷ s) t (ground arith))
    ∙ ap (prepend (c ∷ [])) (split_markers-text (nat_eq c 10) s t (ground arith))

-- The end of a marker's line, and the heading.
abbrev pub heading : Role → Text
heading role = codes "\n### " ++ role_label (role_name role) ++ codes "\n\n"

match_marker-written :
    (role : Role) (t : Text)
    → match_marker (codes "<!-- msg role=" ++ role_name role ++ codes " -->\n#" ++ t)
      ≡ some (role, 18 + length (role_name role))
unfolding match_marker
match_marker-written user t = ap (λ (n : ℕ). some (user, n)) (omega arith)
match_marker-written assistant t = ap (λ (n : ℕ). some (assistant, n)) (omega arith)

-- The text up to the next marker is the segment of this one.
abbrev pub open_segment : Role → Text → Text × List (Role × Text) → Text × List (Role × Text)
open_segment role head (pre, segments) = ([], (role, head ++ pre) ∷ segments)

split_markers-some :
    (c : ℕ) (s : Text) {role : Role} {n : ℕ}
    → match_marker (c ∷ s) ≡ some (role, n)
    → split_markers true 0 (c ∷ s) ≡ open_segment role [] (split_markers (nat_eq c 10) (n - 1) s)
unfolding split_markers
split_markers-some c s h = rw (h, split_markers) refl

split_markers-skip :
    (start : Bool) (s : Text) (c : ℕ) (t : Text)
    → split_markers start (suc (length s)) (s ++ c ∷ t) ≡ split_markers (nat_eq c 10) 0 t
unfolding split_markers
split_markers-skip start [] c t = refl
split_markers-skip start (d ∷ s) c t = split_markers-skip (nat_eq d 10) s c t

split_markers-marker :
    (role : Role) (t : Text)
    → split_markers true 0 (codes "<!-- msg role=" ++ role_name role ++ codes " -->\n#" ++ t)
      ≡ open_segment role [] (split_markers false 0 (codes "\n#" ++ t))
split_markers-marker user t =
    split_markers-some b'<' (codes "!-- msg role=user -->\n#" ++ t) (match_marker-written user t)
    ∙ ap (open_segment user [])
        (split_markers-skip false (codes "!-- msg role=user --") b'>' (codes "\n#" ++ t))
split_markers-marker assistant t =
    split_markers-some b'<' (codes "!-- msg role=assistant -->\n#" ++ t)
      (match_marker-written assistant t)
    ∙ ap (open_segment assistant [])
        (split_markers-skip false (codes "!-- msg role=assistant --") b'>' (codes "\n#" ++ t))

-- A marker that the writer makes, and the heading after it.
pub split_markers-head :
    (role : Role) (t : Text)
    → split_markers true 0 (message_head (role_name role) ++ t)
      ≡ open_segment role (heading role) (split_markers true 0 t)
unfolding text_eq no_comment
split_markers-head user t =
    split_markers-marker user (codes "## 👤 User\n\n" ++ t)
    ∙ ap (open_segment user []) (split_markers-text false (codes "\n### 👤 User\n") t refl)
split_markers-head assistant t =
    split_markers-marker assistant (codes "## 🤖 Assistant\n\n" ++ t)
    ∙ ap (open_segment assistant []) (split_markers-text false (codes "\n### 🤖 Assistant\n") t refl)
