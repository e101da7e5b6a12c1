-- ===== src/Chat/Patterns.antt =====
-- The regular expressions of chat_history.go as matchers. Each is deterministic: wherever a
-- repetition could stop early, what follows it in the expression cannot start with a character of
-- the repeated class, but for the end of the front matter and of a marker, where the longest
-- repetition that lets the rest match is taken.
use yuanyi.Base.{
  ℕ, zero, suc, ◌+◌, ◌-◌, Bool, true, ◌&&◌, ◌||◌, not, List, [], ◌∷◌, Option, none, some, nat_eq,
  is_empty, if◌then◌else◌, ◌>>=◌, ◌>>◌, guard, length,
}
use yuanyi.Strings.{
  Text, codes, text_eq, strip_prefix, has_prefix, all_chars, span, is_digit, is_alnum, is_re_space,
}
use yuanyi.Chat.{is_id_char}

abbrev pub newline : Text → Bool
newline [] = true
newline (c ∷ s) = nat_eq c 10

-- \s+
abbrev pub spaces1 : Text → Option Text
spaces1 s = let run = span is_re_space s in if is_empty run.0 then none else some run.1

abbrev pub spaces : Text → Text
spaces s = (span is_re_space s).1

-- dataURLRe: the type of the image and its base64 payload.
unfoldable pub match_data_url : Text → Option (Text × Text)
unfolding strip_prefix span all_chars
match_data_url url = do
  s ← strip_prefix (codes "data:image/") url
  let run = span (λ c. is_alnum c || nat_eq c 46 || nat_eq c 43 || nat_eq c 45) s
  guard (not (is_empty run.0))
  payload ← strip_prefix (codes ";base64,") run.1
  guard (not (is_empty payload) && all_chars (λ c. not (nat_eq c 10)) payload)
  some (run.0, payload)

-- chatImageRefRe: the extension.
unfoldable pub match_image_ref : Text → Option Text
unfolding strip_prefix span all_chars
match_image_ref ref = do
  let id = span is_id_char ref
  guard (not (is_empty id.0))
  s ← strip_prefix (codes "/img-") id.1
  let number = span is_digit s
  guard (not (is_empty number.0))
  ext ← strip_prefix (codes ".") number.1
  guard (not (is_empty ext) && all_chars is_alnum ext)
  some ext

-- chatImageLineRe: the reference.
unfoldable pub match_image_line : Text → Option Text
unfolding strip_prefix span text_eq
match_image_line line = do
  s ← strip_prefix (codes "![image](") line
  let run = span (λ c. not (nat_eq c 41)) s
  guard (not (is_empty run.0) && text_eq run.1 (codes ")"))
  some run.0

-- The longest part of a text that `-->` follows.
unfoldable pub before_arrow : Text → Option Text
unfolding strip_prefix
before_arrow [] = none
before_arrow (c ∷ s) = elim (before_arrow s) [
  | some p ↦ some (c ∷ p)
  | none ↦ if has_prefix (codes "-->") (c ∷ s) then some [] else none
]

-- chatFrontMatterRe: the model.
unfoldable pub match_front_matter : Text → Option Text
unfolding strip_prefix span before_arrow
match_front_matter line = do
  s ← strip_prefix (codes "<!--") line
  s ← strip_prefix (codes "yuanyi-chat") (spaces s)
  s ← spaces1 s
  s ← strip_prefix (codes "id=") s
  let id = span (λ c. not (is_re_space c)) s
  guard (not (is_empty id.0))
  s ← spaces1 id.1
  s ← strip_prefix (codes "model=") s
  let model = span (λ c. not (is_re_space c)) s
  if has_prefix (codes "-->") (spaces model.1) then some model.0 else before_arrow model.0

-- \s*$ at the end of a marker: how many characters it takes, if it matches. It takes as many as
-- lead to the end of a line.
unfoldable pub match_line_end : Text → Option ℕ
match_line_end [] = some 0
match_line_end (c ∷ s) =
    let rest = match_line_end s in
    let here = if nat_eq c 10 then some 0 else none in
    if is_re_space c then elim rest [ some n ↦ some (n + 1) | none ↦ here ] else none

pub data Role : Type 0 where
  user : Role
  assistant : Role

abbrev pub role_name : Role → Text
role_name user = codes "user"
role_name assistant = codes "assistant"

-- (user|assistant)
abbrev pub match_role : Text → Option (Role × Text)
match_role s = elim (strip_prefix (role_name user) s) [
  | some rest ↦ some (user, rest)
  | none ↦ elim (strip_prefix (role_name assistant) s) [
    | some rest ↦ some (assistant, rest)
    | none ↦ none
  ]
]

-- chatMsgMarkerRe at the start of a line: the role and the length of the match.
unfoldable pub match_marker : Text → Option (Role × ℕ)
unfolding strip_prefix span match_line_end
match_marker t = do
  s ← strip_prefix (codes "<!--") t
  s ← strip_prefix (codes "msg") (spaces s)
  s ← spaces1 s
  s ← strip_prefix (codes "role=") s
  m ← match_role s
  s ← strip_prefix (codes "-->") (spaces m.1)
  n ← match_line_end s
  some (m.0, length t - length s + n)

-- FindAllStringSubmatchIndex and the cuts at its matches: the text before the first marker, and
-- for each marker its role and the text up to the next one. `start` says that a line starts here,
-- `skip` counts the characters left of the last match.
unfoldable pub split_markers : Bool → ℕ → Text → Text × List (Role × Text)
unfolding match_marker
split_markers start skip [] = ([], [])
split_markers start (suc skip) (c ∷ s) = split_markers (nat_eq c 10) skip s
split_markers start zero (c ∷ s) = elim (if start then match_marker (c ∷ s) else none) [
  | some (role, n) ↦
      let (pre, segments) = split_markers (nat_eq c 10) (n - 1) s in ([], (role, pre) ∷ segments)
  | none ↦ let (pre, segments) = split_markers (nat_eq c 10) zero s in (c ∷ pre, segments)
]
