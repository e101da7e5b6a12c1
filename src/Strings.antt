-- ===== src/Strings.antt =====
-- The functions of Go's package strings that the modelled code calls. A text is the list of its
-- code points; Go's texts are UTF-8, and every text here comes from JSON or from a file that was
-- written from one.
pub mod Laws
pub mod Chars
pub mod Order
use Prim.Native.Char.{code}
use yuanyi.Base.{
  ℕ, zero, suc, ◌/◌, ◌%◌, ◌+◌, String, Bool, true, false, ◌&&◌, ◌||◌, not, List, [], ◌∷◌, ◌++◌,
  Option, none, some, ltb, leb, nat_eq, is_empty, is_none, if◌then◌else◌,
}

abbrev pub Text : Type 0
Text = List ℕ

-- A literal.
abbrev pub codes : String → Text
codes String.[] = []
codes (String.◌∷◌ c s) = code c ∷ codes s

unfoldable pub text_eq : Text → Text → Bool
text_eq [] [] = true
text_eq [] (c ∷ t) = false
text_eq (c ∷ s) [] = false
text_eq (c ∷ s) (d ∷ t) = nat_eq c d && text_eq s t

-- What follows a prefix, if the text has it.
unfoldable pub strip_prefix : Text → Text → Option Text
strip_prefix [] s = some s
strip_prefix (c ∷ p) [] = none
strip_prefix (c ∷ p) (d ∷ s) = if nat_eq c d then strip_prefix p s else none

abbrev pub has_prefix : Text → Text → Bool
has_prefix p s = not (is_none (strip_prefix p s))

-- strings.Contains(s, p)
unfoldable pub has_infix : Text → Text → Bool
unfolding strip_prefix
has_infix p [] = is_empty p
has_infix p (c ∷ s) = has_prefix p (c ∷ s) || has_infix p s

-- unicode.IsSpace
unfoldable pub is_space : ℕ → Bool
is_space c =
    (leb 9 c && leb c 13)
    || nat_eq c 32
    || nat_eq c 0x85
    || nat_eq c 0xA0
    || nat_eq c 0x1680
    || (leb 0x2000 c && leb c 0x200A)
    || nat_eq c 0x2028
    || nat_eq c 0x2029
    || nat_eq c 0x202F
    || nat_eq c 0x205F
    || nat_eq c 0x3000

unfoldable pub trim_left : Text → Text
trim_left [] = []
trim_left (c ∷ s) = if is_space c then trim_left s else c ∷ s

unfoldable pub trim_right : Text → Text
trim_right [] = []
trim_right (c ∷ s) = let rest = trim_right s in if is_empty rest && is_space c then [] else c ∷ rest

unfoldable pub trim_space : Text → Text
unfolding trim_left trim_right is_space
trim_space s = trim_right (trim_left s)

-- strings.TrimRight(s, "\r")
unfoldable pub trim_cr : Text → Text
trim_cr [] = []
trim_cr (c ∷ s) = let rest = trim_cr s in if is_empty rest && nat_eq c 13 then [] else c ∷ rest

-- One more character at the head of the first line.
abbrev pub cons_first : ℕ → List Text → List Text
cons_first c [] = (c ∷ []) ∷ []
cons_first c (l ∷ ls) = (c ∷ l) ∷ ls

-- strings.Split(s, "\n")
unfoldable pub split_lines : Text → List Text
split_lines [] = [] ∷ []
split_lines (c ∷ s) =
    let rest = split_lines s in if nat_eq c 10 then [] ∷ rest else cons_first c rest

-- strings.Join(ls, "\n")
unfoldable pub join_lines : List Text → Text
join_lines [] = []
join_lines (l ∷ []) = l
join_lines (l ∷ m ∷ ls) = l ++ 10 ∷ join_lines (m ∷ ls)

-- Up to the first newline, and what follows it, if there is one.
unfoldable pub cut_line : Text → Text × Text
cut_line [] = ([], [])
cut_line (c ∷ s) = let rest = cut_line s in if nat_eq c 10 then ([], s) else (c ∷ rest.0, rest.1)

-- Every character passes a test.
unfoldable pub all_chars : (ℕ → Bool) → Text → Bool
all_chars p [] = true
all_chars p (c ∷ s) = p c && all_chars p s

-- The longest run of characters that pass a test, and what follows it.
unfoldable pub span : (ℕ → Bool) → Text → Text × Text
span p [] = ([], [])
span p (c ∷ s) = let rest = span p s in if p c then (c ∷ rest.0, rest.1) else ([], c ∷ s)

abbrev pub is_digit : ℕ → Bool
is_digit c = leb 48 c && leb c 57

abbrev pub is_alnum : ℕ → Bool
is_alnum c = is_digit c || (leb 65 c && leb c 90) || (leb 97 c && leb c 122)

-- The class \s of Go's regular expressions.
abbrev pub is_re_space : ℕ → Bool
is_re_space c = nat_eq c 9 || nat_eq c 10 || nat_eq c 12 || nat_eq c 13 || nat_eq c 32

-- strings.ToLower, strings.ToUpper: of the ASCII letters (see the header).
abbrev pub to_lower : ℕ → ℕ
to_lower c = if leb 65 c && leb c 90 then c + 32 else c

-- %d, with fuel: a number has fewer digits than its successor counts.
unfoldable pub digits : ℕ → ℕ → Text → Text
digits zero n s = s
digits (suc fuel) n s =
    let rest = digits fuel (n / 10) ((48 + n % 10) ∷ s) in if ltb n 10 then (48 + n) ∷ s else rest

abbrev pub decimal : ℕ → Text
decimal n = digits (suc n) n []

-- strings.Split(s, " ")
unfoldable pub split_spaces : Text → List Text
split_spaces [] = [] ∷ []
split_spaces (c ∷ s) =
    let rest = split_spaces s in if nat_eq c 32 then [] ∷ rest else cons_first c rest

-- Up to the first place of a character, and what follows it, none if there is no such place.
unfoldable pub cut_at : ℕ → Text → Option (Text × Text)
cut_at sep [] = none
cut_at sep (c ∷ s) =
    let rest = cut_at sep s in
    if nat_eq c sep then some ([], s) else elim rest [ none ↦ none | some (k, v) ↦ some (c ∷ k, v) ]

-- strings.SplitN(s, sep, n + 1), for a separator of one character.
unfoldable pub split_n : ℕ → ℕ → Text → List Text
unfolding cut_at
split_n sep zero s = s ∷ []
split_n sep (suc n) s = elim (cut_at sep s) [ none ↦ s ∷ [] | some (k, v) ↦ k ∷ split_n sep n v ]
