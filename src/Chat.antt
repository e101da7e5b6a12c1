-- ===== src/Chat.antt =====
-- Sessions, messages and paths of chat_history.go, and the directory that keeps them.
pub mod Patterns
pub mod Write
pub mod Read
pub mod Routes
pub mod RoundTrip
pub mod Files
pub mod Handler
pub mod Trust
use yuanyi.Base.{
  ℕ, Bool, true, false, ◌&&◌, ◌||◌, not, List, [], ◌∷◌, ◌++◌, Option, none, some, ◌≡◌, refl, ◌∙◌,
  arith, Option-cases, inl, inr, ltb, nat_eq, is_empty, is_none, if◌then◌else◌,
}
use yuanyi.Strings.{Text, codes, text_eq, has_prefix, strip_prefix, all_chars, is_alnum}
use yuanyi.Strings.Laws.{text_eq_refl, text_eq-eq}

-- One element of a content array; `image_url` is the URL of the member image_url.
pub record ChatContentPart : Type 0 where
  pub kind : Text
  pub text : Text
  pub image_url : Option Text

-- json.RawMessage, as far as json.Unmarshal tells its values apart: a string, an array of parts,
-- and anything else.
pub data Content : Type 0 where
  text_content : Text → Content
  parts_content : List ChatContentPart → Content
  other_content : Content

pub record ChatMessage : Type 0 where
  pub role : Text
  pub content : Content

pub record ChatSession : Type 0 where
  pub id : Text
  pub title : Text
  pub model : Text
  pub messages : List ChatMessage

-- The files by their paths. Directories show only in the paths.
abbrev pub Disk : Type 0
Disk = List (Text × Text)

unfoldable pub file_at : Text → Disk → Option Text
file_at p [] = none
file_at p ((q, c) ∷ d) = if text_eq q p then some c else file_at p d

unfoldable pub save : Text → Text → Disk → Disk
save p c [] = (p, c) ∷ []
save p c ((q, b) ∷ d) = if text_eq q p then (p, c) ∷ d else (q, b) ∷ save p c d

-- Removes the files whose paths pass a test.
unfoldable pub erase : (Text → Bool) → Disk → Disk
erase gone [] = []
erase gone ((q, c) ∷ d) = let rest = erase gone d in if gone q then rest else (q, c) ∷ rest

-- What the operating system lets succeed: making a directory, reading, writing and removing the
-- file at a path. Another operation than writing leaves the disk alone if it fails. base64 is
-- the standard encoding, `too_long` says which lines exceed the buffer of bufio.Scanner. `left_over` is what a failed
-- os.WriteFile leaves of a content in a file that it could open.
pub record System : Type 0 where
  pub can_make : Text → Bool
  pub can_read : Text → Bool
  pub can_write : Text → Bool
  pub can_remove : Text → Bool
  pub encode : Text → Text
  pub decode : Text → Option Text
  pub too_long : Text → Bool
  pub left_over : Text → Text → Option Text

-- The disk after an os.WriteFile that fails.
unfoldable pub leave : System → Text → Text → Disk → Disk
leave sys path content disk = elim (sys.left_over path content) [
  | none ↦ disk
  | some part ↦ save path part disk
]

-- os.ReadFile
abbrev pub read_file : System → Disk → Text → Option Text
read_file sys disk path = if sys.can_read path then file_at path disk else none

-- filepath.Join of parts that are clean: every call here passes parts with no empty, `.` or `..`
-- element.
abbrev pub join_path : Text → Text → Text
join_path a b = a ++ 47 ∷ b

abbrev pub chat_sessions_dir : Text
chat_sessions_dir = codes "chat_sessions"

-- [0-9A-Za-z_-]
abbrev pub is_id_char : ℕ → Bool
is_id_char c = is_alnum c || nat_eq c 95 || nat_eq c 45

unfoldable pub valid_session_id : Text → Bool
unfolding all_chars
valid_session_id id = not (is_empty id) && all_chars is_id_char id

-- `none` is the error.
unfoldable pub chat_session_path : Text → Option Text
unfolding valid_session_id
chat_session_path id =
    if valid_session_id id then some (join_path chat_sessions_dir (id ++ codes ".md")) else none

abbrev pub chat_session_image_dir : Text → Text
chat_session_image_dir id = join_path chat_sessions_dir id

pub file_at-save :
    (p q c : Text) (d : Disk)
    → file_at q (save p c d) ≡ (if text_eq p q then some c else file_at q d)
unfolding file_at save
file_at-save p q c [] = refl
file_at-save p q c ((r, b) ∷ d) =
    ground
      (arith, file_at-save p q c d, text_eq-eq r p, text_eq-eq r q, text_eq-eq p q, text_eq_refl q)

pub file_at-erase :
    (gone : Text → Bool) (q : Text) (d : Disk)
    → file_at q (erase gone d) ≡ (if gone q then none else file_at q d)
unfolding file_at erase
file_at-erase gone q [] = ground arith
file_at-erase gone q ((r, b) ∷ d) = ground (arith, file_at-erase gone q d, text_eq-eq r q)

pub file_at-leave :
    (sys : System) (p q c : Text) (d : Disk)
    → text_eq p q ≡ false
    → file_at q (leave sys p c d) ≡ file_at q d
unfolding leave
file_at-leave sys p q c d h = elim (Option-cases (sys.left_over p c)) [
  | inl n ↦ rw (n, leave) refl
  | inr (part, l) ↦ rw (l, leave) (file_at-save p q part d ∙ rw h refl)
]
