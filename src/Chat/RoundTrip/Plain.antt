-- ===== src/Chat/RoundTrip/Plain.antt =====
-- Which texts survive the file format of chat_history.go, as far as the format can tell.
use yuanyi.Base.{Bool, true, ◌&&◌, not, List, [], ◌∷◌, ◌≡◌, nat_eq, is_none, All}
use yuanyi.Strings.{
  Text, codes, has_prefix, strip_prefix, all_chars, split_lines, is_re_space, trim_space,
}
use yuanyi.Strings.Laws.{IsTrimmed}
use yuanyi.Chat.{text_content, ChatMessage, ChatSession}
use yuanyi.Chat.Patterns.{match_image_line, Role, role_name}

-- No line starts with `<!--`; `start` says that a line starts here.
unfoldable pub no_comment : Bool → Text → Bool
unfolding strip_prefix
no_comment start [] = true
no_comment start (c ∷ s) =
    not (start && has_prefix (codes "<!--") (c ∷ s)) && no_comment (nat_eq c 10) s

-- No line is an image reference.
unfoldable pub no_image : List Text → Bool
unfolding match_image_line trim_space
no_image [] = true
no_image (l ∷ ls) = is_none (match_image_line (trim_space l)) && no_image ls

-- A text with no white space at its ends, no line that starts with a comment, and no line that is
-- an image reference.
pub record IsPlain (s : Text) : Type 0 where
  pub trimmed : IsTrimmed s
  pub uncommented : no_comment true s ≡ true
  pub imageless : no_image (split_lines s) ≡ true

-- A message of the two roles with such a text.
pub record IsPlainMessage (m : ChatMessage) : Type 0 where
  pub role : Role
  pub text : Text
  pub role_is : m.role ≡ role_name role
  pub content_is : m.content ≡ text_content text
  pub plain : IsPlain text

-- A title of one trimmed line, a model with no white space, and plain messages.
pub record IsPlainSession (s : ChatSession) : Type 0 where
  pub title_trimmed : IsTrimmed s.title
  pub title_line : all_chars (λ c. not (nat_eq c 10)) s.title ≡ true
  pub model_word : all_chars (λ c. not (is_re_space c)) s.model ≡ true
  pub messages : All IsPlainMessage s.messages
