-- ===== src/Chat/RoundTrip/Session.antt =====
-- A whole session, written, listed and read (chat_history.go).
use mathlib.Core.List.{append_assoc}
use yuanyi.Base.{
  true, false, List, [], ◌∷◌, ◌++◌, some, ◌≡◌, refl, ◌∙◌, ap, is_empty, get_or, arith, Bool-cases,
  inl, inr,
}
use yuanyi.Strings.{Text, codes, strip_prefix, trim_space, split_lines, all_chars}
use yuanyi.Strings.Laws.{split_lines-first, cut_line-break, trim_space_lem, text_eq_refl}
use yuanyi.Chat.{
  Disk, System, ChatSession, file_at, file_at-save, valid_session_id, chat_session_path,
}
use yuanyi.Chat.Files.{path_of}
use yuanyi.Chat.Patterns.{match_front_matter, split_markers}
use yuanyi.Chat.Write.{front_matter, session_head, write_chat_session_markdown}
use yuanyi.Chat.Read.{
  find_title, drop_cr, parse_session, parse_segments, read_chat_session_markdown, scan_header,
  read_chat_session_header,
}
use yuanyi.Chat.RoundTrip.Plain.{no_comment, IsPlainSession}
use yuanyi.Chat.RoundTrip.Segments.{split_markers-text, prepend}
use yuanyi.Chat.RoundTrip.Messages.{transcript, write_messages-transcript, transcript-Transcribed}
use yuanyi.Chat.RoundTrip.Header.{
  front_matter_line, drop_cr-front_matter, match-front_matter, trim_cr-title, find_title-written,
  no_comment-line, drop_cr_lem,
}

-- The document as the first line and the rest.
abbrev rest_of : ChatSession → Text
rest_of s = codes "# " ++ (s.title ++ 10 ∷ 10 ∷ transcript s.messages)

document_lem :
    (s : ChatSession)
    → session_head s ++ transcript s.messages ≡ front_matter s.id s.model ++ 10 ∷ rest_of s
document_lem s =
    append_assoc (front_matter s.id s.model) (codes "\n# " ++ (s.title ++ codes "\n\n"))
      (transcript s.messages)
    ∙ ap (λ (t : Text). front_matter s.id s.model ++ (codes "\n# " ++ t))
        (append_assoc s.title (codes "\n\n") (transcript s.messages))

-- A successful write has stored the document.
record IsWritten (sys : System) (s : ChatSession) (disk : Disk) : Type 0 where
  valid : valid_session_id s.id ≡ true
  stored : file_at (path_of s.id) disk ≡ some (front_matter s.id s.model ++ 10 ∷ rest_of s)

write-IsWritten :
    (sys : System) (s : ChatSession) (disk : Disk)
    → IsPlainSession s
    → (write_chat_session_markdown sys s disk).0 ≡ true
    → IsWritten sys s (write_chat_session_markdown sys s disk).1
unfolding write_chat_session_markdown chat_session_path
write-IsWritten sys s disk p w =
    let body = write_messages-transcript sys s.id s.messages 0 disk p.messages in
    let path = path_of s.id in
    let saved = file_at-save path path (session_head s ++ transcript s.messages) disk in
    elim (Bool-cases (valid_session_id s.id)) [
      | inl v ↦ ground (arith, body, saved, text_eq_refl path, document_lem s)
      | inr v ↦ absurd (ground arith)
    ]

abbrev assembled : System → Disk → Text → Text × Text → ChatSession
assembled sys disk id (first, rest) = record {
  id = id;
  title = find_title (split_lines rest);
  model = get_or (match_front_matter first) [];
  messages = parse_segments sys disk (split_markers true 0 rest).1;
}

parse-document :
    (sys : System) (disk : Disk) (s : ChatSession)
    → valid_session_id s.id ≡ true
    → IsPlainSession s
    → parse_session sys disk s.id (front_matter s.id s.model ++ 10 ∷ rest_of s) ≡ s
unfolding parse_session no_comment
parse-document sys disk s v p =
    let cut =
      cut_line-break (front_matter s.id s.model) (rest_of s)
        (front_matter_line s.id s.model v p.model_word) in
    let (segments, found, read) = transcript-Transcribed sys disk s.messages p.messages in
    let first = codes "# " ++ s.title in
    let marks : split_markers true 0 (rest_of s) ≡ (first ++ 10 ∷ [] ++ 10 ∷ [], segments) =
      split_markers-text true first (10 ∷ transcript s.messages)
        (no_comment-line s.title p.title_line)
      ∙ ap (prepend (first ++ 10 ∷ [])) (
          split_markers-text true [] (transcript s.messages) refl ∙ ap (prepend (10 ∷ [])) found) in
    ap (assembled sys disk s.id) cut
    ∙ cc (
      match-front_matter s.id s.model v p.model_word,
      find_title-written s.title (10 ∷ transcript s.messages) p.title_trimmed p.title_line,
      marks,
      read,
    )

scan-front_matter :
    (sys : System) (raw m model : Text) (ls : List Text)
    → drop_cr raw ≡ raw
    → match_front_matter raw ≡ some m
    → is_empty raw ≡ false
    → sys.too_long raw ≡ false
    → scan_header sys model (raw ∷ ls) ≡ scan_header sys m ls
unfolding scan_header
scan-front_matter sys raw m model ls d f filled short = ground arith

scan-title :
    (sys : System) (title model : Text) (ls : List Text)
    → drop_cr (codes "# " ++ title) ≡ codes "# " ++ title
    → sys.too_long (codes "# " ++ title) ≡ false
    → scan_header sys model ((codes "# " ++ title) ∷ ls) ≡ (trim_space title, model)
unfolding scan_header match_front_matter strip_prefix
scan-title sys title model ls d short = ground arith

scan-document :
    (sys : System) (s : ChatSession)
    → valid_session_id s.id ≡ true
    → IsPlainSession s
    → sys.too_long (front_matter s.id s.model) ≡ false
    → sys.too_long (codes "# " ++ s.title) ≡ false
    → scan_header sys [] (split_lines (front_matter s.id s.model ++ 10 ∷ rest_of s))
      ≡ (s.title, s.model)
unfolding scan_header all_chars
scan-document sys s v p short short' =
    let front = front_matter s.id s.model in
    let first = codes "# " ++ s.title in
    let more = split_lines (10 ∷ transcript s.messages) in
    let lines : split_lines (front ++ 10 ∷ rest_of s) ≡ front ∷ first ∷ more =
      split_lines-first front (rest_of s) (front_matter_line s.id s.model v p.model_word)
      ∙ ap (◌∷◌ front) (split_lines-first first (10 ∷ transcript s.messages) p.title_line) in
    ap (scan_header sys []) lines
    ∙ scan-front_matter sys front s.model [] (first ∷ more)
        (drop_cr-front_matter s.id s.model v p.model_word)
        (match-front_matter s.id s.model v p.model_word) refl short
    ∙ scan-title sys s.title s.model more
        (drop_cr_lem first (trim_cr-title s.title p.title_trimmed.1)) short'
    ∙ ap (λ (t : Text). (t, s.model)) (trim_space_lem s.title p.title_trimmed)

-- A session with a title of one trimmed line, a model with no white space, and messages of users
-- and assistants that are trimmed texts without a line that starts a comment or is an image
-- reference: once written with success, it is read back as it was, if its file can be read.
pub read-write :
    (sys : System) (s : ChatSession) (disk : Disk)
    → IsPlainSession s
    → (write_chat_session_markdown sys s disk).0 ≡ true
    → sys.can_read (path_of s.id) ≡ true
    → read_chat_session_markdown sys (write_chat_session_markdown sys s disk).1 s.id ≡ some s
unfolding read_chat_session_markdown chat_session_path
read-write sys s disk p w can =
    let after = (write_chat_session_markdown sys s disk).1 in
    let k = write-IsWritten sys s disk p w in
    let parsed = parse-document sys after s k.valid p in ground (arith, k.valid, k.stored, parsed)

-- For a session with a title of one trimmed line, a model with no white space, and messages of
-- users and assistants that are trimmed texts without a line that starts a comment or is an image
-- reference: once written with success, the list shows the session's own title and model, if its
-- file can be read and neither the comment in its first line nor the title in its second is too
-- long for the scanner, however long the lines after them are.
pub header-write :
    (sys : System) (s : ChatSession) (disk : Disk)
    → IsPlainSession s
    → (write_chat_session_markdown sys s disk).0 ≡ true
    → sys.can_read (path_of s.id) ≡ true
    → sys.too_long (front_matter s.id s.model) ≡ false
    → sys.too_long (codes "# " ++ s.title) ≡ false
    → read_chat_session_header sys (write_chat_session_markdown sys s disk).1 s.id
      ≡ some (s.title, s.model)
unfolding read_chat_session_header chat_session_path
header-write sys s disk p w can short short' =
    let k = write-IsWritten sys s disk p w in
    ground (arith, k.valid, k.stored, scan-document sys s k.valid p short short')
