-- ===== src/Chat/RoundTrip/Messages.antt =====
-- One message after another, written and read (chat_history.go).
use mathlib.Core.List.{append-nil, append_assoc}
use yuanyi.Base.{
  ℕ, true, false, List, [], ◌∷◌, ◌++◌, none, ◌≡◌, refl, ◌∙◌, ap, sym, subst, arith, All,
  Option-cases, inl, inr,
}
use yuanyi.Strings.{Text, text_eq, trim_space, split_lines, join_lines, is_space}
use yuanyi.Strings.Laws.{split_lines-break, join_lines-split_lines, trim_space-lines}
use yuanyi.Chat.{Disk, System, ChatMessage, text_content}
use yuanyi.Chat.Patterns.{match_image_line, split_markers, Role, user, assistant, role_name}
use yuanyi.Chat.Write.{message_head, text_block, write_messages, decode_message_content}
use yuanyi.Chat.Read.{content_of, image_of, read_lines, parse_chat_message_segment, parse_segments}
use yuanyi.Chat.RoundTrip.Plain.{no_comment, no_image, IsPlain, IsPlainMessage}
use yuanyi.Chat.RoundTrip.Segments.{
  heading, split_markers-head, split_markers-text, prepend, open_segment,
}

module _ (sys : System) (disk : Disk) where
  image_of-none : (l : Text) → match_image_line l ≡ none → image_of sys disk l ≡ none
  unfolding image_of
  image_of-none l h = rw (h, image_of) refl

  -- Lines with no image among them are all text.
  read_lines-text : (ls : List Text) → no_image ls ≡ true → read_lines sys disk true ls ≡ (ls, [])
  unfolding read_lines no_image
  read_lines-text [] h = refl
  read_lines-text (l ∷ ls) h = elim (Option-cases (match_image_line (trim_space l))) [
    | inl e ↦ rw (image_of-none (trim_space l) e, read_lines-text ls (ground arith)) refl
    | inr (r, e) ↦ ground arith
  ]

no_image-append :
    (ls ms : List Text) → no_image ls ≡ true → no_image ms ≡ true → no_image (ls ++ ms) ≡ true
unfolding no_image
no_image-append [] ms h k = k
no_image-append (l ∷ ls) ms h k = ground (arith, no_image-append ls ms)

-- The body of a message with a text.
no_image-body : (s : Text) → IsPlain s → no_image (split_lines (10 ∷ (s ++ 10 ∷ 10 ∷ []))) ≡ true
unfolding no_image split_lines
no_image-body s p =
    rw (split_lines-break s (10 ∷ []))
      (no_image-append (split_lines s) ([] ∷ [] ∷ []) p.imageless refl)

body-trimmed : (s : Text) → IsPlain s → trim_space (10 ∷ text_block s) ≡ s
unfolding trim_space
body-trimmed [] p = refl
body-trimmed (c ∷ s) p = trim_space-lines (c ∷ s) p.trimmed

body-imageless : (s : Text) → IsPlain s → no_image (split_lines (10 ∷ text_block s)) ≡ true
unfolding no_image split_lines
body-imageless [] p = refl
body-imageless (c ∷ s) p = no_image-body (c ∷ s) p

-- The lines of a segment before its body hold the heading alone.
read_lines-heading :
    (sys : System) (disk : Disk) (role : Role) (body : Text)
    → read_lines sys disk false (split_lines (heading role ++ body))
      ≡ read_lines sys disk true (split_lines (10 ∷ body))
unfolding read_lines split_lines text_eq is_space
read_lines-heading sys disk user body = refl
read_lines-heading sys disk assistant body = refl

abbrev said : Role → Text → ChatMessage
said role s = record { role = role_name role; content = text_content s }

abbrev parsed : Role → List Text × List Text → ChatMessage
parsed role (lines, images) = record {
  role = role_name role;
  content = content_of (trim_space (join_lines lines)) images;
}

-- The segment that the writer makes of a message is the message.
parse-written :
    (sys : System) (disk : Disk) (role : Role) (s : Text)
    → IsPlain s
    → parse_chat_message_segment sys disk (role_name role) (heading role ++ text_block s)
      ≡ said role s
unfolding parse_chat_message_segment
parse-written sys disk role s p =
    let body = split_lines (10 ∷ text_block s) in
    ap (parsed role) (
      read_lines-heading sys disk role (text_block s)
      ∙ read_lines-text sys disk body (body-imageless s p))
    ∙ ap (λ (t : Text). said role (trim_space t)) (join_lines-split_lines (10 ∷ text_block s))
    ∙ ap (said role) (body-trimmed s p)

split_markers-body :
    (s t : Text)
    → IsPlain s
    → split_markers true 0 (text_block s ++ t) ≡ prepend (text_block s) (split_markers true 0 t)
unfolding no_comment
split_markers-body [] t p = refl
split_markers-body (c ∷ s) t p =
    let text = c ∷ s in
    let (pre, segments) = split_markers true 0 t in
    rw (append_assoc text (10 ∷ 10 ∷ []) t) (
      split_markers-text true text (10 ∷ t) p.uncommented
      ∙ ap (prepend (text ++ 10 ∷ [])) (split_markers-text true [] t refl)
      ∙ ap (λ (u : Text). (u, segments))
          (append_assoc text (10 ∷ []) (10 ∷ pre) ∙ sym (append_assoc text (10 ∷ 10 ∷ []) pre)))

-- The messages as they stand in the document.
abbrev pub transcript : List ChatMessage → Text
transcript [] = []
transcript (m ∷ ms) =
    message_head m.role ++ (text_block (decode_message_content m.content).0 ++ transcript ms)

pub write_messages-transcript :
    (sys : System) (id : Text) (ms : List ChatMessage) (n : ℕ) (disk : Disk)
    → All IsPlainMessage ms
    → write_messages sys id ms n disk ≡ (transcript ms, n, disk)
unfolding write_messages decode_message_content
write_messages-transcript sys id [] n disk h = refl
write_messages-transcript sys id (m ∷ ms) n disk h =
    rw (h.0.content_is, write_messages-transcript sys id ms n disk h.1) refl

-- The document of the messages, cut at its markers.
abbrev pub Transcribed : System → Disk → List ChatMessage → Type 0
Transcribed sys disk ms =
    (segments : List (Role × Text)) × (split_markers true 0 (transcript ms) ≡ ([], segments))
    × (parse_segments sys disk segments ≡ ms)

transcribe :
    (sys : System) (disk : Disk) (role : Role) (s : Text) (ms : List ChatMessage)
    → IsPlain s
    → Transcribed sys disk ms
    → Transcribed sys disk (said role s ∷ ms)
unfolding decode_message_content
transcribe sys disk role s ms p (segments, cut, read) = (
  (role, heading role ++ text_block s) ∷ segments,
  split_markers-head role (text_block s ++ transcript ms)
      ∙ ap (open_segment role (heading role))
          (split_markers-body s (transcript ms) p ∙ ap (prepend (text_block s)) cut)
      ∙ ap (λ (t : Text). ([], (role, heading role ++ t) ∷ segments)) (append-nil (text_block s)),
  cc (parse-written sys disk role s p, read),
)

-- The document's messages are the messages.
pub transcript-Transcribed :
    (sys : System) (disk : Disk) (ms : List ChatMessage)
    → All IsPlainMessage ms
    → Transcribed sys disk ms
unfolding split_markers
transcript-Transcribed sys disk [] h = ([], refl, refl)
transcript-Transcribed sys disk (m ∷ ms) h =
    let m_is : said h.0.role h.0.text ≡ m = cc (h.0.role_is, h.0.content_is) in
    subst (λ (n : ChatMessage). Transcribed sys disk (n ∷ ms)) m_is
      (transcribe sys disk h.0.role h.0.text ms h.0.plain (transcript-Transcribed sys disk ms h.1))
