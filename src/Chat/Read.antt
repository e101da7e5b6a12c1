-- ===== src/Chat/Read.antt =====
-- resolveChatImageURL, parseChatMessageSegment, readChatSessionMarkdown, readChatSessionHeader and
-- listChatSessions of chat_history.go.
use yuanyi.Base.{
  Bool, true, false, ◌&&◌, ◌||◌, not, List, [], ◌∷◌, ◌++◌, Option, none, some, map, is_empty,
  is_none, if◌then◌else◌, ◌>>=◌, nat_eq, get_or,
}
use yuanyi.Strings.{
  Text, codes, text_eq, strip_prefix, has_prefix, trim_space, trim_cr, split_lines, join_lines,
  cut_line, to_lower,
}
use yuanyi.Chat.{
  ChatContentPart, Content, text_content, parts_content, ChatMessage, ChatSession, Disk, file_at,
  System, read_file, join_path, chat_sessions_dir, chat_session_path,
}
use yuanyi.Chat.Patterns.{
  Role, role_name, match_image_ref, match_image_line, match_front_matter, split_markers,
}

-- The data URL of a stored image. For a trusted reference filepath.Ext gives a dot and the
-- extension that the expression has matched.
abbrev pub data_url : System → Text → Text → Text
data_url sys ext0 bytes =
    let ext = map to_lower ext0 in
    let mime = if text_eq ext (codes "jpg") then codes "image/jpeg" else codes "image/" ++ ext in
    codes "data:" ++ mime ++ codes ";base64," ++ sys.encode bytes

unfoldable pub resolve_chat_image_url : System → Disk → Text → Text
unfolding strip_prefix match_image_ref file_at text_eq
resolve_chat_image_url sys disk ref =
    if has_prefix (codes "http://") ref
      || has_prefix (codes "https://") ref
      || has_prefix (codes "data:") ref
    then ref
    else elim (match_image_ref ref) [
      | none ↦ []
      | some ext ↦ elim (read_file sys disk (join_path chat_sessions_dir ref)) [
        | none ↦ []
        | some bytes ↦ data_url sys ext bytes
      ]
    ]

-- The image of a line, if it is an image line whose reference resolves.
unfoldable pub image_of : System → Disk → Text → Option Text
unfolding match_image_line resolve_chat_image_url
image_of sys disk trimmed = do
  ref ← match_image_line trimmed
  let url = resolve_chat_image_url sys disk ref
  if is_empty url then none else some url

-- One line of the body is text or an image.
abbrev pub place_line : Option Text → Text → List Text × List Text → List Text × List Text
place_line (some url) line rest = (rest.0, url ∷ rest.1)
place_line none line rest = (line ∷ rest.0, rest.1)

-- The loop over the lines of a segment: the lines of text and the images.
unfoldable pub read_lines : System → Disk → Bool → List Text → List Text × List Text
unfolding image_of trim_space strip_prefix
read_lines sys disk skipped_header [] = ([], [])
read_lines sys disk true (line ∷ ls) =
    place_line (image_of sys disk (trim_space line)) line (read_lines sys disk true ls)
read_lines sys disk false (line ∷ ls) =
    let after_header = read_lines sys disk true ls in
    let before_header = read_lines sys disk false ls in
    let trimmed = trim_space line in
    if has_prefix (codes "###") trimmed
    then after_header
    else if is_empty trimmed
    then before_header
    else place_line (image_of sys disk trimmed) line before_header

abbrev pub text_part : Text → ChatContentPart
text_part text = record { kind = codes "text"; text = text; image_url = none }

abbrev pub image_part : Text → ChatContentPart
image_part url = record { kind = codes "image_url"; text = []; image_url = some url }

abbrev pub content_of : Text → List Text → Content
content_of text [] = text_content text
content_of text (url ∷ urls) =
    parts_content
      ((if is_empty text then [] else text_part text ∷ []) ++ map image_part (url ∷ urls))

unfoldable pub parse_chat_message_segment : System → Disk → Text → Text → ChatMessage
unfolding split_lines read_lines join_lines trim_space
parse_chat_message_segment sys disk role segment =
    let (text_lines, images) = read_lines sys disk false (split_lines segment) in
    record { role = role; content = content_of (trim_space (join_lines text_lines)) images }

-- The loop for the title.
unfoldable pub find_title : List Text → Text
unfolding trim_cr trim_space strip_prefix text_eq
find_title [] = []
find_title (line ∷ ls) =
    let rest = find_title ls in
    let l = trim_cr line in
    elim (strip_prefix (codes "# ") l) [
      | some title ↦ trim_space title
      | none ↦ if text_eq (trim_space l) (codes "#") then [] else rest
    ]

abbrev pub parse_segments : System → Disk → List (Role × Text) → List ChatMessage
parse_segments sys disk [] = []
parse_segments sys disk ((role, segment) ∷ rest) =
    parse_chat_message_segment sys disk (role_name role) segment ∷ parse_segments sys disk rest

-- The session that a document holds.
unfoldable pub parse_session : System → Disk → Text → Text → ChatSession
unfolding cut_line match_front_matter find_title split_lines split_markers
    parse_chat_message_segment
parse_session sys disk id content =
    let (first, rest) = cut_line content in
    record {
      id = id;
      title = find_title (split_lines rest);
      model = get_or (match_front_matter first) [];
      messages = parse_segments sys disk (split_markers true 0 rest).1;
    }

unfoldable pub read_chat_session_markdown : System → Disk → Text → Option ChatSession
unfolding chat_session_path file_at parse_session
read_chat_session_markdown sys disk id = do
  path ← chat_session_path id
  content ← read_file sys disk path
  some (parse_session sys disk id content)

-- bufio.ScanLines: the last line only if it is not empty, and without a carriage return at the
-- end.
abbrev pub drop_cr : Text → Text
drop_cr [] = []
drop_cr (c ∷ []) = if nat_eq c 13 then [] else c ∷ []
drop_cr (c ∷ d ∷ s) = c ∷ drop_cr (d ∷ s)

-- The loop over the lines of the scanner, with the model read so far.
unfoldable pub scan_header : System → Text → List Text → Text × Text
unfolding match_front_matter trim_space strip_prefix text_eq
scan_header sys model [] = ([], model)
scan_header sys model (raw ∷ ls) =
    let line = drop_cr raw in
    let found = match_front_matter line in
    let rest = scan_header sys (get_or found model) ls in
    if sys.too_long raw || (is_empty raw && is_empty ls)
    then ([], model)
    else if not (is_none found)
    then rest
    else elim (strip_prefix (codes "# ") line) [
      | some title ↦ (trim_space title, model)
      | none ↦ if text_eq (trim_space line) (codes "#") then ([], model) else rest
    ]

-- The title and the model.
unfoldable pub read_chat_session_header : System → Disk → Text → Option (Text × Text)
unfolding chat_session_path file_at scan_header split_lines
read_chat_session_header sys disk id = do
  path ← chat_session_path id
  content ← read_file sys disk path
  some (scan_header sys [] (split_lines content))
