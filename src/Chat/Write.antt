-- ===== src/Chat/Write.antt =====
-- decodeMessageContent, writeChatSessionMarkdown and deleteChatSession of chat_history.go. A
-- result `false` is a returned error.
use yuanyi.Base.{
  ℕ, suc, ◌+◌, Bool, true, false, ◌&&◌, not, List, [], ◌∷◌, ◌++◌, none, some, is_empty, is_none,
  if◌then◌else◌,
}
use yuanyi.Strings.{Text, digits, codes, text_eq, strip_prefix, has_prefix}
use yuanyi.Chat.{
  ChatContentPart, Content, text_content, parts_content, other_content, ChatMessage, ChatSession,
  Disk, file_at, save, leave, erase, System, join_path, chat_sessions_dir, chat_session_path,
  chat_session_image_dir,
}
use yuanyi.Chat.Patterns.{match_data_url}

-- The loop over the parts, with what it has collected.
unfoldable pub decode_parts : Text → List Text → List ChatContentPart → Text × List Text
unfolding text_eq
decode_parts text images [] = (text, images)
decode_parts text images (p ∷ ps) =
    let is_text = text_eq p.kind (codes "text") in
    let is_image = text_eq p.kind (codes "image_url") in
    decode_parts (if is_text then text ++ p.text else text)
      (if is_text
        then images
        else if is_image
        then elim p.image_url [ some url ↦ images ++ url ∷ [] | none ↦ images ]
        else images)
      ps

unfoldable pub decode_message_content : Content → Text × List Text
unfolding decode_parts
decode_message_content (text_content s) = (s, [])
decode_message_content (parts_content ps) = decode_parts [] [] ps
decode_message_content other_content = ([], [])

abbrev pub image_line : Text → Text
image_line ref = codes "![image](" ++ ref ++ codes ")\n\n"

abbrev pub image_file : ℕ → Text → Text
image_file n ext = codes "img-" ++ digits (suc n) n [] ++ codes "." ++ ext

-- An attached image, once its payload is decoded.
unfoldable pub store_image : System → Text → Text → Text → ℕ → Disk → Text × Disk
unfolding save digits
store_image sys id ext raw n disk =
    let dir = chat_session_image_dir id in
    let file = image_file n ext in
    if not (sys.can_make dir)
    then ([], disk)
    else if not (sys.can_write (join_path dir file))
    then ([], leave sys (join_path dir file) raw disk)
    else (image_line (join_path id file), save (join_path dir file) raw disk)

-- The loop over the images of a message; `n` is imgN.
unfoldable pub write_images : System → Text → List Text → ℕ → Disk → Text × ℕ × Disk
unfolding match_data_url store_image
write_images sys id [] n disk = ([], n, disk)
write_images sys id (url ∷ urls) n disk = elim (match_data_url url) [
  | none ↦
      let (out, m, disk') = write_images sys id urls n disk in (image_line url ++ out, m, disk')
  | some (ext, payload) ↦ elim (sys.decode payload) [
    | none ↦ write_images sys id urls n disk
    | some raw ↦
        let (line, stored) = store_image sys id ext raw (n + 1) disk in
        let (out, m, disk') = write_images sys id urls (n + 1) stored in (line ++ out, m, disk')
  ]
]

abbrev pub role_label : Text → Text
role_label role = if text_eq role (codes "user") then codes "👤 User" else codes "🤖 Assistant"

abbrev pub message_head : Text → Text
message_head role =
    codes "<!-- msg role=" ++ role ++ codes " -->\n### " ++ role_label role ++ codes "\n\n"

abbrev pub text_block : Text → Text
text_block text = if is_empty text then [] else text ++ codes "\n\n"

-- The loop over the messages.
unfoldable pub write_messages : System → Text → List ChatMessage → ℕ → Disk → Text × ℕ × Disk
unfolding decode_message_content write_images text_eq
write_messages sys id [] n disk = ([], n, disk)
write_messages sys id (msg ∷ msgs) n disk =
    let (text, images) = decode_message_content msg.content in
    let (shown, m, disk1) = write_images sys id images n disk in
    let (rest, k, disk2) = write_messages sys id msgs m disk1 in
    (message_head msg.role ++ (shown ++ (text_block text ++ rest)), k, disk2)

abbrev pub front_matter : Text → Text → Text
front_matter id model =
    codes "<!-- yuanyi-chat id=" ++ (id ++ (codes " model=" ++ (model ++ codes " -->")))

abbrev pub session_head : ChatSession → Text
session_head sess =
    front_matter sess.id sess.model ++ (codes "\n# " ++ (sess.title ++ codes "\n\n"))

-- Whether it succeeded, and the disk.
unfoldable pub write_chat_session_markdown : System → ChatSession → Disk → Bool × Disk
unfolding chat_session_path write_messages save
write_chat_session_markdown sys sess disk = elim (chat_session_path sess.id) [
  | none ↦ (false, disk)
  | some path ↦
      if not (sys.can_make chat_sessions_dir)
      then (false, disk)
      else let (body, _, disk') = write_messages sys sess.id sess.messages 0 disk in
        if sys.can_write path
        then (true, save path (session_head sess ++ body) disk')
        else (false, leave sys path (session_head sess ++ body) disk')
]

-- A file in a directory, or in one below it.
abbrev pub inside : Text → Text → Bool
inside dir path = has_prefix (join_path dir []) path

unfoldable pub delete_chat_session : System → Text → Disk → Bool × Disk
unfolding chat_session_path erase text_eq strip_prefix
delete_chat_session sys id disk = elim (chat_session_path id) [
  | none ↦ (false, disk)
  | some path ↦
      if not (sys.can_remove path) && not (is_none (file_at path disk))
      then (false, disk)
      else (true, erase (inside (chat_session_image_dir id)) (erase (text_eq path) disk))
]
