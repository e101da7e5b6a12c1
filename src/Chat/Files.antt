-- ===== src/Chat/Files.antt =====
-- The files of a session, and what writing and deleting do to others (chat_history.go).
use mathlib.Core.List.{append_assoc}
use yuanyi.Base.{
  subst, get_or, ℕ, ◌+◌, Bool, true, false, ◌||◌, List, [], ◌∷◌, ◌++◌, some, ◌≡◌, refl, ◌∙◌, sym,
  arith, Bool-cases, Option-cases, inl, inr,
}
use yuanyi.Strings.{Text, codes, text_eq, strip_prefix, span, all_chars}
use yuanyi.Strings.Laws.{text_eq-eq, strip_prefix-append, strip_prefix-some, span-break}
use yuanyi.Chat.{
  Disk, System, ChatSession, ChatMessage, file_at, erase, file_at-save, file_at-leave,
  file_at-erase, valid_session_id, is_id_char, chat_session_path, chat_session_image_dir, join_path,
  chat_sessions_dir,
}
use yuanyi.Chat.Patterns.{match_data_url}
use yuanyi.Chat.Write.{
  session_head, image_file, store_image, write_images, decode_message_content, write_messages,
  write_chat_session_markdown, delete_chat_session, inside,
}

abbrev pub path_of : Text → Text
path_of id = join_path chat_sessions_dir (id ++ codes ".md")

-- The files of a session: its document, and what is in its image directory.
unfoldable pub own_file : Text → Text → Bool
unfolding text_eq strip_prefix
own_file id p = text_eq (path_of id) p || inside (chat_session_image_dir id) p

-- Only files of the session differ.
abbrev pub Elsewhere : Text → Disk → Disk → Type 0
Elsewhere id d e = (p : Text) → own_file id p ≡ false → file_at p e ≡ file_at p d

inside-join : (dir file p : Text) → inside dir p ≡ false → text_eq (join_path dir file) p ≡ false
inside-join dir file p h = elim (Bool-cases (text_eq (join_path dir file) p)) [
  | inl e ↦
      let found : strip_prefix (dir ++ 47 ∷ []) p ≡ some file =
        subst (λ (q : Text). strip_prefix (dir ++ 47 ∷ []) q ≡ some file)
          (text_eq-eq (join_path dir file) p e)
          (rw (← append_assoc dir (47 ∷ []) file) (strip_prefix-append (dir ++ 47 ∷ []) file)) in
      cc
  | inr e ↦ e
]

module _ (sys : System) (id : Text) where
  store_image-Elsewhere :
      (ext raw : Text) (n : ℕ) (disk : Disk)
      → Elsewhere id disk (store_image sys id ext raw n disk).1
  unfolding store_image own_file
  store_image-Elsewhere ext raw n disk p h =
      let path = join_path (chat_session_image_dir id) (image_file n ext) in
      ground (
        arith,
        file_at-save path p raw disk,
        file_at-leave sys path p raw disk,
        inside-join (chat_session_image_dir id) (image_file n ext) p,
      )

  write_images-Elsewhere :
      (urls : List Text) (n : ℕ) (disk : Disk)
      → Elsewhere id disk (write_images sys id urls n disk).2
  unfolding write_images
  write_images-Elsewhere [] n disk p h = refl
  write_images-Elsewhere (url ∷ urls) n disk p h = elim (Option-cases (match_data_url url)) [
    | inl e ↦ rw (e, write_images) (write_images-Elsewhere urls n disk p h)
    | inr ((ext, payload), e) ↦ elim (Option-cases (sys.decode payload)) [
      | inl f ↦ rw (e, f, write_images) (write_images-Elsewhere urls n disk p h)
      | inr (raw, f) ↦
          rw (e, f, write_images)
            (write_images-Elsewhere urls (n + 1) (store_image sys id ext raw (n + 1) disk).1 p h
              ∙ store_image-Elsewhere ext raw (n + 1) disk p h)
    ]
  ]

  write_messages-Elsewhere :
      (ms : List ChatMessage) (n : ℕ) (disk : Disk)
      → Elsewhere id disk (write_messages sys id ms n disk).2
  unfolding write_messages
  write_messages-Elsewhere [] n disk p h = refl
  write_messages-Elsewhere (m ∷ ms) n disk p h =
      let images = (decode_message_content m.content).1 in
      write_messages-Elsewhere ms (write_images sys id images n disk).1
        (write_images sys id images n disk).2 p h
      ∙ write_images-Elsewhere images n disk p h

  pub delete-Elsewhere : (disk : Disk) → Elsewhere id disk (delete_chat_session sys id disk).1
  unfolding delete_chat_session own_file chat_session_path
  delete-Elsewhere disk p h =
      let first = erase (text_eq (path_of id)) disk in
      ground (
        arith,
        file_at-erase (text_eq (path_of id)) p disk,
        file_at-erase (inside (chat_session_image_dir id)) p first,
      )

pub write-Elsewhere :
    (sys : System) (s : ChatSession) (disk : Disk)
    → Elsewhere s.id disk (write_chat_session_markdown sys s disk).1
unfolding write_chat_session_markdown own_file chat_session_path
write-Elsewhere sys s disk p h =
    let body = write_messages sys s.id s.messages 0 disk in
    ground (
      arith,
      write_messages-Elsewhere sys s.id s.messages 0 disk p h,
      file_at-save (path_of s.id) p (session_head s ++ body.0) body.2,
      file_at-leave sys (path_of s.id) p (session_head s ++ body.0) body.2,
    )

-- The ID in a path of the chat history.
pub owner : Text → Text
owner p = (span is_id_char (get_or (strip_prefix (join_path chat_sessions_dir []) p) [])).0

owner-join :
    (id : Text) (c : ℕ) (s : Text)
    → valid_session_id id ≡ true
    → is_id_char c ≡ false
    → owner (join_path chat_sessions_dir (id ++ c ∷ s)) ≡ id
unfolding owner strip_prefix valid_session_id
owner-join id c s v h =
    let chars : all_chars is_id_char id ≡ true = ground arith in
    rw (span-break is_id_char id c s chars h, owner) refl

-- A file of a session with a valid ID tells the ID.
pub own_file-owner :
    (id p : Text) → valid_session_id id ≡ true → own_file id p ≡ true → owner p ≡ id
unfolding own_file
own_file-owner id p v h = elim (Bool-cases (text_eq (path_of id) p)) [
  | inl e ↦
      subst (λ (q : Text). owner q ≡ id) (text_eq-eq (path_of id) p e)
        (owner-join id 46 (codes "md") v refl)
  | inr e ↦ elim (Option-cases (strip_prefix (join_path (chat_session_image_dir id) []) p)) [
    | inl n ↦ ground arith
    | inr (r, f) ↦
        subst (λ (q : Text). owner q ≡ id)
          (sym (strip_prefix-some (join_path (chat_session_image_dir id) []) p f))
          (rw (append_assoc id (47 ∷ []) r) (owner-join id 47 r v refl))
  ]
]
