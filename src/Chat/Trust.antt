-- ===== src/Chat/Trust.antt =====
-- Which files reading a session depends on (chat_history.go).
use yuanyi.Base.{
  Bool, true, false, not, List, [], ◌∷◌, none, some, ◌≡◌, refl, is_none, arith, Option-cases, inl,
  inr,
}
use yuanyi.Strings.{Text, strip_prefix, trim_space, split_lines, cut_line}
use yuanyi.Chat.{Disk, System, file_at, read_file, join_path, chat_sessions_dir, chat_session_path}
use yuanyi.Chat.Patterns.{Role, match_image_ref, match_image_line, split_markers}
use yuanyi.Chat.Read.{
  resolve_chat_image_url, image_of, read_lines, parse_chat_message_segment, parse_segments,
  parse_session, read_chat_session_markdown,
}
use yuanyi.Chat.Files.{path_of}

-- An image below chat_sessions whose path has the shape that the writer makes.
unfoldable pub is_image_file : Text → Bool
unfolding strip_prefix match_image_ref
is_image_file p = elim (strip_prefix (join_path chat_sessions_dir []) p) [
  | none ↦ false
  | some ref ↦ not (is_none (match_image_ref ref))
]

module _ (sys : System) (d e : Disk)
    (same : (p : Text) → is_image_file p ≡ true → file_at p d ≡ file_at p e) where
  resolve-Agree : (ref : Text) → resolve_chat_image_url sys d ref ≡ resolve_chat_image_url sys e ref
  unfolding resolve_chat_image_url is_image_file
  resolve-Agree ref = elim (Option-cases (match_image_ref ref)) [
    | inl n ↦ ground arith
    | inr (ext, f) ↦
        let path = join_path chat_sessions_dir ref in
        let files : file_at path d ≡ file_at path e = same path (rw f refl) in ground arith
  ]

  image-Agree : (l : Text) → image_of sys d l ≡ image_of sys e l
  unfolding image_of
  image-Agree l = elim (Option-cases (match_image_line l)) [
    | inl n ↦ ground arith
    | inr (ref, f) ↦ ground (arith, resolve-Agree ref)
  ]

  lines-Agree :
      (skipped : Bool) (ls : List Text) → read_lines sys d skipped ls ≡ read_lines sys e skipped ls
  unfolding read_lines
  lines-Agree skipped [] = refl
  lines-Agree true (l ∷ ls) = cc (image-Agree (trim_space l), lines-Agree true ls)
  lines-Agree false (l ∷ ls) =
      cc (image-Agree (trim_space l), lines-Agree true ls, lines-Agree false ls)

  segments-Agree :
      (segments : List (Role × Text))
      → parse_segments sys d segments ≡ parse_segments sys e segments
  unfolding parse_chat_message_segment
  segments-Agree [] = refl
  segments-Agree ((role, s) ∷ rest) = cc (lines-Agree false (split_lines s), segments-Agree rest)

  parse-Agree :
      (id content : Text) → parse_session sys d id content ≡ parse_session sys e id content
  unfolding parse_session
  parse-Agree id content = cc (segments-Agree (split_markers true 0 (cut_line content).1).1)

-- Reading a session depends on no file but its document and the images whose paths have the shape
-- that the writer makes: two disks that agree on these give the same session.
pub read-Agree :
    (sys : System) (id : Text) (d e : Disk)
    → file_at (path_of id) d ≡ file_at (path_of id) e
    → ((p : Text) → is_image_file p ≡ true → file_at p d ≡ file_at p e)
    → read_chat_session_markdown sys d id ≡ read_chat_session_markdown sys e id
unfolding read_chat_session_markdown chat_session_path
read-Agree sys id d e doc same = elim (Option-cases (read_file sys d (path_of id))) [
  | inl n ↦ ground arith
  | inr (content, f) ↦ ground (arith, parse-Agree sys d e same id content)
]
