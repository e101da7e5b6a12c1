-- ===== src/Chat/Handler.antt =====
-- What the handler answers to whom, and which files it leaves alone (chat_history.go).
use yuanyi.Base.{
  ◌≢◌, ℕ, Bool, true, false, List, Option, none, some, ◌≡◌, refl, ◌∙◌, ap, sym, is_empty, is_none,
  if◌then◌else◌, arith, Bool-cases, inl, inr,
}
use yuanyi.Strings.{Text}
use yuanyi.Chat.{Disk, System, ChatSession, file_at, valid_session_id, chat_session_path}
use yuanyi.Chat.Write.{write_chat_session_markdown, delete_chat_session}
use yuanyi.Chat.Read.{read_chat_session_markdown}
use yuanyi.Chat.Routes.{
  ChatSessionSummary, Listing, ChatRequest, Method, get, post, delete, other_method, ChatReply,
  refused, get_sessions, post_session, delete_session, reply_of, route, chat_sessions_handler,
}
use yuanyi.Chat.Files.{own_file, Elsewhere, own_file-owner, write-Elsewhere, delete-Elsewhere}

reply_of-disk : (x : Bool × Disk) → (reply_of x).1 ≡ x.1
reply_of-disk (true, disk) = refl
reply_of-disk (false, disk) = refl

module _ (sys : System) (newest_first : List ChatSessionSummary → List ChatSessionSummary) where
  post-Elsewhere :
      (id : Text) (body : Option ChatSession) (disk : Disk)
      → Elsewhere id disk (post_session sys newest_first id body disk).1
  unfolding post_session
  post-Elsewhere id none disk p h = refl
  post-Elsewhere id (some s) disk p h = ground (
    arith,
    reply_of-disk (write_chat_session_markdown sys (record s { id = id }) disk),
    write-Elsewhere sys (record s { id = id }) disk p h,
  )

  delete_session-Elsewhere :
      (id : Text) (disk : Disk) → Elsewhere id disk (delete_session sys newest_first id disk).1
  unfolding delete_session
  delete_session-Elsewhere id disk p h =
      ground
        (arith, reply_of-disk (delete_chat_session sys id disk), delete-Elsewhere sys id disk p h)

  route-Elsewhere :
      (dir : Listing) (r : ChatRequest) (m : Method) (disk : Disk)
      → Elsewhere r.id disk (route sys newest_first dir r m disk).1
  unfolding route
  route-Elsewhere dir r get disk p h = refl
  route-Elsewhere dir r post disk p h = post-Elsewhere r.id r.body disk p h
  route-Elsewhere dir r delete disk p h = delete_session-Elsewhere r.id disk p h
  route-Elsewhere dir r other_method disk p h = refl

  -- The status that answers an ID that is not valid.
  abbrev pub refusal : ChatRequest → Method → ℕ
  refusal r get = 404
  refusal r post = if is_none r.body then 400 else 500
  refusal r delete = 500
  refusal r other_method = 405

  post-Refused :
      (id : Text) (body : Option ChatSession) (disk : Disk)
      → valid_session_id id ≡ false
      → is_empty id ≡ false
      → post_session sys newest_first id body disk
        ≡ (refused (if is_none body then 400 else 500), disk)
  unfolding post_session write_chat_session_markdown chat_session_path
  post-Refused id none disk v e = refl
  post-Refused id (some s) disk v e = ground arith

  route-Refused :
      (dir : Listing) (r : ChatRequest) (m : Method) (disk : Disk)
      → valid_session_id r.id ≡ false
      → is_empty r.id ≡ false
      → route sys newest_first dir r m disk ≡ (refused (refusal r m), disk)
  unfolding route get_sessions read_chat_session_markdown delete_session delete_chat_session
      chat_session_path
  route-Refused dir r get disk v e = ground arith
  route-Refused dir r post disk v e = post-Refused r.id r.body disk v e
  route-Refused dir r delete disk v e = ground arith
  route-Refused dir r other_method disk v e = refl

  -- A request with an ID that is not empty and not valid is refused and changes no file: 404 for a
  -- GET, 500 for a DELETE and for a POST, 400 for a POST whose body is no session, and 405 for any
  -- other method.
  pub handler-Refused :
      (dir : Listing) (r : ChatRequest) (disk : Disk)
      → valid_session_id r.id ≡ false
      → is_empty r.id ≡ false
      → chat_sessions_handler sys newest_first dir r disk ≡ (refused (refusal r r.method), disk)
  unfolding chat_sessions_handler
  handler-Refused dir r disk v e = route-Refused dir r r.method disk v e

  post-Unnamed :
      (id : Text) (body : Option ChatSession) (disk : Disk)
      → is_empty id ≡ true
      → (post_session sys newest_first id body disk).1 ≡ disk
  unfolding post_session
  post-Unnamed id none disk e = refl
  post-Unnamed id (some s) disk e = ground arith

  route-Unnamed :
      (dir : Listing) (r : ChatRequest) (m : Method) (disk : Disk)
      → is_empty r.id ≡ true
      → (route sys newest_first dir r m disk).1 ≡ disk
  unfolding route post_session delete_session
  route-Unnamed dir r get disk e = refl
  route-Unnamed dir r post disk e = post-Unnamed r.id r.body disk e
  route-Unnamed dir r delete disk e = ground arith
  route-Unnamed dir r other_method disk e = refl

  -- A request leaves the files of every other session with a valid ID alone, whatever its own ID,
  -- the method, the body and the outcome.
  pub handler-Elsewhere :
      (dir : Listing) (r : ChatRequest) (disk : Disk) (other p : Text)
      → valid_session_id other ≡ true
      → r.id ≢ other
      → own_file other p ≡ true
      → file_at p (chat_sessions_handler sys newest_first dir r disk).1 ≡ file_at p disk
  unfolding chat_sessions_handler
  handler-Elsewhere dir r disk other p v ne own = elim (Bool-cases (valid_session_id r.id)) [
    | inl valid ↦ elim (Bool-cases (own_file r.id p)) [
      | inl mine ↦
          absurd (ne (sym (own_file-owner r.id p valid mine) ∙ own_file-owner other p v own))
      | inr foreign ↦ route-Elsewhere dir r r.method disk p foreign
    ]
    | inr invalid ↦ elim (Bool-cases (is_empty r.id)) [
      | inl e ↦ ap (file_at p) (route-Unnamed dir r r.method disk e)
      | inr e ↦
          ap (λ (x : ChatReply × Disk). file_at p x.1) (route-Refused dir r r.method disk invalid e)
    ]
  ]
