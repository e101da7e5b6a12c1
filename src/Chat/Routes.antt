-- ===== src/Chat/Routes.antt =====
-- listChatSessions and the handler that RegisterChatRoutes mounts (chat_history.go).
use yuanyi.Base.{
  ℕ, ℤ, Bool, true, false, List, [], ◌∷◌, Option, none, some, is_empty, ◌>>=◌, if◌then◌else◌,
}
use yuanyi.Strings.{Text, codes, text_eq}
use yuanyi.Chat.{Disk, System, ChatSession, valid_session_id}
use yuanyi.Chat.Write.{write_chat_session_markdown, delete_chat_session}
use yuanyi.Chat.Read.{read_chat_session_markdown, read_chat_session_header}

-- os.DirEntry; `mod_time` is `none` if Info fails.
pub record DirEntry : Type 0 where
  pub name : Text
  pub is_dir : Bool
  pub mod_time : Option ℤ

pub record ChatSessionSummary : Type 0 where
  pub id : Text
  pub title : Text
  pub model : Text
  pub updated_at : ℤ

-- What os.ReadDir returns: no such directory, another error, or the entries.
pub data Listing : Type 0 where
  missing : Listing
  unreadable : Listing
  holding : List DirEntry → Listing

-- strings.HasSuffix and TrimSuffix: what stands before a suffix, if the text has it.
unfoldable pub strip_suffix : Text → Text → Option Text
unfolding text_eq
strip_suffix p [] = if is_empty p then some [] else none
strip_suffix p (c ∷ s) =
    if text_eq p (c ∷ s)
    then some []
    else elim (strip_suffix p s) [ none ↦ none | some r ↦ some (c ∷ r) ]

unfoldable pub summary_of : System → Disk → DirEntry → Option ChatSessionSummary
unfolding strip_suffix valid_session_id read_chat_session_header
summary_of sys disk e = do
  id ← if e.is_dir then none else strip_suffix (codes ".md") e.name
  _ ← if valid_session_id id then some id else none
  mod_time ← e.mod_time
  header ← read_chat_session_header sys disk id
  some (record { id = id; title = header.0; model = header.1; updated_at = mod_time })

unfoldable pub summaries : System → Disk → List DirEntry → List ChatSessionSummary
unfolding summary_of
summaries sys disk [] = []
summaries sys disk (e ∷ es) =
    let rest = summaries sys disk es in
    elim (summary_of sys disk e) [ some s ↦ s ∷ rest | none ↦ rest ]

-- `none` is the error. `newest_first` is sort.Slice, which leaves open how it orders sessions of
-- one time.
unfoldable pub list_chat_sessions :
    System
    → (List ChatSessionSummary → List ChatSessionSummary)
    → Disk
    → Listing
    → Option (List ChatSessionSummary)
unfolding summaries
list_chat_sessions sys newest_first disk missing = some []
list_chat_sessions sys newest_first disk unreadable = none
list_chat_sessions sys newest_first disk (holding es) = some (newest_first (summaries sys disk es))

pub data Method : Type 0 where
  get : Method
  post : Method
  delete : Method
  other_method : Method

-- `id` is the query's, `body` the decoded JSON of a POST.
pub record ChatRequest : Type 0 where
  pub method : Method
  pub id : Text
  pub body : Option ChatSession

pub data ChatReply : Type 0 where
  listed : List ChatSessionSummary → ChatReply
  session : ChatSession → ChatReply
  done : ChatReply
  refused : ℕ → ChatReply

-- The reply to an operation that may fail.
abbrev pub reply_of : Bool × Disk → ChatReply × Disk
reply_of (true, disk) = (done, disk)
reply_of (false, disk) = (refused 500, disk)

module _ (sys : System) (newest_first : List ChatSessionSummary → List ChatSessionSummary) where
  unfoldable pub get_sessions : Listing → Text → Disk → ChatReply
  unfolding list_chat_sessions read_chat_session_markdown
  get_sessions dir id disk =
      if is_empty id
      then elim (list_chat_sessions sys newest_first disk dir) [
        | none ↦ refused 500
        | some list ↦ listed list
      ]
      else elim (read_chat_session_markdown sys disk id) [ none ↦ refused 404 | some s ↦ session s ]

  unfoldable pub post_session : Text → Option ChatSession → Disk → ChatReply × Disk
  unfolding write_chat_session_markdown
  post_session id none disk = (refused 400, disk)
  post_session id (some s) disk =
      if is_empty id
      then (refused 400, disk)
      else reply_of (write_chat_session_markdown sys (record s { id = id }) disk)

  unfoldable pub delete_session : Text → Disk → ChatReply × Disk
  unfolding delete_chat_session
  delete_session id disk =
      if is_empty id then (refused 400, disk) else reply_of (delete_chat_session sys id disk)

  unfoldable pub route : Listing → ChatRequest → Method → Disk → ChatReply × Disk
  unfolding get_sessions post_session delete_session
  route dir r get disk = (get_sessions dir r.id disk, disk)
  route dir r post disk = post_session r.id r.body disk
  route dir r delete disk = delete_session r.id disk
  route dir r other_method disk = (refused 405, disk)

  -- The handler. ReadDir's listing is what the directory held at the time of the request.
  unfoldable pub chat_sessions_handler : Listing → ChatRequest → Disk → ChatReply × Disk
  unfolding route
  chat_sessions_handler dir r disk = route dir r r.method disk
