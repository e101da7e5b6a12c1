-- ===== src/Settings.antt =====
-- The configuration routes of the web console (web.go): config.json, its backups, and restoring
-- one. A time is given as the text of time.Format. `find_path` is how the operating system takes a
-- path that a client made up.
pub mod Kept
pub mod Undo
pub mod Refusals
use yuanyi.Base.{
  ℕ, Bool, true, false, ◌&&◌, not, List, [], ◌∷◌, ◌++◌, Option, none, some, is_none, get_or,
  if◌then◌else◌,
}
use yuanyi.Strings.{Text, codes, has_prefix}
use yuanyi.Strings.Order.{text_lt}
use yuanyi.Sort.{slice_stable}
use yuanyi.Chat.{Disk, System, save, leave, read_file}
use yuanyi.Chat.Routes.{DirEntry, Method, get, post, delete, other_method, strip_suffix}

-- The text of an error is left out.
pub record ConfigReply : Type 0 where
  pub status : ℕ
  pub body : Text

abbrev pub saved_message : Text
saved_message =
    codes "{\"status\":\"ok\", \"message\": \"Config saved and backed up successfully.\"}"

abbrev pub restored_message : Text
restored_message = codes "{\"status\":\"ok\", \"message\": \"Config restored successfully.\"}"

abbrev pub config_path : Text
config_path = codes "config.json"

abbrev pub backups_prefix : Text
backups_prefix = codes "backups/"

-- config_<time>.json
abbrev pub backup_name : Text → Text
backup_name now = codes "config_" ++ (now ++ codes ".json")

abbrev pub safety_name : Text → Text
safety_name now = codes "config_before_restore_" ++ (now ++ codes ".json")

-- os.WriteFile, and whether it succeeds.
unfoldable pub write_file : System → Text → Text → Disk → Disk × Bool
unfolding leave
write_file sys path content disk =
    if sys.can_write path
    then (save path content disk, true)
    else (leave sys path content disk, false)

-- What both routes do first: the current file is copied, if there is one, and errors are ignored.
unfoldable pub copy_to : System → Text → Option Text → Disk → Disk
unfolding write_file
copy_to sys name none disk = disk
copy_to sys name (some current) disk = (write_file sys (backups_prefix ++ name) current disk).0

unfoldable pub back_up : System → Text → Disk → Disk
unfolding copy_to
back_up sys name disk = copy_to sys name (read_file sys disk config_path) disk

-- The new file is written, and the answer says so.
unfoldable pub put_config : System → Text → Text → Disk → Disk × ConfigReply
unfolding write_file
put_config sys message content disk =
    let (disk', done) = write_file sys config_path content disk in
    (
      disk',
      if done then record { status = 200; body = message } else record { status = 500; body = [] },
    )

-- GET /api/config; `defaults` is the configuration in memory as JSON.
unfoldable pub get_config : System → Text → Disk → ConfigReply
get_config sys defaults disk = record {
  status = 200;
  body = get_or (read_file sys disk config_path) defaults;
}

-- The body is none if it cannot be read.
unfoldable pub save_body : System → Option Text → Disk → Disk × ConfigReply
unfolding put_config
save_body sys none disk = (disk, record { status = 500; body = [] })
save_body sys (some content) disk = put_config sys saved_message content disk

-- POST /api/config
unfoldable pub post_config : System → Text → Option Text → Disk → Disk × ConfigReply
unfolding back_up save_body
post_config sys now body disk = save_body sys body (back_up sys (backup_name now) disk)

unfoldable pub config_handler :
    System → Text → Text → Method → Option Text → Disk → Disk × ConfigReply
unfolding get_config post_config
config_handler sys defaults now get body disk = (disk, get_config sys defaults disk)
config_handler sys defaults now post body disk = post_config sys now body disk
config_handler sys defaults now delete body disk = (disk, record { status = 405; body = [] })
config_handler sys defaults now other_method body disk = (disk, record { status = 405; body = [] })

-- The second half of POST /api/config/restore, with what was read of the backup.
unfoldable pub restore_from : System → Text → Option Text → Disk → Disk × ConfigReply
unfolding back_up put_config
restore_from sys now none disk = (disk, record { status = 404; body = [] })
restore_from sys now (some backup) disk =
    put_config sys restored_message backup (back_up sys (safety_name now) disk)

-- The file name is none if the body is no JSON object of the form, and empty if it is left out.
unfoldable pub post_restore :
    System → (Text → Text) → Text → Option Text → Disk → Disk × ConfigReply
unfolding restore_from
post_restore sys find_path now none disk = (disk, record { status = 400; body = [] })
post_restore sys find_path now (some name) disk =
    restore_from sys now (read_file sys disk (find_path (backups_prefix ++ name))) disk

unfoldable pub restore_handler :
    System → (Text → Text) → Text → Method → Option Text → Disk → Disk × ConfigReply
unfolding post_restore
restore_handler sys find_path now post name disk = post_restore sys find_path now name disk
restore_handler sys find_path now get name disk = (disk, record { status = 405; body = [] })
restore_handler sys find_path now delete name disk = (disk, record { status = 405; body = [] })
restore_handler sys find_path now other_method name disk =
    (disk, record { status = 405; body = [] })

abbrev pub is_backup : DirEntry → Bool
is_backup e =
    not e.is_dir
    && has_prefix (codes "config_") e.name
    && not (is_none (strip_suffix (codes ".json") e.name))

unfoldable pub backup_names : List DirEntry → List Text
unfolding strip_suffix
backup_names [] = []
backup_names (e ∷ es) = let rest = backup_names es in if is_backup e then e.name ∷ rest else rest

-- The entries of backups/, none if it cannot be read. Names in a directory are distinct, so that
-- sort.Slice leaves no choice.
unfoldable pub list_backups : Option (List DirEntry) → List Text
unfolding backup_names slice_stable text_lt
list_backups entries = slice_stable (λ a b. text_lt b a) (backup_names (get_or entries []))
