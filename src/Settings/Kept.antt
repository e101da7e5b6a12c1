-- ===== src/Settings/Kept.antt =====
-- No configuration is lost (web.go).
use yuanyi.Base.{
  true, false, List, [], ◌∷◌, ◌++◌, Option, none, some, ◌≡◌, ◌∙◌, refl, ap, ◌⊎◌, inl, inr,
  Bool-cases,
}
use yuanyi.Strings.{Text, text_eq}
use yuanyi.Strings.Laws.{text_eq-eq, text_eq_refl}
use yuanyi.Chat.{Disk, System, file_at, save, read_file, file_at-save, file_at-leave}
use yuanyi.Chat.Routes.{Method, get, post, delete, other_method}
use yuanyi.Settings.{
  ConfigReply, config_path, backups_prefix, backup_name, safety_name, write_file, copy_to, back_up,
  save_body, restore_from, put_config, post_config, config_handler, post_restore, restore_handler,
  saved_message, restored_message,
}

-- A request to /api/config or to /api/config/restore: its method, its time, and the body or the
-- file name in it.
pub data ConfigRequest : Type 0 where
  to_config to_restore : Method → Text → Option Text → ConfigRequest

abbrev pub copy_path : ConfigRequest → Text
copy_path (to_config m now body) = backups_prefix ++ backup_name now
copy_path (to_restore m now name) = backups_prefix ++ safety_name now

module _ (sys : System) (find_path : Text → Text) (defaults : Text) where
  unfoldable pub handle : ConfigRequest → Disk → Disk × ConfigReply
  unfolding config_handler restore_handler
  handle (to_config m now body) disk = config_handler sys defaults now m body disk
  handle (to_restore m now name) disk = restore_handler sys find_path now m name disk

  unfoldable pub handle_all : List ConfigRequest → Disk → Disk
  unfolding handle
  handle_all [] disk = disk
  handle_all (r ∷ rest) disk = handle_all rest (handle r disk).0

  -- The copy of each request gets a path where no file is.
  abbrev pub IsFresh : List ConfigRequest → Disk → Type 0
  IsFresh [] disk = Unit
  IsFresh (r ∷ rest) disk = (file_at (copy_path r) disk ≡ none) × IsFresh rest (handle r disk).0

-- A content stands in config.json or in a file of backups/.
abbrev pub IsKept : Text → Disk → Type 0
IsKept c disk =
    (file_at config_path disk ≡ some c)
    ⊎ ((name : Text) × (file_at (backups_prefix ++ name) disk ≡ some c))

pub config_ne_backup : (name : Text) → text_eq config_path (backups_prefix ++ name) ≡ false
unfolding text_eq
config_ne_backup name = refl

pub backup_ne_config : (name : Text) → text_eq (backups_prefix ++ name) config_path ≡ false
unfolding text_eq
backup_ne_config name = refl

module _ (sys : System) where
  pub write_file_other :
      (p q content : Text) (disk : Disk)
      → text_eq p q ≡ false
      → file_at q (write_file sys p content disk).0 ≡ file_at q disk
  unfolding write_file
  write_file_other p q content disk h = elim (Bool-cases (sys.can_write p)) [
    | inl e ↦ rw e (file_at-save p q content disk ∙ rw h refl)
    | inr e ↦ rw e (file_at-leave sys p q content disk h)
  ]

  -- Writing config.json leaves the backups alone.
  pub put_config_backup :
      (message content name : Text) (disk : Disk)
      → file_at (backups_prefix ++ name) (put_config sys message content disk).0
        ≡ file_at (backups_prefix ++ name) disk
  unfolding put_config
  put_config_backup message content name disk =
      write_file_other config_path (backups_prefix ++ name) content disk (config_ne_backup name)

  read_config :
      (c : Text) (disk : Disk)
      → sys.can_read config_path ≡ true
      → file_at config_path disk ≡ some c
      → read_file sys disk config_path ≡ some c
  read_config c disk r h = rw r h

  pub back_up_lem :
      (name c : Text) (disk : Disk)
      → sys.can_read config_path ≡ true
      → sys.can_write (backups_prefix ++ name) ≡ true
      → file_at config_path disk ≡ some c
      → back_up sys name disk ≡ save (backups_prefix ++ name) c disk
  unfolding back_up copy_to write_file
  back_up_lem name c disk r w h = rw (read_config c disk r h, copy_to) (rw w refl)

  -- A copy under a new name leaves the other backups alone.
  copy_to_other :
      (name other c : Text) (current : Option Text) (disk : Disk)
      → file_at (backups_prefix ++ name) disk ≡ none
      → file_at (backups_prefix ++ other) disk ≡ some c
      → file_at (backups_prefix ++ other) (copy_to sys name current disk) ≡ some c
  unfolding copy_to write_file
  copy_to_other name other c none disk new h = h
  copy_to_other name other c (some x) disk new h =
      let p = backups_prefix ++ name in
      let q = backups_prefix ++ other in
      elim (Bool-cases (text_eq p q)) [
        | inl e ↦ cc (text_eq-eq p q e)
        | inr e ↦ write_file_other p q x disk e ∙ h
      ]

  -- What the current file holds is copied, and what the backups hold stays.
  back_up_kept :
      (name c : Text) (disk : Disk)
      → sys.can_read config_path ≡ true
      → sys.can_write (backups_prefix ++ name) ≡ true
      → file_at (backups_prefix ++ name) disk ≡ none
      → IsKept c disk
      → (n : Text) × (file_at (backups_prefix ++ n) (back_up sys name disk) ≡ some c)
  unfolding back_up
  back_up_kept name c disk r w new (inl h) =
      let p = backups_prefix ++ name in
      (
        name,
        ap (file_at p) (back_up_lem name c disk r w h)
            ∙ file_at-save p p c disk
            ∙ rw (text_eq_refl p) refl,
      )
  back_up_kept name c disk r w new (inr (n, h)) =
      (n, copy_to_other name n c (read_file sys disk config_path) disk new h)

  put_config-IsKept :
      (message content c : Text) (disk : Disk)
      → (n : Text) × (file_at (backups_prefix ++ n) disk ≡ some c)
      → IsKept c (put_config sys message content disk).0
  put_config-IsKept message content c disk (n, h) =
      inr (n, put_config_backup message content n disk ∙ h)

  module _ (find_path : Text → Text) (defaults : Text) (r : sys.can_read config_path ≡ true)
      (w : (name : Text) → sys.can_write (backups_prefix ++ name) ≡ true) where
    restore_from-IsKept :
        (now c : Text) (found : Option Text) (disk : Disk)
        → file_at (backups_prefix ++ safety_name now) disk ≡ none
        → IsKept c disk
        → IsKept c (restore_from sys now found disk).0
    unfolding restore_from
    restore_from-IsKept now c none disk new h = h
    restore_from-IsKept now c (some backup) disk new h =
        put_config-IsKept restored_message backup c (back_up sys (safety_name now) disk)
          (back_up_kept (safety_name now) c disk r (w (safety_name now)) new h)

    handle-IsKept :
        (request : ConfigRequest) (c : Text) (disk : Disk)
        → file_at (copy_path request) disk ≡ none
        → IsKept c disk
        → IsKept c (handle sys find_path defaults request disk).0
    unfolding handle config_handler post_config save_body restore_handler post_restore
    handle-IsKept (to_config post now none) c disk new h =
        inr (back_up_kept (backup_name now) c disk r (w (backup_name now)) new h)
    handle-IsKept (to_config post now (some content)) c disk new h =
        put_config-IsKept saved_message content c (back_up sys (backup_name now) disk)
          (back_up_kept (backup_name now) c disk r (w (backup_name now)) new h)
    handle-IsKept (to_restore post now none) c disk new h = h
    handle-IsKept (to_restore post now (some name)) c disk new h =
        restore_from-IsKept now c (read_file sys disk (find_path (backups_prefix ++ name))) disk new
          h
    handle-IsKept (to_config get now x) c disk new h = h
    handle-IsKept (to_config delete now x) c disk new h = h
    handle-IsKept (to_config other_method now x) c disk new h = h
    handle-IsKept (to_restore get now x) c disk new h = h
    handle-IsKept (to_restore delete now x) c disk new h = h
    handle-IsKept (to_restore other_method now x) c disk new h = h

    IsKept-after :
        (history : List ConfigRequest) (c : Text) (disk : Disk)
        → IsFresh sys find_path defaults history disk
        → IsKept c disk
        → IsKept c (handle_all sys find_path defaults history disk)
    unfolding handle_all
    IsKept-after [] c disk new h = h
    IsKept-after (request ∷ rest) c disk new h =
        IsKept-after rest c (handle sys find_path defaults request disk).0 new.1
          (handle-IsKept request c disk new.0 h)

    -- If config.json can be read, files can be written below backups/, and no request makes its
    -- copy under the name of a file that is there, then what config.json holds at some time is
    -- after all later requests to both routes, whatever their methods, contents and outcomes, still
    -- in config.json or in a file of backups/.
    pub handle_all-IsKept :
        (history : List ConfigRequest) (c : Text) (disk : Disk)
        → IsFresh sys find_path defaults history disk
        → file_at config_path disk ≡ some c
        → IsKept c (handle_all sys find_path defaults history disk)
    handle_all-IsKept history c disk new h = IsKept-after history c disk new (inl h)
