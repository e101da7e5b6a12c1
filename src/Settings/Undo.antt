-- ===== src/Settings/Undo.antt =====
-- Restoring the backup of a save (web.go).
use yuanyi.Base.{true, [], ◌∷◌, ◌++◌, some, ◌≡◌, ◌∙◌, refl, ap}
use yuanyi.Strings.{Text}
use yuanyi.Strings.Laws.{text_eq_refl}
use yuanyi.Chat.{Disk, System, file_at, save, read_file, file_at-save}
use yuanyi.Chat.Routes.{post}
use yuanyi.Settings.{
  config_path, backups_prefix, backup_name, safety_name, write_file, back_up, put_config,
  get_config, save_body, post_config, config_handler, restore_from, post_restore, restore_handler,
  saved_message, restored_message,
}
use yuanyi.Settings.Kept.{to_config, to_restore, handle, handle_all, back_up_lem, config_ne_backup}

module _ (sys : System) (w : sys.can_write config_path ≡ true) where
  put_config_done :
      (message content : Text) (disk : Disk)
      → (put_config sys message content disk).0 ≡ save config_path content disk
  unfolding put_config write_file
  put_config_done message content disk = rw w refl

  -- A copy, and the new file.
  change_lem :
      (name c content : Text) (message : Text) (disk : Disk)
      → sys.can_read config_path ≡ true
      → sys.can_write (backups_prefix ++ name) ≡ true
      → file_at config_path disk ≡ some c
      → (put_config sys message content (back_up sys name disk)).0
        ≡ save config_path content (save (backups_prefix ++ name) c disk)
  change_lem name c content message disk r b h =
      put_config_done message content (back_up sys name disk)
      ∙ ap (save config_path content) (back_up_lem sys name c disk r b h)

  file_at-change :
      (name c content : Text) (disk : Disk)
      → (file_at config_path (save config_path content (save (backups_prefix ++ name) c disk))
          ≡ some content)
        × (file_at
              (backups_prefix ++ name)
              (save config_path content (save (backups_prefix ++ name) c disk))
            ≡ some c)
  file_at-change name c content disk =
      let p = backups_prefix ++ name in
      let d = save p c disk in
      (
        file_at-save config_path config_path content d ∙ rw (text_eq_refl config_path) refl,
        file_at-save config_path p content d
            ∙ rw (config_ne_backup name) (file_at-save p p c disk ∙ rw (text_eq_refl p) refl),
      )

  module _ (find_path : Text → Text) (defaults : Text) where
    saved_disk :
        (now c content : Text) (disk : Disk)
        → sys.can_read config_path ≡ true
        → sys.can_write (backups_prefix ++ backup_name now) ≡ true
        → file_at config_path disk ≡ some c
        → (handle sys find_path defaults (to_config post now (some content)) disk).0
          ≡ save config_path content (save (backups_prefix ++ backup_name now) c disk)
    unfolding handle config_handler post_config save_body
    saved_disk now c content disk r b h =
        change_lem (backup_name now) c content saved_message disk r b h

    restored_disk :
        (later name c content : Text) (disk : Disk)
        → sys.can_read config_path ≡ true
        → sys.can_read (backups_prefix ++ name) ≡ true
        → sys.can_write (backups_prefix ++ safety_name later) ≡ true
        → find_path (backups_prefix ++ name) ≡ backups_prefix ++ name
        → file_at config_path disk ≡ some content
        → file_at (backups_prefix ++ name) disk ≡ some c
        → (handle sys find_path defaults (to_restore post later (some name)) disk).0
          ≡ save config_path c (save (backups_prefix ++ safety_name later) content disk)
    unfolding handle restore_handler post_restore restore_from
    restored_disk later name c content disk r rb b found h k =
        let e : read_file sys disk (find_path (backups_prefix ++ name)) ≡ some c =
          ap (read_file sys disk) found ∙ rw rb k in
        ap (λ o. (restore_from sys later o disk).0) e
        ∙ change_lem (safety_name later) content c restored_message disk r b h

    read_back :
        (c : Text) (disk : Disk)
        → sys.can_read config_path ≡ true
        → file_at config_path disk ≡ some c
        → get_config sys defaults disk ≡ record { status = 200; body = c }
    unfolding get_config
    read_back c disk r h = rw (r, h) refl

    -- If config.json and its first backup can be read, all files can be written, and the system
    -- finds the backup under its path, then a save and the restore of its backup bring the old
    -- configuration back: it is what the console shows, and the saved one is in the second backup.
    pub get_config-restore :
        (now later c content : Text) (disk : Disk)
        → sys.can_read config_path ≡ true
        → sys.can_read (backups_prefix ++ backup_name now) ≡ true
        → ((name : Text) → sys.can_write (backups_prefix ++ name) ≡ true)
        → find_path (backups_prefix ++ backup_name now) ≡ backups_prefix ++ backup_name now
        → file_at config_path disk ≡ some c
        → let after =
            handle_all sys find_path defaults
              (to_config post now (some content)
                ∷ to_restore post later (some (backup_name now))
                ∷ [])
              disk in
          (get_config sys defaults after ≡ record { status = 200; body = c })
          × (file_at (backups_prefix ++ safety_name later) after ≡ some content)
    unfolding handle_all
    get_config-restore now later c content disk r rb wb found h =
        let name = backup_name now in
        let safe = safety_name later in
        let middle = save config_path content (save (backups_prefix ++ name) c disk) in
        let (shown, kept) = file_at-change name c content disk in
        let e =
          ap (λ d. (handle sys find_path defaults (to_restore post later (some name)) d).0)
            (saved_disk now c content disk r (wb name) h)
          ∙ restored_disk later name c content middle r rb (wb safe) found shown kept in
        let (shown', kept') = file_at-change safe content c middle in
        (
          ap (get_config sys defaults) e
              ∙ read_back c (save config_path c (save (backups_prefix ++ safe) content middle)) r
                  shown',
          ap (file_at (backups_prefix ++ safe)) e ∙ kept',
        )
