-- ===== src/Settings/Refusals.antt =====
-- Requests that are refused or fail (web.go).
use yuanyi.Base.{
  ◌≢◌, false, ◌++◌, Option, none, some, ◌≡◌, ◌∙◌, refl, Bool-cases, Option-cases, inl, inr, ◌⊎◌,
}
use yuanyi.Strings.{Text, text_eq}
use yuanyi.Strings.Laws.{text_eq_refl}
use yuanyi.Chat.{leave, Disk, System, file_at, read_file, file_at-save}
use yuanyi.Chat.Routes.{get, post, delete, other_method}
use yuanyi.Settings.{
  ConfigReply, config_path, backups_prefix, backup_name, safety_name, write_file, copy_to, back_up,
  put_config, save_body, saved_message, restored_message, post_config, config_handler, restore_from,
  post_restore, restore_handler,
}
use yuanyi.Settings.Kept.{
  ConfigRequest, to_config, to_restore, handle, copy_path, write_file_other, backup_ne_config,
}

module _ (sys : System) where
  copy_to_elsewhere :
      (name q : Text) (current : Option Text) (disk : Disk)
      → text_eq (backups_prefix ++ name) q ≡ false
      → file_at q (copy_to sys name current disk) ≡ file_at q disk
  unfolding copy_to
  copy_to_elsewhere name q none disk h = refl
  copy_to_elsewhere name q (some c) disk h =
      write_file_other sys (backups_prefix ++ name) q c disk h

  back_up_elsewhere :
      (name q : Text) (disk : Disk)
      → text_eq (backups_prefix ++ name) q ≡ false
      → file_at q (back_up sys name disk) ≡ file_at q disk
  unfolding back_up
  back_up_elsewhere name q disk h = copy_to_elsewhere name q (read_file sys disk config_path) disk h

  -- Writing config.json touches no other file.
  put_config_elsewhere :
      (message content q : Text) (disk : Disk)
      → text_eq config_path q ≡ false
      → file_at q (put_config sys message content disk).0 ≡ file_at q disk
  unfolding put_config
  put_config_elsewhere message content q disk h = write_file_other sys config_path q content disk h

  -- config.json after an answer: as it was, or, after a 500, what a failed write left of the content
  -- that was wanted there.
  abbrev pub Stays : Option Text → Disk → Disk × ConfigReply → Type 0
  Stays wanted disk (after, reply) =
      (file_at config_path after ≡ file_at config_path disk)
      ⊎ ((reply.status ≡ 500)
          × (content : Text) × (part : Text) × (wanted ≡ some content)
          × (sys.left_over config_path content ≡ some part)
          × (file_at config_path after ≡ some part))

  -- What a request wants in config.json: its body, or the file that it names.
  unfoldable pub wanted : (Text → Text) → ConfigRequest → Disk → Option Text
  wanted find_path (to_config m now body) disk = body
  wanted find_path (to_restore m now none) disk = none
  wanted find_path (to_restore m now (some name)) disk =
      read_file sys disk (find_path (backups_prefix ++ name))

  -- Writing config.json succeeds, or it leaves what the system leaves.
  put_config-Stays :
      (message content : Text) (disk before : Disk)
      → file_at config_path disk ≡ file_at config_path before
      → (put_config sys message content disk).1.status ≢ 200
      → Stays (some content) before (put_config sys message content disk)
  unfolding put_config write_file leave
  put_config-Stays message content disk before h bad =
      elim (Bool-cases (sys.can_write config_path)) [
        | inl e ↦ absurd (bad (rw e refl))
        | inr e ↦ elim (Option-cases (sys.left_over config_path content)) [
          | inl n ↦ rw (e, n, leave) (inl h)
          | inr (part, l) ↦
              rw (e, l, leave)
                (inr (
                  refl,
                  content,
                  part,
                  refl,
                  l,
                  file_at-save config_path config_path part disk
                      ∙ rw (text_eq_refl config_path) refl,
                ))
        ]
      ]

  config-back_up :
      (name : Text) (disk : Disk)
      → file_at config_path (back_up sys name disk) ≡ file_at config_path disk
  config-back_up name disk = back_up_elsewhere name config_path disk (backup_ne_config name)

  restore_from_elsewhere :
      (now q : Text) (found : Option Text) (disk : Disk)
      → text_eq (backups_prefix ++ safety_name now) q ≡ false
      → text_eq config_path q ≡ false
      → file_at q (restore_from sys now found disk).0 ≡ file_at q disk
  unfolding restore_from
  restore_from_elsewhere now q none disk h k = refl
  restore_from_elsewhere now q (some c) disk h k =
      put_config_elsewhere restored_message c q (back_up sys (safety_name now) disk) k
      ∙ back_up_elsewhere (safety_name now) q disk h

  restore_from-Stays :
      (now : Text) (found : Option Text) (disk : Disk)
      → (restore_from sys now found disk).1.status ≢ 200
      → Stays found disk (restore_from sys now found disk)
  unfolding restore_from
  restore_from-Stays now none disk bad = inl refl
  restore_from-Stays now (some c) disk bad =
      put_config-Stays restored_message c (back_up sys (safety_name now) disk) disk
        (config-back_up (safety_name now) disk) bad

  module _ (find_path : Text → Text) (defaults : Text) where
    handle_elsewhere :
        (request : ConfigRequest) (q : Text) (disk : Disk)
        → text_eq (copy_path request) q ≡ false
        → text_eq config_path q ≡ false
        → file_at q (handle sys find_path defaults request disk).0 ≡ file_at q disk
    unfolding handle config_handler post_config save_body restore_handler post_restore
    handle_elsewhere (to_config post now none) q disk h k =
        back_up_elsewhere (backup_name now) q disk h
    handle_elsewhere (to_config post now (some content)) q disk h k =
        put_config_elsewhere saved_message content q (back_up sys (backup_name now) disk) k
        ∙ back_up_elsewhere (backup_name now) q disk h
    handle_elsewhere (to_config get now body) q disk h k = refl
    handle_elsewhere (to_config delete now body) q disk h k = refl
    handle_elsewhere (to_config other_method now body) q disk h k = refl
    handle_elsewhere (to_restore post now none) q disk h k = refl
    handle_elsewhere (to_restore post now (some name)) q disk h k =
        restore_from_elsewhere now q (read_file sys disk (find_path (backups_prefix ++ name))) disk
          h k
    handle_elsewhere (to_restore get now name) q disk h k = refl
    handle_elsewhere (to_restore delete now name) q disk h k = refl
    handle_elsewhere (to_restore other_method now name) q disk h k = refl

    handle-Stays :
        (request : ConfigRequest) (disk : Disk)
        → (handle sys find_path defaults request disk).1.status ≢ 200
        → Stays (wanted find_path request disk) disk (handle sys find_path defaults request disk)
    unfolding handle wanted config_handler post_config save_body restore_handler post_restore
    handle-Stays (to_config post now none) disk bad = inl (config-back_up (backup_name now) disk)
    handle-Stays (to_config post now (some content)) disk bad =
        put_config-Stays saved_message content (back_up sys (backup_name now) disk) disk
          (config-back_up (backup_name now) disk) bad
    handle-Stays (to_config get now body) disk bad = inl refl
    handle-Stays (to_config delete now body) disk bad = inl refl
    handle-Stays (to_config other_method now body) disk bad = inl refl
    handle-Stays (to_restore post now none) disk bad = inl refl
    handle-Stays (to_restore post now (some name)) disk bad =
        restore_from-Stays now (read_file sys disk (find_path (backups_prefix ++ name))) disk bad
    handle-Stays (to_restore get now name) disk bad = inl refl
    handle-Stays (to_restore delete now name) disk bad = inl refl
    handle-Stays (to_restore other_method now name) disk bad = inl refl

    -- A request to either route that is answered otherwise than by 200 changes at most the copy
    -- that it makes first and config.json, and config.json only with a 500: it then holds what a
    -- failed write has left of the body of the request, or of the file that the request names.
    pub handle-Refused :
        (request : ConfigRequest) (disk : Disk)
        → (handle sys find_path defaults request disk).1.status ≢ 200
        → ((q : Text)
            → text_eq (copy_path request) q ≡ false
            → text_eq config_path q ≡ false
            → file_at q (handle sys find_path defaults request disk).0 ≡ file_at q disk)
          × Stays (wanted find_path request disk) disk (handle sys find_path defaults request disk)
    handle-Refused request disk bad =
        (λ q h k. handle_elsewhere request q disk h k, handle-Stays request disk bad)
