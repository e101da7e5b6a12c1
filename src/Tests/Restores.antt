-- ===== src/Tests/Restores.antt =====
-- The configuration routes (web.go) at concrete files.
use yuanyi.Base.{List, [], ◌∷◌, ◌++◌, none, some, ◌≡◌, refl, false, not, arith}
use yuanyi.Strings.{Text, codes, text_eq, strip_prefix}
use yuanyi.Chat.{Disk, System, file_at, save}
use yuanyi.Chat.Routes.{post, DirEntry}
use yuanyi.Settings.{
  config_path, backups_prefix, backup_name, safety_name, get_config, list_backups,
}
use yuanyi.Settings.Kept.{
  ConfigRequest, to_config, to_restore, copy_path, handle, handle_all, IsFresh, IsKept,
  handle_all-IsKept,
}
use yuanyi.Settings.Undo.{get_config-restore}
use yuanyi.Settings.Refusals.{wanted, Stays, handle-Refused}
use yuanyi.Tests.Chats.{sys}

abbrev configured : Disk
configured = (codes "config.json", codes "A") ∷ []

-- The system takes every path as it is.
abbrev as_given : Text → Text
as_given p = p

abbrev noon : Text
noon = codes "20260828_120000"

abbrev one_second_later : Text
one_second_later = codes "20260828_120001"

abbrev save_and_restore : List ConfigRequest
save_and_restore =
    to_config post noon (some (codes "B"))
    ∷ to_restore post one_second_later (some (backup_name noon))
    ∷ []

new_names : IsFresh sys as_given [] save_and_restore configured
unfolding handle file_at save text_eq
new_names = (refl, (refl, tt))

handle_all-IsKept_example :
    IsKept (codes "A") (handle_all sys as_given [] save_and_restore configured)
unfolding file_at text_eq
handle_all-IsKept_example =
    handle_all-IsKept sys as_given [] refl (λ n. refl) save_and_restore (codes "A") configured
      new_names refl

get_config-restore_example :
    (get_config sys [] (handle_all sys as_given [] save_and_restore configured)
      ≡ record { status = 200; body = codes "A" })
    × (file_at
          (backups_prefix ++ safety_name one_second_later)
          (handle_all sys as_given [] save_and_restore configured)
        ≡ some (codes "B"))
unfolding file_at text_eq
get_config-restore_example =
    get_config-restore sys refl as_given [] noon one_second_later (codes "A") (codes "B") configured
      refl refl (λ n. refl) refl refl

-- The disk is full for config.json, and the copy goes through.
abbrev full : System
full = record sys { can_write = λ p. not (text_eq p config_path) }

handle-Refused_example :
    ((q : Text)
      → text_eq (copy_path (to_config post noon (some (codes "B")))) q ≡ false
      → text_eq config_path q ≡ false
      → file_at q (handle full as_given [] (to_config post noon (some (codes "B"))) configured).0
        ≡ file_at q configured)
    × Stays full
        (some (codes "B"))
        configured
        (handle full as_given [] (to_config post noon (some (codes "B"))) configured)
unfolding handle wanted text_eq
handle-Refused_example =
    handle-Refused full as_given [] (to_config post noon (some (codes "B"))) configured
      (λ e. omega arith)

-- Nothing of config.json is left, and the old configuration is in the copy.
truncated :
    (handle full as_given [] (to_config post noon (some (codes "B"))) configured).0
    ≡ (config_path, []) ∷ (backups_prefix ++ backup_name noon, codes "A") ∷ []
unfolding handle text_eq save file_at
truncated = refl

-- Two saves in one second: the first configuration is in no file any more.
lost_config :
    handle_all sys as_given []
      (to_config post noon (some (codes "B")) ∷ to_config post noon (some (codes "C")) ∷ [])
      configured
    ≡ (config_path, codes "C") ∷ (backups_prefix ++ backup_name noon, codes "B") ∷ []
unfolding handle_all save text_eq file_at
lost_config = refl

abbrev file : Text → DirEntry
file name = record { name = name; is_dir = false; mod_time = none }

-- Copies made before a restore stand first, however old they are.
listed :
    list_backups (
      some (
        file (safety_name noon)
        ∷ file (backup_name one_second_later)
        ∷ file (codes "notes.json")
        ∷ []))
    ≡ safety_name noon ∷ backup_name one_second_later ∷ []
unfolding list_backups strip_prefix
listed = refl
