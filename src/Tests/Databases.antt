-- ===== src/Tests/Databases.antt =====
-- The tables of peers.db (server_db.go) at concrete inputs.
use yuanyi.Base.{
  String, ℤ, pos, true, ◌∷◌, [], find, remove, Option, none, some, ◌≡◌, refl, if◌then◌else◌, ◌==◌,
  ◌>>=◌,
}
use yuanyi.Db.{Db, default_row}
use yuanyi.Db.Retention.{is_old, old_ids, delete_old_peers}
use yuanyi.Db.Events.{recorded_event}
use yuanyi.Tests.Sample.{integers, empty_db}

-- Two nodes, of which one answered a ping.
abbrev two_rows : Db ℤ
two_rows = record empty_db {
  peers =
      ("a", record (default_row "a") { last_ping = "old" })
      ∷ ("b", record (default_row "b") { last_ping = "12ms" })
      ∷ [];
}

abbrev age : String → Option ℤ
age s = if s == "old" then some (pos 900) else none

kept :
    (delete_old_peers true true age (pos 600) two_rows >>= λ d. find "b" d.peers)
    ≡ find "b" two_rows.peers
unfolding delete_old_peers find default_row is_old old_ids remove
kept = refl

-- One event in the table.
abbrev one_event : Db ℤ
one_event = record empty_db {
  events = recorded_event "12:00" "a" "10.0.0.1" "connect" (pos 0) (pos 0) "" ∷ [];
  next_id = 7;
}
