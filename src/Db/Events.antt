-- ===== src/Db/Events.antt =====
-- RecordEvent and GetRecentEvents (server_db.go). The Boolean says whether the engine runs the
-- statement; the answer none is an error.
use yuanyi.Base.{
  ℕ, String, ℤ, pos, negsuc, zero, suc, Bool, true, Option, none, some, List, [], ◌∷◌, ◌++◌, All,
  if◌then◌else◌, ltb_ℤ, ◌≡◌, refl, ap, ◌∙◌, ◌>>=◌, take,
}
use yuanyi.Peer.{PeerEvent}
use yuanyi.Db.{Db}
use yuanyi.Db.Batch.{append_event}
use yuanyi.Sort.{insert, slice_stable}

-- ORDER BY id DESC
abbrev pub newer : PeerEvent → PeerEvent → Bool
newer a b = ltb_ℤ b.id a.id

unfoldable pub newest_first : List PeerEvent → List PeerEvent
unfolding slice_stable
newest_first es = slice_stable newer es

-- The LIMIT: a request for no events is one for a hundred.
unfoldable pub page_size : ℤ → ℕ
page_size (pos zero) = 100
page_size (pos (suc n)) = suc n
page_size (negsuc n) = 100

-- The VALUES of the INSERT; the engine gives the row its id.
abbrev pub recorded_event : String → String → String → String → ℤ → ℤ → String → PeerEvent
recorded_event now peer_id ip_address event_type fail_count penalty_points detail = record {
  id = pos 0;
  peer_id = peer_id;
  ip_address = ip_address;
  event_type = event_type;
  fail_count = fail_count;
  penalty_points = penalty_points;
  timestamp = now;
  detail = detail;
}

module _ {F : Type 0} where
  unfoldable pub record_event :
      Bool → String → String → String → String → ℤ → ℤ → String → Db F → Option (Db F)
  unfolding append_event
  record_event runs now peer_id ip_address event_type fail_count penalty_points detail db =
      if runs
      then some (
          append_event
            (recorded_event now peer_id ip_address event_type fail_count penalty_points detail) db)
      else none

  unfoldable pub get_recent_events : Bool → ℤ → Db F → Option (List PeerEvent)
  unfolding page_size newest_first
  get_recent_events runs limit db =
      if runs then some (take (page_size limit) (newest_first db.events)) else none

newest_first-append :
    (es : List PeerEvent) (e : PeerEvent)
    → All (λ o. newer e o ≡ true) es
    → newest_first (es ++ e ∷ []) ≡ e ∷ newest_first es
unfolding newest_first slice_stable insert
newest_first-append [] e h = refl
newest_first-append (o ∷ es) e h =
    ap (insert newer o) (newest_first-append es e h.1) ∙ rw (h.0, insert) refl

module _ {F : Type 0} where
  -- If the id that comes next is above those in the table and the engine runs both statements, the
  -- listing after an event is recorded is this event and then those that were there, the newest
  -- first, up to the limit.
  pub get_recent_events-record_event :
      (now peer_id ip_address event_type : String) (fail_count penalty_points : ℤ) (detail : String)
      (db : Db F) (limit : ℤ)
      → All (λ (o : PeerEvent). ltb_ℤ o.id (pos db.next_id) ≡ true) db.events
      → (record_event true now peer_id ip_address event_type fail_count penalty_points detail db
          >>= get_recent_events true limit)
        ≡ some (
            take (page_size limit) (
              record (recorded_event now peer_id ip_address event_type fail_count penalty_points
                detail) { id = pos db.next_id }
              ∷ newest_first db.events))
  unfolding record_event get_recent_events append_event
  get_recent_events-record_event now peer_id ip_address event_type fail_count penalty_points detail
        db limit h =
      let e =
        record (recorded_event now peer_id ip_address event_type fail_count penalty_points detail) {
          id = pos db.next_id;
        } in
      ap (λ es. some (take (page_size limit) es)) (newest_first-append db.events e h)
