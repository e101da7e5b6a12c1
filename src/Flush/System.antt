-- ===== src/Flush/System.antt =====
-- The hub's cache and database with one flusher: the methods of PeerCache run between its steps.
pub mod Safe
pub mod Reachable
use yuanyi.Base.{String, ℤ, pos, Bool, Option, none, some, List, [], ◌∷◌, ◌++◌, ◌≡◌, keys}
use yuanyi.Float.{Float64}
use yuanyi.Peer.{GpuInfo, PeerEvent}
use yuanyi.Cache.{PeerCache, queue_event, reset_stats}
use yuanyi.Db.{Db}
use yuanyi.Db.Batch.{Statement}
use yuanyi.Mirror.{Call, cache_step}
use yuanyi.Flush.{Copied, copy_cache, store, drain}

-- Where the flusher stands: outside Flush, past the copy, past the commit.
pub data Phase (F : Type 0) : Type 0 where
  idle : Phase F
  copied committed : Copied F → Phase F

pub record Hub (F : Type 0) : Type 0 where
  pub cache : PeerCache F
  pub db : Db F
  pub phase : Phase F
  -- every event of the table at the start and of QueueEvent since, oldest first
  pub history : List PeerEvent

-- The events that QueueEvent has appended, of which a call adds one.
pub record Audit : Type 0 where
  pub now : String
  pub peer_id : String
  pub ip_address : String
  pub event_type : String
  pub fail_count : ℤ
  pub penalty_points : ℤ
  pub detail : String

abbrev pub event_of : Audit → PeerEvent
event_of a = record {
  id = pos 0;
  peer_id = a.peer_id;
  ip_address = a.ip_address;
  event_type = a.event_type;
  fail_count = a.fail_count;
  penalty_points = a.penalty_points;
  timestamp = a.now;
  detail = a.detail;
}

module _ {F : Type 0} ⦃fl : Float64 F⦄ where
  abbrev pub queued : Audit → PeerCache F → PeerCache F
  queued a =
      queue_event a.now a.peer_id a.ip_address a.event_type a.fail_count a.penalty_points a.detail

  pub data Step (marshal : GpuInfo F → Option String) : Hub F → Hub F → Type 0 where
    calls :
        (h : Hub F) (c : Call F)
        → Step marshal h (record h { cache = cache_step marshal c h.cache })
    audits :
        (h : Hub F) (a : Audit)
        → Step marshal h
            (record h { cache = queued a h.cache; history = h.history ++ event_of a ∷ [] })
    resets : (h : Hub F) → Step marshal h (record h { cache = (reset_stats h.cache).0 })
    copies :
        (h : Hub F)
        → h.phase ≡ idle
        → Step marshal h (record h { phase = copied (copy_cache h.cache) })
    stores :
        (h : Hub F) (c : Copied F) (runs : Statement F → Bool) (db' : Db F)
        → h.phase ≡ copied c
        → store runs c h.db ≡ some db'
        → Step marshal h (record h { db = db'; phase = committed c })
    fails :
        (h : Hub F) (c : Copied F) (runs : Statement F → Bool)
        → h.phase ≡ copied c
        → store runs c h.db ≡ none
        → Step marshal h (record h { phase = idle })
    drains :
        (h : Hub F) (c : Copied F) (pc' : PeerCache F)
        → h.phase ≡ committed c
        → drain c h.cache ≡ some pc'
        → Step marshal h (record h { cache = pc'; phase = idle })

  pub data Reach (marshal : GpuInfo F → Option String) (s : Hub F) : Hub F → Type 0 where
    here : Reach marshal s s
    next : {t u : Hub F} → Reach marshal s t → Step marshal t u → Reach marshal s u
