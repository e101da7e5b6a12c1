-- ===== src/Console.antt =====
-- The state behind the terminal interface (tui.go): counters, three logs, and what the peers last
-- reported. The rendering is not modelled. A time is in nanoseconds; `unmarshal` and `marshal` are
-- encoding/json at PersistentStats, an unreadable stats.json is none.
pub mod History
pub mod Logs
pub mod Peers
pub mod Thousands
pub mod Screen
use yuanyi.Base.{
  ℕ, zero, suc, ◌+◌, ◌-◌, ◌*◌, ◌%◌, String, ℤ, pos, Bool, true, false, ◌&&◌, List, [], ◌∷◌, ◌++◌,
  Option, none, some, Map, find, put, if◌then◌else◌, nat_eq, ltb, leb, add64, length, drop,
}
use yuanyi.Peer.{GpuInfo}
use yuanyi.Gateway.{Stats}
use yuanyi.Strings.{Text, codes}
use yuanyi.Telemetry.{show_int}

-- The counters that stats.json keeps are those of `Stats`.
unfoldable pub zero_stats : Stats
zero_stats = record {
  requests = pos 0;
  in_tokens = pos 0;
  out_tokens = pos 0;
  prefill = pos 0;
  decode = pos 0;
  error_count = pos 0;
  success_count = pos 0;
}

pub record PeerRecord (F : Type 0) : Type 0 where
  pub info : GpuInfo F
  pub last_seen : ℕ

pub record Tui (F : Type 0) : Type 0 where
  pub stats : Stats
  pub log_lines : List Text
  pub max_log_line : ℕ
  pub vllm_log_lines : List Text
  pub docker_log_lines : List Text
  pub peer_records : Map (PeerRecord F)

unfoldable pub load_stats_disk : (Text → Option Stats) → Option Text → Stats
unfolding zero_stats
load_stats_disk unmarshal none = zero_stats
load_stats_disk unmarshal (some content) = elim (unmarshal content) [
  | none ↦ zero_stats
  | some p ↦ p
]

-- One more line, and the oldest ones dropped.
unfoldable pub push_line : ℕ → Text → List Text → List Text
push_line max line lines =
    let more = lines ++ line ∷ [] in
    if ltb max (length more) then drop (length more - max) more else more

-- The line that AddLog writes.
abbrev pub log_line : Text → Text → Text → Text
log_line now level message = 91 ∷ (now ++ (codes "] " ++ (level ++ 32 ∷ message)))

module _ {F : Type 0} where
  unfoldable pub new_tui : (Text → Option Stats) → Option Text → Tui F
  unfolding load_stats_disk
  new_tui unmarshal content = record {
    stats = load_stats_disk unmarshal content;
    log_lines = [];
    max_log_line = 300;
    vllm_log_lines = [];
    docker_log_lines = [];
    peer_records = [];
  }

  unfoldable pub add_docker_log : Text → Tui F → Tui F
  unfolding push_line
  add_docker_log line t = record t {
    docker_log_lines = push_line t.max_log_line line t.docker_log_lines;
  }

  unfoldable pub add_vllm_log : Text → Tui F → Tui F
  unfolding push_line
  add_vllm_log line t = record t { vllm_log_lines = push_line t.max_log_line line t.vllm_log_lines }

  unfoldable pub add_log : Text → Text → Text → Tui F → Tui F
  unfolding push_line
  add_log now level message t = record t {
    log_lines = push_line t.max_log_line (log_line now level message) t.log_lines;
  }

  unfoldable pub record_peer_info : ℕ → GpuInfo F → Tui F → Tui F
  record_peer_info now info t = record t {
    peer_records = put info.node_id (record { info = info; last_seen = now }) t.peer_records;
  }

  -- now.Sub(rec.LastSeen) <= 90*time.Second
  abbrev pub is_online : ℕ → PeerRecord F → Bool
  is_online now r = leb now (r.last_seen + 90 * 1000000000)

  unfoldable pub online : ℕ → Map (PeerRecord F) → Map (GpuInfo F)
  online now [] = []
  online now ((id, r) ∷ m) =
      let rest = online now m in if is_online now r then (id, r.info) ∷ rest else rest

  unfoldable pub get_peers : ℕ → Tui F → Map (GpuInfo F)
  unfolding online
  get_peers now t = online now t.peer_records

  unfoldable pub get_logs : Tui F → List Text × List Text × List Text
  get_logs t = (t.log_lines, t.vllm_log_lines, t.docker_log_lines)

  unfoldable pub update_stats : (Stats → Stats) → Tui F → Tui F
  update_stats f t = record t { stats = f t.stats }

  -- The new contents of stats.json.
  unfoldable pub save_stats_disk : (Stats → Text) → Tui F → Text
  save_stats_disk marshal t = marshal t.stats

  unfoldable pub reset_tui_stats : (Stats → Text) → Tui F → Tui F × Text
  unfolding zero_stats save_stats_disk
  reset_tui_stats marshal t =
      let t' = record t { stats = zero_stats } in (t', save_stats_disk marshal t')

-- The two sums of GetLocalStats beside the counters, and the uptime.
pub record LocalStats : Type 0 where
  pub counters : Stats
  pub total_tokens : ℤ
  pub total_requests : ℤ
  pub uptime_seconds : ℤ

unfoldable pub get_local_stats : ℤ → Stats → LocalStats
get_local_stats uptime st = record {
  counters = st;
  total_tokens = add64 st.in_tokens st.out_tokens;
  total_requests = st.requests;
  uptime_seconds = uptime;
}

-- The loop of formatNum from index i: the number of digits, the index, and the digits left.
unfoldable pub with_commas : ℕ → ℕ → Text → Text
with_commas total i [] = []
with_commas total i (c ∷ s) =
    let rest = with_commas total (i + 1) s in
    if ltb 0 i && nat_eq ((total - i) % 3) 0 then 44 ∷ c ∷ rest else c ∷ rest

unfoldable pub format_num : ℤ → Text
unfolding show_int with_commas
format_num n =
    let digits = show_int n in
    if leb (length digits) 3 then digits else with_commas (length digits) 0 digits

unfoldable pub blanks : ℕ → Text
blanks zero = []
blanks (suc n) = 32 ∷ blanks n

unfoldable pub pad_right : Text → ℕ → Text
unfolding blanks
pad_right s width = if leb width (length s) then s else s ++ blanks (width - length s)
