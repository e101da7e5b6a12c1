-- ===== src/Console/History.antt =====
-- Histories of calls of the terminal interface's state (tui.go), and what of them its logs and its
-- peer table are about.
use yuanyi.Base.{ℕ, List, [], ◌∷◌, ◌++◌, Option, none, some, String, if◌then◌else◌, ◌==◌}
use yuanyi.Peer.{GpuInfo}
use yuanyi.Gateway.{Stats}
use yuanyi.Strings.{Text}
use yuanyi.Console.{
  PeerRecord, Tui, log_line, add_docker_log, add_vllm_log, add_log, record_peer_info, update_stats,
  is_online,
}

pub data Activity (F : Type 0) : Type 0 where
  sys_log : Text → Text → Text → Activity F
  vllm_log docker_log : Text → Activity F
  peer_info : ℕ → GpuInfo F → Activity F
  counted : (Stats → Stats) → Activity F

abbrev pub first_some {ℓ} : {A : Type ℓ} → Option A → Option A → Option A
first_some none d = d
first_some (some a) d = some a

module _ {F : Type 0} where
  unfoldable pub step : Activity F → Tui F → Tui F
  unfolding add_docker_log add_vllm_log add_log record_peer_info update_stats
  step (sys_log now level message) t = add_log now level message t
  step (vllm_log line) t = add_vllm_log line t
  step (docker_log line) t = add_docker_log line t
  step (peer_info now info) t = record_peer_info now info t
  step (counted f) t = update_stats f t

  unfoldable pub run : List (Activity F) → Tui F → Tui F
  unfolding step
  run [] t = t
  run (a ∷ rest) t = run rest (step a t)

  -- What a call adds to each log.
  abbrev pub sys_line : Activity F → List Text
  sys_line (sys_log now level message) = log_line now level message ∷ []
  sys_line (vllm_log line) = []
  sys_line (docker_log line) = []
  sys_line (peer_info now info) = []
  sys_line (counted f) = []

  abbrev pub vllm_line : Activity F → List Text
  vllm_line (sys_log now level message) = []
  vllm_line (vllm_log line) = line ∷ []
  vllm_line (docker_log line) = []
  vllm_line (peer_info now info) = []
  vllm_line (counted f) = []

  abbrev pub docker_line : Activity F → List Text
  docker_line (sys_log now level message) = []
  docker_line (vllm_log line) = []
  docker_line (docker_log line) = line ∷ []
  docker_line (peer_info now info) = []
  docker_line (counted f) = []

  -- All lines of one kind.
  abbrev pub lines : (Activity F → List Text) → List (Activity F) → List Text
  lines kind [] = []
  lines kind (a ∷ rest) = kind a ++ lines kind rest

  -- What a call reports of a peer, and the last report of it.
  abbrev pub report_in : String → Activity F → Option (PeerRecord F)
  report_in id (sys_log now level message) = none
  report_in id (vllm_log line) = none
  report_in id (docker_log line) = none
  report_in id (peer_info now info) =
      if info.node_id == id then some (record { info = info; last_seen = now }) else none
  report_in id (counted f) = none

  abbrev pub last_report : String → List (Activity F) → Option (PeerRecord F)
  last_report id [] = none
  last_report id (a ∷ rest) = first_some (last_report id rest) (report_in id a)

  -- The report, if it is not older than 90 seconds.
  abbrev pub fresh : ℕ → Option (PeerRecord F) → Option (GpuInfo F)
  fresh now none = none
  fresh now (some r) = if is_online now r then some r.info else none
