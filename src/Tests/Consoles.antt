-- ===== src/Tests/Consoles.antt =====
-- The state of the terminal interface (tui.go) at concrete inputs.
use yuanyi.Base.{◌*◌, ◌+◌, ℤ, pos, negsuc, List, [], ◌∷◌, none, some, Option, ◌≡◌, refl}
use yuanyi.Strings.{Text, codes, digits}
use yuanyi.Gateway.{Stats}
use yuanyi.Console.{new_tui, get_logs, format_num, pad_right, push_line}
use yuanyi.Console.History.{
  Activity, sys_log, vllm_log, peer_info, run, lines, sys_line, vllm_line, docker_line, fresh,
  last_report,
}
use yuanyi.Console.Logs.{last, get_logs-run}
use yuanyi.Console.Thousands.{by_thousands, format_num-by_thousands}
use yuanyi.Tests.Sample.{node}

abbrev no_stats_file : Text → Option Stats
no_stats_file s = none

-- Two reports of one peer, 100 seconds apart, and three lines.
abbrev evening : List (Activity ℤ)
evening =
    peer_info 5 (node "peer-one" "" (pos 1) (pos 0))
    ∷ sys_log (codes "20:00:00") (codes "[INFO]") (codes "up")
    ∷ vllm_log (codes "loading")
    ∷ peer_info (5 + 100 * 1000000000) (node "peer-one" "" (pos 2) (pos 0))
    ∷ vllm_log (codes "ready")
    ∷ []

newest_two : push_line 2 (codes "c") (codes "a" ∷ codes "b" ∷ []) ≡ codes "b" ∷ codes "c" ∷ []
unfolding push_line
newest_two = refl

get_logs-run_example : get_logs (run evening (new_tui no_stats_file none)) ≡ (
  last 300 (lines sys_line evening),
  last 300 (lines vllm_line evening),
  last 300 (lines docker_line evening),
)
get_logs-run_example = get_logs-run no_stats_file none evening

reported :
    fresh (7 + 100 * 1000000000) (last_report "peer-one" evening)
    ≡ some (node "peer-one" "" (pos 2) (pos 0))
reported = refl

format_num-by_thousands_example : format_num (pos 1234567) ≡ by_thousands 1234568 1234567
format_num-by_thousands_example = format_num-by_thousands 1234567

separated : format_num (pos 1234567) ≡ codes "1,234,567"
unfolding format_num digits
separated = refl

-- The sign is counted as a digit.
negative : format_num (negsuc 122) ≡ codes "-,123"
unfolding format_num digits
negative = refl

padded : pad_right (codes "ab") 4 ≡ codes "ab  "
unfolding pad_right
padded = refl
