-- ===== src/Tests/Telemetries.antt =====
-- The output of nvidia-smi and the statistics of a cluster (sys.go, server_web.go) at concrete
-- inputs.
use yuanyi.Base.{ℤ, add64, wrap64, ◌+ℤ◌, pos, true, false, ◌∷◌, ◌++◌, Option, some, ◌≡◌, refl}
use yuanyi.Strings.{Text, codes, all_chars}
use yuanyi.Telemetry.{get_gpu_telemetry}
use yuanyi.Telemetry.Counts.{count_gpus-get_gpu_telemetry}
use yuanyi.Web.{marker, count_gpus_in_summary}
use yuanyi.Tests.Sample.{integers}

abbrev card : Text
card = codes "NVIDIA RTX 4090, 24564, 812, 31, 12, 54, 98, 450, 30, 550.54"

-- Two cards of one model.
abbrev two_cards : Option Text
two_cards = some (card ++ 10 ∷ card)

abbrev read_two : Text → Option ℤ
read_two s = some (pos 2)

abbrev atoi : Text → ℤ
atoi s = pos 24564

count_model_two :
    (get_gpu_telemetry atoi atoi false two_cards (λ m. m)).summary
    ≡ codes "NVIDIA RTX 4090(24564MB) x2"
unfolding get_gpu_telemetry add64 wrap64 ◌+ℤ◌
count_model_two = refl

vram_two : (get_gpu_telemetry atoi atoi false two_cards (λ m. m)).vram_total ≡ pos 49128
unfolding get_gpu_telemetry add64 wrap64 ◌+ℤ◌
vram_two = refl

relay : (get_gpu_telemetry atoi atoi true two_cards (λ m. m)).summary ≡ codes "No GPU Detected"
unfolding get_gpu_telemetry
relay = refl

-- The form that the hub expects.
counted : count_gpus_in_summary read_two (codes "RTX4090 2" ++ marker) ≡ pos 2
unfolding count_gpus_in_summary
counted = refl

count_gpus-get_gpu_telemetry_example :
    count_gpus_in_summary read_two (get_gpu_telemetry atoi atoi false two_cards (λ m. m)).summary
    ≡ pos 0
unfolding all_chars
count_gpus-get_gpu_telemetry_example =
    count_gpus-get_gpu_telemetry atoi atoi read_two false two_cards (λ m. m) refl (λ m h. h)
