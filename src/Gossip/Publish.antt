-- ===== src/Gossip/Publish.antt =====
-- gossipPublisher (p2p.go): what a node tells of itself every three seconds, and what it keeps of
-- it. `string_of` turns the text of nvidia-smi into a string. The two values that it leaves in Stats
-- for the status bar alone, peers and gpuSummary, are left out.
use yuanyi.Base.{String, ℕ, ℤ, pos, Bool, Option, none, some, List, [], ◌∷◌, if◌then◌else◌, ◌==◌}
use Prim.Native.String.{◌++◌}
use yuanyi.Float.{Float64}
use yuanyi.Peer.{GpuInfo, role_relay, no_gpu}
use yuanyi.Strings.{Text}
use yuanyi.Telemetry.{GpuTelemetry}
use yuanyi.Metrics.{VllmMetrics}
use yuanyi.Console.{LocalStats, get_local_stats, record_peer_info}
use yuanyi.Gossip.{NodeView, NodeEnv, to_hub}

-- What SysMonitor returns to the three calls.
pub record SysReadings (F : Type 0) : Type 0 where
  pub gpu_summaries : List Text
  pub metrics : VllmMetrics F
  pub telemetry : GpuTelemetry F

-- What a tick reads: the announce address with its white space trimmed, the best of the host's
-- addresses, the readings (none without a SysMonitor), and the clock.
pub record Sources (F : Type 0) : Type 0 where
  pub announce_addr : String
  pub best_addr : Option String
  pub readings : Option (SysReadings F)
  pub relay_only : Bool
  pub vllm_port : ℤ
  pub vip : String
  pub unix : ℤ
  pub uptime : ℤ

unfoldable pub own_addr : String → String → Option String → String
own_addr own_id announce best =
    if announce == ""
    then elim best [ none ↦ "" | some a ↦ a ++ "/p2p/" ++ own_id ]
    else announce ++ "/p2p/" ++ own_id

module _ {F : Type 0} ⦃fl : Float64 F⦄ where
  -- Before the readings, and without a SysMonitor.
  abbrev pub zero_telemetry : GpuTelemetry F
  zero_telemetry = record {
    summary = [];
    gpu_temp = pos 0;
    gpu_util = pos 0;
    mem_util = pos 0;
    vram_used = pos 0;
    vram_total = pos 0;
    power_draw = fl.of_int (pos 0);
    power_limit = fl.of_int (pos 0);
    fan_speed = pos 0;
    driver_version = [];
  }

  unfoldable pub own_summary : (Text → String) → Option (SysReadings F) → String
  own_summary string_of none = no_gpu
  own_summary string_of (some r) = elim (r.gpu_summaries) [ [] ↦ no_gpu | s ∷ ss ↦ string_of s ]

  unfoldable pub metrics_of : Option (SysReadings F) → VllmMetrics F
  metrics_of none = record {
    kv_cache_usage = fl.of_int (pos 0);
    active_requests = pos 0;
    prefill_speed = fl.of_int (pos 0);
    gen_speed = fl.of_int (pos 0);
    avg_ttft = fl.of_int (pos 0);
  }
  metrics_of (some r) = r.metrics

  unfoldable pub telemetry_of : Option (SysReadings F) → GpuTelemetry F
  telemetry_of none = zero_telemetry
  telemetry_of (some r) = r.telemetry

  unfoldable pub own_info : (Text → String) → String → Sources F → LocalStats → GpuInfo F
  unfolding own_addr own_summary metrics_of telemetry_of
  own_info string_of own_id src st =
      let vm = metrics_of src.readings in
      let tele = telemetry_of src.readings in
      record {
        node_id = own_id;
        addr = own_addr own_id src.announce_addr src.best_addr;
        role = if src.relay_only then role_relay else "";
        status = "idle";
        timestamp = src.unix;
        summary = own_summary string_of src.readings;
        bootstrap_addr = "http://" ++ src.vip;
        engine_id = own_id;
        vllm_port = src.vllm_port;
        kv_cache_usage = vm.kv_cache_usage;
        active_requests = vm.active_requests;
        prefill_speed = vm.prefill_speed;
        gen_speed = vm.gen_speed;
        avg_ttft = vm.avg_ttft;
        total_tokens = st.total_tokens;
        in_tokens = st.counters.in_tokens;
        out_tokens = st.counters.out_tokens;
        total_requests = st.total_requests;
        gpu_temp = tele.gpu_temp;
        gpu_util = tele.gpu_util;
        mem_util = tele.mem_util;
        vram_used = tele.vram_used;
        vram_total = tele.vram_total;
        power_draw = tele.power_draw;
        power_limit = tele.power_limit;
        fan_speed = tele.fan_speed;
        driver_version = string_of tele.driver_version;
        gpus = [];
        performance = pos 0;
      }

  -- The node's own report in its own tables.
  unfoldable pub keep_own : NodeEnv F → ℕ → String → GpuInfo F → NodeView F → NodeView F
  unfolding record_peer_info to_hub
  keep_own env now stamp info v =
      to_hub env stamp info (record v { tui = record_peer_info now info v.tui })

  -- A tick: the new state, and the message, if it can be encoded.
  unfoldable pub publish :
      (Text → String) → NodeEnv F → ℕ → String → Sources F → NodeView F → NodeView F × Option String
  unfolding own_info keep_own get_local_stats
  publish string_of env now stamp src v =
      let info = own_info string_of env.own_id src (get_local_stats src.uptime v.tui.stats) in
      (keep_own env now stamp info v, env.marshal info)
