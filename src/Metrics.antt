-- ===== src/Metrics.antt =====
-- metricScraper (sys.go): what vLLM reports to Prometheus, the speeds made of it, and the counters
-- of the terminal that follow it. `parse_float` is the value of strconv.ParseFloat, whose error is
-- dropped; `sub` is the difference of two floats, `trunc` the conversion to an int, `seconds` the
-- time between two instants.
pub mod Steady
use yuanyi.Base.{
  ℕ, ℤ, pos, Bool, true, false, ◌||◌, List, [], ◌∷◌, Option, none, some, get_or, if◌then◌else◌,
  nat_eq, ltb_ℤ,
}
use yuanyi.Float.{RawFloat}
use yuanyi.Gateway.{Stats}
use yuanyi.Strings.{Text, codes, has_prefix, strip_prefix, trim_space, split_lines, cut_at}

-- The sums over the lines.
pub record Samples (F : Type 0) : Type 0 where
  pub kv_cache : F
  pub requests : F
  pub prompt_tokens : F
  pub gen_tokens : F
  pub ttft_sum : F
  pub ttft_count : F

pub record VllmMetrics (F : Type 0) : Type 0 where
  pub kv_cache_usage : F
  pub active_requests : ℤ
  pub prefill_speed : F
  pub gen_speed : F
  pub avg_ttft : F

-- `last_time` is none for the zero time.
pub record SysMonitor (F : Type 0) : Type 0 where
  pub last_time : Option ℕ
  pub last_prompt_tokens : F
  pub last_gen_tokens : F
  pub last_ttft_sum : F
  pub last_ttft_count : F
  pub current : VllmMetrics F
  pub cpu_percent : F
  pub mem_rss : ℕ

-- One tick: what gopsutil and the GET return, if they do.
pub record Tick (F : Type 0) : Type 0 where
  pub cpu : Option F
  pub mem : Option ℕ
  pub body : Option Text
  pub now : ℕ

abbrev pub is_prompt_key : Text → Bool
is_prompt_key k =
    has_prefix (codes "vllm:request_prompt_tokens_total") k
    || has_prefix (codes "vllm:prompt_tokens_total") k
    || has_prefix (codes "vllm:num_prompt_tokens") k

abbrev pub is_gen_key : Text → Bool
is_gen_key k =
    has_prefix (codes "vllm:request_generation_tokens_total") k
    || has_prefix (codes "vllm:generation_tokens_total") k
    || has_prefix (codes "vllm:num_generation_tokens") k

abbrev pub at_least : ℤ → ℤ → ℤ
at_least new old = if ltb_ℤ old new then new else old

module _ {F : Type 0} ⦃fl : RawFloat F⦄ where
  abbrev pub zero_float : F
  zero_float = fl.raw_int (pos 0)

  unfoldable pub no_samples : Samples F
  no_samples = record {
    kv_cache = zero_float;
    requests = zero_float;
    prompt_tokens = zero_float;
    gen_tokens = zero_float;
    ttft_sum = zero_float;
    ttft_count = zero_float;
  }

  unfoldable pub new_sys_monitor : SysMonitor F
  new_sys_monitor = record {
    last_time = none;
    last_prompt_tokens = zero_float;
    last_gen_tokens = zero_float;
    last_ttft_sum = zero_float;
    last_ttft_count = zero_float;
    current = record {
      kv_cache_usage = zero_float;
      active_requests = pos 0;
      prefill_speed = zero_float;
      gen_speed = zero_float;
      avg_ttft = zero_float;
    };
    cpu_percent = zero_float;
    mem_rss = 0;
  }

  unfoldable pub add_sample : Text → F → Samples F → Samples F
  unfolding strip_prefix
  add_sample k val s =
      if has_prefix (codes "vllm:gpu_cache_usage_perc") k
      then record s { kv_cache = if fl.raw_lt s.kv_cache val then val else s.kv_cache }
      else if has_prefix (codes "vllm:num_requests_running") k
      then record s { requests = fl.raw_add s.requests val }
      else if is_prompt_key k
      then record s { prompt_tokens = fl.raw_add s.prompt_tokens val }
      else if is_gen_key k
      then record s { gen_tokens = fl.raw_add s.gen_tokens val }
      else if has_prefix (codes "vllm:time_to_first_token_seconds_sum") k
      then record s { ttft_sum = fl.raw_add s.ttft_sum val }
      else if has_prefix (codes "vllm:time_to_first_token_seconds_count") k
      then record s { ttft_count = fl.raw_add s.ttft_count val }
      else s

  module _ (parse_float : Text → F) where
    unfoldable pub scan_line : Text → Samples F → Samples F
    unfolding strip_prefix cut_at trim_space add_sample
    scan_line line s = if has_prefix (codes "#") line then s else elim (cut_at 32 line) [
      | none ↦ s
      | some (key, value) ↦ add_sample key (parse_float (trim_space value)) s
    ]

    unfoldable pub scan_lines : List Text → Samples F → Samples F
    unfolding scan_line
    scan_lines [] s = s
    scan_lines (l ∷ ls) s = scan_lines ls (scan_line l s)

  module _ (sub : F → F → F) (trunc : F → ℤ) (seconds : ℕ → ℕ → F) where
    -- A rate per second, with 0 for a counter that was reset.
    unfoldable pub speed : F → F → F → F
    speed total last dt =
        let rate = fl.raw_div (sub total last) dt in
        if fl.raw_lt rate zero_float then zero_float else rate

    unfoldable pub mean_ttft : F → F → F
    mean_ttft diff_sum diff_count =
        if fl.raw_lt zero_float diff_count then fl.raw_div diff_sum diff_count else zero_float

    -- The speeds since an earlier scrape.
    unfoldable pub rates : Samples F → F → SysMonitor F → VllmMetrics F
    unfolding speed mean_ttft
    rates s dt m =
        if fl.raw_lt zero_float dt
        then record m.current {
          prefill_speed = speed s.prompt_tokens m.last_prompt_tokens dt;
          gen_speed = speed s.gen_tokens m.last_gen_tokens dt;
          avg_ttft =
              mean_ttft (sub s.ttft_sum m.last_ttft_sum) (sub s.ttft_count m.last_ttft_count);
        }
        else m.current

    unfoldable pub rates_since : Option ℕ → ℕ → Samples F → SysMonitor F → VllmMetrics F
    unfolding rates
    rates_since none now s m = m.current
    rates_since (some last) now s m = rates s (seconds now last) m

    unfoldable pub record_samples : ℕ → Samples F → SysMonitor F → SysMonitor F
    unfolding rates_since
    record_samples now s m = record m {
      last_time = some now;
      last_prompt_tokens = s.prompt_tokens;
      last_gen_tokens = s.gen_tokens;
      last_ttft_sum = s.ttft_sum;
      last_ttft_count = s.ttft_count;
      current = record (rates_since m.last_time now s m) {
        kv_cache_usage = fl.raw_mul s.kv_cache (fl.raw_int (pos 100));
        active_requests = trunc s.requests;
      };
    }

    -- The closure passed to UpdateStats.
    unfoldable pub sync_tokens : Samples F → Stats → Stats
    sync_tokens s st = record st {
      in_tokens = at_least (trunc s.prompt_tokens) st.in_tokens;
      out_tokens = at_least (trunc s.gen_tokens) st.out_tokens;
    }

    unfoldable pub sample_process : Tick F → SysMonitor F → SysMonitor F
    sample_process t m = record m {
      cpu_percent = get_or t.cpu m.cpu_percent;
      mem_rss = get_or t.mem m.mem_rss;
    }

    module _ (parse_float : Text → F) where
      unfoldable pub take_samples : ℕ → Option Text → SysMonitor F × Stats → SysMonitor F × Stats
      unfolding scan_lines no_samples split_lines record_samples sync_tokens
      take_samples now none (m, st) = (m, st)
      take_samples now (some body) (m, st) =
          let s = scan_lines parse_float (split_lines body) no_samples in
          (record_samples now s m, sync_tokens s st)

      unfoldable pub scrape : Tick F → SysMonitor F × Stats → SysMonitor F × Stats
      unfolding sample_process take_samples
      scrape t (m, st) = take_samples t.now t.body (sample_process t m, st)

      unfoldable pub metric_scraper : List (Tick F) → SysMonitor F × Stats → SysMonitor F × Stats
      unfolding scrape
      metric_scraper [] s = s
      metric_scraper (t ∷ ts) s = metric_scraper ts (scrape t s)
