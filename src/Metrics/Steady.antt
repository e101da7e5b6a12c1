-- ===== src/Metrics/Steady.antt =====
-- What no answer of vLLM can do (sys.go).
use yuanyi.Base.{
  ℕ, ℤ, false, List, [], ◌∷◌, Option, none, some, ◌≡◌, ◌∙◌, refl, ap, arith, ◌≤ℤ◌, Bool-cases, inl,
  inr,
}
use yuanyi.Float.{RawFloat}
use yuanyi.Gateway.{Stats}
use yuanyi.Strings.{Text, split_lines}
use yuanyi.Metrics.{
  Samples, VllmMetrics, SysMonitor, Tick, zero_float, new_sys_monitor, speed, rates, rates_since,
  record_samples, at_least, sync_tokens, sample_process, take_samples, scrape, metric_scraper,
  scan_lines, no_samples,
}

-- Neither token counter is lower, and no other counter has changed.
pub record HasGrown (old new : Stats) : Type 0 where
  pub in_grown : old.in_tokens ≤ℤ new.in_tokens
  pub out_grown : old.out_tokens ≤ℤ new.out_tokens
  pub same : new ≡ record old { in_tokens = new.in_tokens; out_tokens = new.out_tokens }

HasGrown-refl : (st : Stats) → HasGrown st st
HasGrown-refl st = record { in_grown = omega arith; out_grown = omega arith; same = refl }

HasGrown-trans : {a b c : Stats} → HasGrown a b → HasGrown b c → HasGrown a c
HasGrown-trans {a} {b} {c} g h = record {
  in_grown = omega (arith, g.in_grown, h.in_grown);
  out_grown = omega (arith, g.out_grown, h.out_grown);
  same =
      h.same
      ∙ ap (λ (x : Stats). record x { in_tokens = c.in_tokens; out_tokens = c.out_tokens }) g.same;
}

grown : (new old : ℤ) → old ≤ℤ at_least new old
grown new old = ground arith

module _ {F : Type 0} ⦃fl : RawFloat F⦄ where
  abbrev pub NonNegative : VllmMetrics F → Type 0
  NonNegative c =
      (fl.raw_lt c.prefill_speed zero_float ≡ false) × (fl.raw_lt c.gen_speed zero_float ≡ false)

  module _ (sub : F → F → F) (trunc : F → ℤ) (seconds : ℕ → ℕ → F) where
    speed_floor :
        (total last dt : F) → fl.raw_lt (speed sub trunc seconds total last dt) zero_float ≡ false
    unfolding speed
    speed_floor total last dt =
        elim (Bool-cases (fl.raw_lt (fl.raw_div (sub total last) dt) zero_float)) [
          | inl e ↦ rw e (fl.raw_irrefl zero_float)
          | inr e ↦ rw (e, e) refl
        ]

    rates-NonNegative :
        (s : Samples F) (dt : F) (m : SysMonitor F)
        → NonNegative m.current
        → NonNegative (rates sub trunc seconds s dt m)
    unfolding rates
    rates-NonNegative s dt m h = elim (Bool-cases (fl.raw_lt zero_float dt)) [
      | inl e ↦ rw e (
        speed_floor s.prompt_tokens m.last_prompt_tokens dt,
        speed_floor s.gen_tokens m.last_gen_tokens dt,
      )
      | inr e ↦ rw e h
    ]

    rates_since-NonNegative :
        (last : Option ℕ) (now : ℕ) (s : Samples F) (m : SysMonitor F)
        → NonNegative m.current
        → NonNegative (rates_since sub trunc seconds last now s m)
    unfolding rates_since
    rates_since-NonNegative none now s m h = h
    rates_since-NonNegative (some last) now s m h = rates-NonNegative s (seconds now last) m h

    record_samples-NonNegative :
        (now : ℕ) (s : Samples F) (m : SysMonitor F)
        → NonNegative m.current
        → NonNegative (record_samples sub trunc seconds now s m).current
    unfolding record_samples
    record_samples-NonNegative now s m h = rates_since-NonNegative m.last_time now s m h

    sync_tokens-HasGrown :
        (s : Samples F) (st : Stats) → HasGrown st (sync_tokens sub trunc seconds s st)
    unfolding sync_tokens
    sync_tokens-HasGrown s st = record {
      in_grown = grown (trunc s.prompt_tokens) st.in_tokens;
      out_grown = grown (trunc s.gen_tokens) st.out_tokens;
      same = refl;
    }

    module _ (parse_float : Text → F) where
      take_samples_lem :
          (now : ℕ) (body : Option Text) (m : SysMonitor F) (st : Stats)
          → NonNegative m.current
          → NonNegative (take_samples sub trunc seconds parse_float now body (m, st)).0.current
            × HasGrown st (take_samples sub trunc seconds parse_float now body (m, st)).1
      unfolding take_samples
      take_samples_lem now none m st h = (h, HasGrown-refl st)
      take_samples_lem now (some body) m st h =
          let s = scan_lines parse_float (split_lines body) no_samples in
          (record_samples-NonNegative now s m h, sync_tokens-HasGrown s st)

      steps :
          (ts : List (Tick F)) (m : SysMonitor F) (st : Stats)
          → NonNegative m.current
          → NonNegative (metric_scraper sub trunc seconds parse_float ts (m, st)).0.current
            × HasGrown st (metric_scraper sub trunc seconds parse_float ts (m, st)).1
      unfolding metric_scraper scrape sample_process
      steps [] m st h = (h, HasGrown-refl st)
      steps (t ∷ ts) m st h =
          let sampled = sample_process sub trunc seconds t m in
          let (h', g) = take_samples_lem t.now t.body sampled st h in
          let next = take_samples sub trunc seconds parse_float t.now t.body (sampled, st) in
          let (h'', g') = steps ts next.0 next.1 h' in (h'', HasGrown-trans g g')

      -- Whatever vLLM answers from tick to tick, restarts, broken texts and NaN included, no speed that
      -- a node reports is below 0 (a NaN is not), and the scraper lowers no token counter of the
      -- terminal and changes no other.
      pub metric_scraper_lem :
          (ts : List (Tick F)) (st : Stats)
          → NonNegative
              (metric_scraper sub trunc seconds parse_float ts (new_sys_monitor, st)).0.current
            × HasGrown st (metric_scraper sub trunc seconds parse_float ts (new_sys_monitor, st)).1
      unfolding new_sys_monitor
      metric_scraper_lem ts st =
          steps ts new_sys_monitor st (fl.raw_irrefl zero_float, fl.raw_irrefl zero_float)
