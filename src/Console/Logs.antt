-- ===== src/Console/Logs.antt =====
-- The logs of the terminal interface (tui.go) keep the newest lines.
use mathlib.Core.List.{append_assoc, append-nil}
use yuanyi.Base.{
  ℕ, zero, suc, ◌+◌, ◌-◌, ◌≤◌, List, [], ◌∷◌, ◌++◌, Option, ◌≡◌, ◌∙◌, refl, sym, ap, arith,
  if◌then◌else◌, ltb, length, drop, length-append, Bool-cases, inl, inr,
}
use yuanyi.Gateway.{Stats}
use yuanyi.Strings.{Text}
use yuanyi.Console.{
  Tui, push_line, log_line, new_tui, add_docker_log, add_vllm_log, add_log, record_peer_info,
  update_stats, get_logs,
}
use yuanyi.Console.History.{
  Activity, sys_log, vllm_log, docker_log, peer_info, counted, step, run, sys_line, vllm_line,
  docker_line, lines,
}

module _ {ℓ} {A : Type ℓ} where
  -- At most the last n elements.
  abbrev pub last : ℕ → List A → List A
  last n xs = drop (length xs - n) xs

  drop-append : (k : ℕ) (xs ys : List A) → k ≤ length xs → drop k (xs ++ ys) ≡ drop k xs ++ ys
  drop-append zero xs ys h = refl
  drop-append (suc k) [] ys h = absurd (omega arith)
  drop-append (suc k) (x ∷ xs) ys h = drop-append k xs ys (omega arith)

  drop_nil : (k : ℕ) → drop {A = A} k [] ≡ []
  drop_nil zero = refl
  drop_nil (suc k) = refl

  drop-drop : (k m : ℕ) (xs : List A) → drop k (drop m xs) ≡ drop (m + k) xs
  drop-drop k zero xs = ap (λ n. drop n xs) (omega arith)
  drop-drop k (suc m) [] = drop_nil k ∙ sym (drop_nil (suc m + k))
  drop-drop k (suc m) (x ∷ xs) =
      drop-drop k m xs
      ∙ ap (λ n. drop n (x ∷ xs)) (let e : suc (m + k) ≡ suc m + k = omega arith in e)

  length-drop : (k : ℕ) (xs : List A) → length (drop k xs) ≡ length xs - k
  length-drop zero xs = omega arith
  length-drop (suc k) [] = omega arith
  length-drop (suc k) (x ∷ xs) = omega (arith, length-drop k xs)

  -- Dropping the oldest lines first and again after a new line is dropping them at the end.
  last-snoc : (n : ℕ) (xs : List A) (x : A) → last n (last n xs ++ x ∷ []) ≡ last n (xs ++ x ∷ [])
  last-snoc n xs x =
      ap (last n) (sym (drop-append (length xs - n) xs (x ∷ []) (omega arith)))
      ∙ drop-drop (length (drop (length xs - n) (xs ++ x ∷ [])) - n) (length xs - n) (xs ++ x ∷ [])
      ∙ ap (λ k. drop k (xs ++ x ∷ []))
          (omega (arith, length-append xs (x ∷ []), length-drop (length xs - n) (xs ++ x ∷ [])))

push_line-last :
    (n : ℕ) (line : Text) (xs : List Text) → push_line n line (last n xs) ≡ last n (xs ++ line ∷ [])
unfolding push_line
push_line-last n line xs =
    let more = last n xs ++ line ∷ [] in
    let whole : (if ltb n (length more) then drop (length more - n) more else more) ≡ last n more =
      elim (Bool-cases (ltb n (length more))) [
        | inl e ↦ rw e refl
        | inr e ↦ rw e (ap (λ k. drop k more) (let z : 0 ≡ length more - n = ground arith in z))
      ] in
    whole ∙ last-snoc n xs line

-- The logs show the last lines of three lists.
record Shows {F : Type 0} (t : Tui F) (sys vllm docker : List Text) : Type 0 where
  limit : t.max_log_line ≡ 300
  sys_log_lines : t.log_lines ≡ last 300 sys
  vllm_lines : t.vllm_log_lines ≡ last 300 vllm
  docker_lines : t.docker_log_lines ≡ last 300 docker

module _ {F : Type 0} where
  step-Shows :
      (a : Activity F) {t : Tui F} (sys vllm docker : List Text)
      → Shows t sys vllm docker
      → Shows (step a t) (sys ++ sys_line a) (vllm ++ vllm_line a) (docker ++ docker_line a)
  unfolding step add_log add_vllm_log add_docker_log record_peer_info update_stats
  step-Shows (sys_log now level message) sys vllm docker h =
      rw (append-nil vllm, append-nil docker)
        (record {
          limit = h.limit;
          sys_log_lines =
              rw (h.limit, h.sys_log_lines) (push_line-last 300 (log_line now level message) sys);
          vllm_lines = h.vllm_lines;
          docker_lines = h.docker_lines;
        })
  step-Shows (vllm_log line) sys vllm docker h =
      rw (append-nil sys, append-nil docker)
        (record {
          limit = h.limit;
          sys_log_lines = h.sys_log_lines;
          vllm_lines = rw (h.limit, h.vllm_lines) (push_line-last 300 line vllm);
          docker_lines = h.docker_lines;
        })
  step-Shows (docker_log line) sys vllm docker h =
      rw (append-nil sys, append-nil vllm)
        (record {
          limit = h.limit;
          sys_log_lines = h.sys_log_lines;
          vllm_lines = h.vllm_lines;
          docker_lines = rw (h.limit, h.docker_lines) (push_line-last 300 line docker);
        })
  step-Shows (peer_info now info) sys vllm docker h =
      rw (append-nil sys, append-nil vllm, append-nil docker)
        (record {
          limit = h.limit;
          sys_log_lines = h.sys_log_lines;
          vllm_lines = h.vllm_lines;
          docker_lines = h.docker_lines;
        })
  step-Shows (counted f) sys vllm docker h =
      rw (append-nil sys, append-nil vllm, append-nil docker)
        (record {
          limit = h.limit;
          sys_log_lines = h.sys_log_lines;
          vllm_lines = h.vllm_lines;
          docker_lines = h.docker_lines;
        })

  run-Shows :
      (history : List (Activity F)) {t : Tui F} (sys vllm docker : List Text)
      → Shows t sys vllm docker
      → Shows
          (run history t)
          (sys ++ lines sys_line history)
          (vllm ++ lines vllm_line history)
          (docker ++ lines docker_line history)
  unfolding run
  run-Shows [] sys vllm docker h = rw (append-nil sys, append-nil vllm, append-nil docker) h
  run-Shows (a ∷ rest) sys vllm docker h =
      rw
        (
          ← append_assoc sys (sys_line a) (lines sys_line rest),
          ← append_assoc vllm (vllm_line a) (lines vllm_line rest),
          ← append_assoc docker (docker_line a) (lines docker_line rest),
        )
        (run-Shows rest (sys ++ sys_line a) (vllm ++ vllm_line a) (docker ++ docker_line a)
          (step-Shows a sys vllm docker h))

  -- Whatever is logged, reported and counted after the start, each of the three logs that GetLogs
  -- returns is the last 300 lines of its kind, in the order in which they were logged.
  pub get_logs-run :
      (unmarshal : Text → Option Stats) (content : Option Text) (history : List (Activity F))
      → get_logs (run history (new_tui unmarshal content)) ≡ (
        last 300 (lines sys_line history),
        last 300 (lines vllm_line history),
        last 300 (lines docker_line history),
      )
  unfolding get_logs new_tui
  get_logs-run unmarshal content history =
      let h : Shows (run history (new_tui unmarshal content)) (lines sys_line history)
          (lines vllm_line history) (lines docker_line history) =
        run-Shows history [] [] []
          (record { limit = refl; sys_log_lines = refl; vllm_lines = refl; docker_lines = refl }) in
      rw (h.sys_log_lines, h.vllm_lines, h.docker_lines) refl
