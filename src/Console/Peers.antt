-- ===== src/Console/Peers.antt =====
-- The peers that the terminal interface (tui.go) takes for online.
use yuanyi.Base.{
  ℕ, String, List, [], ◌∷◌, Option, none, some, ◌≡◌, ◌∙◌, refl, ap, arith, eq_iff, Map, find, IsMap,
  find-put, put-IsMap,
}
use yuanyi.Gateway.{Stats}
use yuanyi.Strings.{Text}
use yuanyi.Console.{
  PeerRecord, Tui, new_tui, online, get_peers, record_peer_info, add_log, add_vllm_log,
  add_docker_log, update_stats,
}
use yuanyi.Console.History.{
  Activity, sys_log, vllm_log, docker_log, peer_info, counted, step, run, report_in, first_some,
  last_report, fresh,
}

first_some_assoc {ℓ} :
    {A : Type ℓ} (a b c : Option A) → first_some a (first_some b c) ≡ first_some (first_some a b) c
first_some_assoc none b c = refl
first_some_assoc (some x) b c = refl

first_some-none {ℓ} : {A : Type ℓ} (a : Option A) → first_some a none ≡ a
first_some-none none = refl
first_some-none (some x) = refl

module _ {F : Type 0} where
  find-online :
      (now : ℕ) (id : String) (m : Map (PeerRecord F))
      → IsMap m
      → find id (online now m) ≡ fresh now (find id m)
  unfolding online find
  find-online now id [] h = refl
  find-online now id ((j, r) ∷ m) h = ground (arith, eq_iff j id, find-online now id m h.1)

  step-IsMap : (a : Activity F) (t : Tui F) → IsMap t.peer_records → IsMap (step a t).peer_records
  unfolding step add_log add_vllm_log add_docker_log record_peer_info update_stats
  step-IsMap (sys_log now level message) t h = h
  step-IsMap (vllm_log line) t h = h
  step-IsMap (docker_log line) t h = h
  step-IsMap (peer_info now info) t h =
      put-IsMap info.node_id (record { info = info; last_seen = now }) t.peer_records h
  step-IsMap (counted f) t h = h

  find-step :
      (a : Activity F) (t : Tui F) (id : String)
      → find id (step a t).peer_records ≡ first_some (report_in id a) (find id t.peer_records)
  unfolding step add_log add_vllm_log add_docker_log record_peer_info update_stats
  find-step (sys_log now level message) t id = refl
  find-step (vllm_log line) t id = refl
  find-step (docker_log line) t id = refl
  find-step (peer_info now info) t id =
      find-put info.node_id id (record { info = info; last_seen = now }) t.peer_records
      ∙ ground arith
  find-step (counted f) t id = refl

  run-IsMap :
      (history : List (Activity F)) (t : Tui F)
      → IsMap t.peer_records
      → IsMap (run history t).peer_records
  unfolding run
  run-IsMap [] t h = h
  run-IsMap (a ∷ rest) t h = run-IsMap rest (step a t) (step-IsMap a t h)

  find-run :
      (history : List (Activity F)) (t : Tui F) (id : String)
      → find id (run history t).peer_records
        ≡ first_some (last_report id history) (find id t.peer_records)
  unfolding run
  find-run [] t id = refl
  find-run (a ∷ rest) t id =
      find-run rest (step a t) id
      ∙ ap (first_some (last_report id rest)) (find-step a t id)
      ∙ first_some_assoc (last_report id rest) (report_in id a) (find id t.peer_records)

  -- Whatever is logged, reported and counted after the start, GetPeers has under an ID exactly the
  -- last report of it, if that is not older than 90 seconds.
  pub find-get_peers :
      (unmarshal : Text → Option Stats) (content : Option Text) (history : List (Activity F))
      (now : ℕ) (id : String)
      → find id (get_peers now (run history (new_tui unmarshal content)))
        ≡ fresh now (last_report id history)
  unfolding get_peers new_tui find
  find-get_peers unmarshal content history now id =
      let start : Tui F = new_tui unmarshal content in
      find-online now id (run history start).peer_records (run-IsMap history start tt)
      ∙ ap (fresh now) (find-run history start id ∙ first_some-none (last_report id history))
