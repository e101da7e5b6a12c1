-- ===== src/Console/Screen.antt =====
-- dashboardModel (tui.go): what messages do to the terminal's screen. A list of peers of type `L`
-- and a viewport of type `V` are components of the library bubbles: what the code calls of them is
-- the record `Widgets`. The numbers of columns and rows are not negative.
use yuanyi.Base.{
  ℕ, ◌+◌, ◌-◌, ◌*◌, ◌/◌, ◌%◌, ◌<◌, String, Bool, true, false, ◌&&◌, ◌||◌, not, List, [], ◌∷◌,
  Option, none, some, if◌then◌else◌, nat_eq, ltb, select, values, ◌≡◌, arith,
}
use yuanyi.Strings.{Text, codes, text_eq}
use yuanyi.Console.{Tui, PeerRecord, is_online, get_logs}

-- A message of the program: a new window size, a tick, a key by its name, or anything else.
pub data Message : Type 0 where
  window_size : ℕ → ℕ → Message
  tick : Message
  key : Text → Message
  another : Message

-- What Update returns besides the model.
pub data Effect : Type 0 where
  nothing schedule_tick quit forwarded : Effect

pub record Widgets (F L V : Type 0) : Type 0 where
  pub list_size : ℕ → ℕ → L → L
  pub set_items : List (PeerRecord F) → L → L
  pub is_filtering : L → Bool
  pub update_list : Message → L → L
  pub new_viewport : ℕ → ℕ → V
  pub resize : ℕ → ℕ → V → V
  pub set_content : List Text → V → V
  pub goto_bottom : V → V
  pub update_viewport : Message → V → V

pub record DashboardModel (L V : Type 0) : Type 0 where
  pub width : ℕ
  pub height : ℕ
  pub ready : Bool
  pub current_tab : ℕ
  pub auto_scroll : Bool
  pub peer_list : L
  pub log_view : V
  pub vllm_view : V
  pub docker_view : V
  pub quitting : Bool

-- len(m.tabs)
abbrev pub tab_count : ℕ
tab_count = 4

-- `if n < low { n = low }`, where n may be a difference below zero.
abbrev pub at_minimum : ℕ → ℕ → ℕ
at_minimum low n = if ltb n low then low else n

unfoldable pub content_height : ℕ → ℕ
content_height height = at_minimum 3 (height - 2)

unfoldable pub new_dashboard_model : {L V : Type 0} → L → V → DashboardModel L V
new_dashboard_model list view = record {
  width = 0;
  height = 0;
  ready = false;
  current_tab = 0;
  auto_scroll = true;
  peer_list = list;
  log_view = view;
  vllm_view = view;
  docker_view = view;
  quitting = false;
}

-- The records of the last 90 seconds by NodeID; the others, which it deletes, no later call shows.
unfoldable pub list_online_peers :
    {F : Type 0} → (List (PeerRecord F) → List (PeerRecord F)) → ℕ → Tui F → List (PeerRecord F)
list_online_peers sort_by_id now t = sort_by_id (select (is_online now) (values t.peer_records))

-- `highlight` is renderVLLMLog, `sort_by_id` is sort.Slice by NodeID, `now` the time of the message.
module _ {F L V : Type 0} (ui : Widgets F L V) (highlight : List Text → List Text)
    (sort_by_id : List (PeerRecord F) → List (PeerRecord F)) (now : ℕ) where
  -- A search text is being typed, which takes all keys.
  unfoldable pub filtering : DashboardModel L V → Bool
  filtering m = nat_eq m.current_tab 0 && ui.is_filtering m.peer_list

  abbrev pub sized : Bool → ℕ → ℕ → V → V
  sized ready w h view = if ready then ui.resize w h view else ui.new_viewport w h

  unfoldable pub sync_sizes : DashboardModel L V → DashboardModel L V
  unfolding content_height
  sync_sizes m =
      let inner_w = at_minimum 10 (m.width - 4) in
      let inner_h = at_minimum 1 (content_height m.height - 2) in
      let list_w = at_minimum 10 (m.width * 3 / 5 - 4) in
      record m {
        ready = true;
        log_view = sized m.ready inner_w inner_h m.log_view;
        vllm_view = sized m.ready inner_w inner_h m.vllm_view;
        docker_view = sized m.ready inner_w inner_h m.docker_view;
        peer_list = ui.list_size list_w inner_h m.peer_list;
      }

  unfoldable pub sync_peer_list : Tui F → DashboardModel L V → DashboardModel L V
  unfolding list_online_peers
  sync_peer_list t m = record m {
    peer_list = ui.set_items (list_online_peers sort_by_id now t) m.peer_list;
  }

  abbrev pub filled : Bool → List Text → V → V
  filled scroll lines view =
      let v = ui.set_content lines view in if scroll then ui.goto_bottom v else v

  unfoldable pub sync_logs : Tui F → DashboardModel L V → DashboardModel L V
  unfolding get_logs
  sync_logs t m =
      let (sys, vllm, docker) = get_logs t in
      record m {
        log_view = filled m.auto_scroll sys m.log_view;
        vllm_view = filled m.auto_scroll (highlight vllm) m.vllm_view;
        docker_view = filled m.auto_scroll docker m.docker_view;
      }

  unfoldable pub sync_all : Tui F → DashboardModel L V → DashboardModel L V
  unfolding sync_peer_list sync_logs
  sync_all t m = sync_logs t (sync_peer_list t m)

  -- A message that no global key takes goes to the widget of the current tab.
  unfoldable pub forward_to_tab : Message → DashboardModel L V → DashboardModel L V
  forward_to_tab msg m =
      if nat_eq m.current_tab 0
      then record m { peer_list = ui.update_list msg m.peer_list }
      else if nat_eq m.current_tab 1
      then record m { log_view = ui.update_viewport msg m.log_view }
      else if nat_eq m.current_tab 2
      then record m { vllm_view = ui.update_viewport msg m.vllm_view }
      else if nat_eq m.current_tab 3
      then record m { docker_view = ui.update_viewport msg m.docker_view }
      else m

  abbrev pub is_key : List String → Text → Bool
  is_key [] name = false
  is_key (s ∷ rest) name = text_eq (codes s) name || is_key rest name

  -- The tab of one of the keys 1 to 4.
  unfoldable pub tab_of : Text → Option ℕ
  unfolding text_eq
  tab_of name =
      if is_key ("1" ∷ []) name
      then some 0
      else if is_key ("2" ∷ []) name
      then some 1
      else if is_key ("3" ∷ []) name
      then some 2
      else if is_key ("4" ∷ []) name
      then some 3
      else none

  unfoldable pub other_keys : Text → DashboardModel L V → DashboardModel L V × Effect
  unfolding text_eq tab_of forward_to_tab
  other_keys name m = elim (tab_of name) [
    | some i ↦ (if ltb i tab_count then record m { current_tab = i } else m, nothing)
    | none ↦
        if is_key ("tab" ∷ []) name
        then (record m { current_tab = (m.current_tab + 1) % tab_count }, nothing)
        else if is_key ("shift+tab" ∷ []) name
        then (record m { current_tab = (m.current_tab + tab_count - 1) % tab_count }, nothing)
        else (forward_to_tab (key name) m, forwarded)
  ]

  unfoldable pub press : Tui F → Text → DashboardModel L V → DashboardModel L V × Effect
  unfolding text_eq filtering sync_all forward_to_tab other_keys
  press t name m =
      if filtering m
      then (forward_to_tab (key name) m, forwarded)
      else if is_key ("q" ∷ "Q" ∷ "ctrl+c" ∷ []) name
      then (record m { quitting = true }, quit)
      else if is_key ("a" ∷ "A" ∷ []) name
      then (record m { auto_scroll = not m.auto_scroll }, nothing)
      else if is_key ("r" ∷ "R" ∷ []) name
      then (sync_all t m, nothing)
      else other_keys name m

  -- Update; on `quit` the counters go to stats.json first (save_stats_disk).
  unfoldable pub update_dashboard :
      Tui F → Message → DashboardModel L V → DashboardModel L V × Effect
  unfolding sync_sizes sync_all forward_to_tab press
  update_dashboard t (window_size w h) m =
      (sync_all t (sync_sizes (record m { width = w; height = h })), nothing)
  update_dashboard t tick m = (if m.ready then sync_all t m else m, schedule_tick)
  update_dashboard t (key name) m = press t name m
  update_dashboard t another m = (forward_to_tab another m, forwarded)

  -- One of the tabs is shown.
  abbrev pub IsOnTab : DashboardModel L V → Type 0
  IsOnTab m = m.current_tab < tab_count

  current_tab-forward_to_tab :
      (msg : Message) (m : DashboardModel L V) → (forward_to_tab msg m).current_tab ≡ m.current_tab
  unfolding forward_to_tab
  current_tab-forward_to_tab msg m = ground arith

  other_keys-IsOnTab :
      (name : Text) (m : DashboardModel L V) → IsOnTab m → IsOnTab (other_keys name m).0
  unfolding other_keys
  other_keys-IsOnTab name m on = ground (arith, current_tab-forward_to_tab (key name) m)

  press-IsOnTab :
      (t : Tui F) (name : Text) (m : DashboardModel L V) → IsOnTab m → IsOnTab (press t name m).0
  unfolding press sync_all sync_peer_list sync_logs
  press-IsOnTab t name m on =
      ground (arith, current_tab-forward_to_tab (key name) m, other_keys-IsOnTab name m on)

  pub update_dashboard-IsOnTab :
      (t : Tui F) (msg : Message) (m : DashboardModel L V)
      → IsOnTab m
      → IsOnTab (update_dashboard t msg m).0
  unfolding update_dashboard sync_all sync_sizes sync_peer_list sync_logs
  update_dashboard-IsOnTab t (window_size w h) m on = on
  update_dashboard-IsOnTab t tick m on = ground arith
  update_dashboard-IsOnTab t (key name) m on = press-IsOnTab t name m on
  update_dashboard-IsOnTab t another m on = ground (arith, current_tab-forward_to_tab another m)
