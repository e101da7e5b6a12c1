-- ===== src/Status.antt =====
-- The status routes of the web console (web.go): GET /api/node_info, /api/local_stats, /hub/api/
-- and /api/stats, and POST /api/stats/reset. The process's own load is left out of the local
-- counters. `unmarshal` is encoding/json at the leaderboard.
use yuanyi.Base.{
  ℕ, ◌+◌, ℤ, pos, Bool, ◌||◌, not, List, [], ◌∷◌, ◌++◌, Option, none, some, is_empty, if◌then◌else◌,
  nat_eq, ltb, add64, length,
}
use yuanyi.Float.{Float64}
use yuanyi.Peer.{GpuInfo}
use yuanyi.Strings.{Text, codes, text_eq, cons_first}
use yuanyi.Gateway.{Stats}
use yuanyi.Metrics.{at_least}
use yuanyi.Console.{Tui, LocalStats, add_log, reset_tui_stats}

-- strings.Split(s, sep) for one character.
unfoldable pub split_at : ℕ → Text → List Text
split_at sep [] = [] ∷ []
split_at sep (c ∷ s) =
    let rest = split_at sep s in if nat_eq c sep then [] ∷ rest else cons_first c rest

abbrev pub is_host_key : Text → Bool
is_host_key p = text_eq p (codes "ip4") || text_eq p (codes "dns4") || text_eq p (codes "dns")

-- The part behind the first key that has one.
unfoldable pub host_after_key : List Text → Text
unfolding text_eq
host_after_key [] = codes "127.0.0.1"
host_after_key (p ∷ []) = codes "127.0.0.1"
host_after_key (p ∷ q ∷ parts) =
    let rest = host_after_key (q ∷ parts) in if is_host_key p then q else rest

unfoldable pub server_host : Text → Text
unfolding split_at host_after_key
server_host address = host_after_key (split_at 47 address)

-- An entry of the hub's leaderboard.
pub record BoardEntry : Type 0 where
  pub peer_id : Text
  pub total_requests : ℤ
  pub total_tokens : ℤ
  pub in_tokens : ℤ
  pub out_tokens : ℤ

-- The larger of the two counters, four times.
unfoldable pub correct_by : BoardEntry → LocalStats → LocalStats
correct_by item st = record st {
  counters = record st.counters {
    in_tokens = at_least item.in_tokens st.counters.in_tokens;
    out_tokens = at_least item.out_tokens st.counters.out_tokens;
  };
  total_tokens = at_least item.total_tokens st.total_tokens;
  total_requests = at_least item.total_requests st.total_requests;
}

-- The first entry of the node.
unfoldable pub correct_from : Text → List BoardEntry → LocalStats → LocalStats
unfolding text_eq correct_by
correct_from local_id [] st = st
correct_from local_id (item ∷ board) st =
    let rest = correct_from local_id board st in
    if text_eq item.peer_id local_id then correct_by item st else rest

-- The local counters: without an ID or an answer of the hub they stay.
unfoldable pub local_stats :
    (Text → Option (List BoardEntry)) → Text → Option Text → LocalStats → LocalStats
unfolding correct_from
local_stats unmarshal local_id none st = st
local_stats unmarshal local_id (some body) st =
    if is_empty local_id
    then st
    else elim (unmarshal body) [ none ↦ st | some board ↦ correct_from local_id board st ]

-- What the route of the hub's API answers: what the own mux does, an error, or what a hub sent.
pub data HubReply (A : Type 0) : Type 0 where
  by_own_mux : A → HubReply A
  not_ready bad_gateway : HubReply A
  relayed : Text → HubReply A

abbrev pub with_query : Text → Text → Text
with_query path query = if is_empty query then path else path ++ 63 ∷ query

-- `mux` is there on a hub, `fetch` on a node with a network.
unfoldable pub hub_api_route :
    {A : Type 0} → Option A → Option (Text → Option Text) → Text → Text → HubReply A
hub_api_route (some answer) fetch path query = by_own_mux answer
hub_api_route none none path query = not_ready
hub_api_route none (some fetch) path query = elim (fetch (with_query path query)) [
  | none ↦ bad_gateway
  | some body ↦ relayed body
]

pub record ClusterTotals (F : Type 0) : Type 0 where
  pub total_nodes : ℕ
  pub total_active_requests : ℤ
  pub total_gen_speed : F
  pub total_prefill_speed : F
  pub avg_ttft : F
  pub avg_kv_cache : F
  pub total_tokens : ℤ
  pub in_tokens : ℤ
  pub out_tokens : ℤ
  pub total_requests : ℤ
  pub total_power_draw : F
  pub total_power_limit : F

module _ {F : Type 0} ⦃fl : Float64 F⦄ where
  unfoldable pub no_totals : ClusterTotals F
  no_totals = record {
    total_nodes = 0;
    total_active_requests = pos 0;
    total_gen_speed = fl.of_int (pos 0);
    total_prefill_speed = fl.of_int (pos 0);
    avg_ttft = fl.of_int (pos 0);
    avg_kv_cache = fl.of_int (pos 0);
    total_tokens = pos 0;
    in_tokens = pos 0;
    out_tokens = pos 0;
    total_requests = pos 0;
    total_power_draw = fl.of_int (pos 0);
    total_power_limit = fl.of_int (pos 0);
  }

  -- A peer with a measured time to the first token.
  abbrev pub is_timed : GpuInfo F → Bool
  is_timed info = fl.lt (fl.of_int (pos 0)) info.avg_ttft

  unfoldable pub add_report : GpuInfo F → ClusterTotals F → ClusterTotals F
  add_report info s = record s {
    total_active_requests = add64 s.total_active_requests info.active_requests;
    total_gen_speed = fl.add s.total_gen_speed info.gen_speed;
    total_prefill_speed = fl.add s.total_prefill_speed info.prefill_speed;
    avg_ttft = if is_timed info then fl.add s.avg_ttft info.avg_ttft else s.avg_ttft;
    avg_kv_cache = fl.add s.avg_kv_cache info.kv_cache_usage;
    total_tokens = add64 s.total_tokens info.total_tokens;
    in_tokens = add64 s.in_tokens info.in_tokens;
    out_tokens = add64 s.out_tokens info.out_tokens;
    total_requests = add64 s.total_requests info.total_requests;
    total_power_draw = fl.add s.total_power_draw info.power_draw;
    total_power_limit = fl.add s.total_power_limit info.power_limit;
  }

  unfoldable pub add_reports : List (GpuInfo F) → ClusterTotals F → ClusterTotals F
  unfolding add_report
  add_reports [] s = s
  add_reports (info ∷ peers) s = add_reports peers (add_report info s)

  unfoldable pub timed_peers : List (GpuInfo F) → ℕ
  timed_peers [] = 0
  timed_peers (info ∷ peers) =
      let rest = timed_peers peers in if is_timed info then 1 + rest else rest

  abbrev pub mean_of : F → ℕ → F
  mean_of sum n = if ltb 0 n then fl.div sum (fl.of_int (pos n)) else sum

  -- The peers in the order in which the map is ranged over.
  unfoldable pub cluster_totals : List (GpuInfo F) → ClusterTotals F
  unfolding add_reports timed_peers no_totals
  cluster_totals peers =
      let s = add_reports peers no_totals in
      record s {
        total_nodes = length peers;
        avg_ttft = mean_of s.avg_ttft (timed_peers peers);
        avg_kv_cache = mean_of s.avg_kv_cache (length peers);
      }

-- POST /api/stats/reset: the status, the terminal, and the new stats.json, if one is written.
unfoldable pub stats_reset :
    {F : Type 0} → (Stats → Text) → Text → Text → Tui F → ℕ × Tui F × Option Text
unfolding reset_tui_stats add_log
stats_reset marshal clock method t =
    if not (text_eq method (codes "POST"))
    then (405, t, none)
    else let (t', saved) = reset_tui_stats marshal t in
      (
        200,
        add_log clock (codes "[INFO]") (codes "本機累計統計已歸零 (POST /api/stats/reset)") t',
        some saved,
      )
