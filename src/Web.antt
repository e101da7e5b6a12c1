-- ===== src/Web.antt =====
-- computeClusterStats and countGPUsInSummary (server_web.go). `unmarshal` decodes a GPUInfo into
-- the members that have the expected type, `trunc` is int(v) of a float64, `atoi` is strconv.Atoi.
use yuanyi.Base.{
  ℕ, ℤ, pos, String, ◌+◌, not, List, [], ◌∷◌, Option, none, some, if◌then◌else◌, ltb, add64, length,
  get_elem?, get_or,
}
use yuanyi.Float.{Float64}
use yuanyi.Peer.{PeerData}
use yuanyi.Strings.{Text, text_eq, has_infix, split_spaces}

-- string(rune(0x5f35))
abbrev pub marker : Text
marker = 0x5f35 ∷ []

-- strings.TrimSuffix(s, marker)
unfoldable pub trim_marker : Text → Text
unfolding text_eq
trim_marker [] = []
trim_marker (c ∷ s) = let rest = trim_marker s in if text_eq (c ∷ s) marker then [] else c ∷ rest

unfoldable pub count_gpus_in_summary : (Text → Option ℤ) → Text → ℤ
unfolding has_infix split_spaces trim_marker
count_gpus_in_summary atoi summary =
    if not (has_infix marker summary) then pos 0 else elim (get_elem? (split_spaces summary) 1) [
      | none ↦ pos 0
      | some part ↦ get_or (atoi (trim_marker part)) (pos 0)
    ]

-- The members of the JSON object.
pub record InfoMap (F : Type 0) : Type 0 where
  pub active_requests : Option F
  pub gen_speed : Option F
  pub prefill_speed : Option F
  pub avg_ttft : Option F
  pub kv_cache_usage : Option F
  pub summary : Option Text

pub record ClusterStats (F : Type 0) : Type 0 where
  pub total_gpus : ℤ
  pub total_active_requests : ℤ
  pub total_gen_speed : F
  pub total_prefill_speed : F
  pub avg_ttft : F
  pub avg_kv_cache : F
  pub total_cluster_tokens : ℤ
  pub total_in_tokens : ℤ
  pub total_out_tokens : ℤ
  pub total_cluster_requests : ℤ
  pub ttft_count : ℕ
  pub cache_count : ℕ

module _ {F : Type 0} ⦃fl : Float64 F⦄ (unmarshal : String → Option (InfoMap F)) (trunc : F → ℤ)
    (atoi : Text → Option ℤ) where
  abbrev pub plus : Option F → F → F
  plus none total = total
  plus (some v) total = fl.add total v

  abbrev pub ttft_of : InfoMap F → Option F
  ttft_of info = elim info.avg_ttft [
    | none ↦ none
    | some v ↦ if fl.lt (fl.of_int (pos 0)) v then some v else none
  ]

  abbrev pub tally : Option F → ℕ → ℕ
  tally none n = n
  tally (some v) n = n + 1

  -- The part of the loop after the JSON is decoded.
  unfoldable pub add_info : InfoMap F → ClusterStats F → ClusterStats F
  unfolding count_gpus_in_summary
  add_info info st = record st {
    total_active_requests = elim info.active_requests [
      | none ↦ st.total_active_requests
      | some v ↦ add64 st.total_active_requests (trunc v)
    ];
    total_gen_speed = plus info.gen_speed st.total_gen_speed;
    total_prefill_speed = plus info.prefill_speed st.total_prefill_speed;
    avg_ttft = plus (ttft_of info) st.avg_ttft;
    ttft_count = tally (ttft_of info) st.ttft_count;
    avg_kv_cache = plus info.kv_cache_usage st.avg_kv_cache;
    cache_count = tally info.kv_cache_usage st.cache_count;
    total_gpus = elim info.summary [
      | none ↦ st.total_gpus
      | some s ↦ add64 st.total_gpus (count_gpus_in_summary atoi s)
    ];
  }

  -- The part before it.
  unfoldable pub add_counters : PeerData F → ClusterStats F → ClusterStats F
  add_counters p st = record st {
    total_cluster_tokens = add64 st.total_cluster_tokens p.total_tokens;
    total_in_tokens = add64 st.total_in_tokens p.in_tokens;
    total_out_tokens = add64 st.total_out_tokens p.out_tokens;
    total_cluster_requests = add64 st.total_cluster_requests p.total_requests;
  }

  unfoldable pub add_peer : PeerData F → ClusterStats F → ClusterStats F
  unfolding add_info add_counters
  add_peer p st = elim (unmarshal p.gpu_info) [
    | none ↦ add_counters p st
    | some info ↦ add_info info (add_counters p st)
  ]

  unfoldable pub add_peers : List (PeerData F) → ClusterStats F → ClusterStats F
  unfolding add_peer
  add_peers [] st = st
  add_peers (p ∷ ps) st = add_peers ps (add_peer p st)

  unfoldable pub empty_stats : ClusterStats F
  empty_stats = record {
    total_gpus = pos 0;
    total_active_requests = pos 0;
    total_gen_speed = fl.of_int (pos 0);
    total_prefill_speed = fl.of_int (pos 0);
    avg_ttft = fl.of_int (pos 0);
    avg_kv_cache = fl.of_int (pos 0);
    total_cluster_tokens = pos 0;
    total_in_tokens = pos 0;
    total_out_tokens = pos 0;
    total_cluster_requests = pos 0;
    ttft_count = 0;
    cache_count = 0;
  }

  abbrev pub mean : F → ℕ → F
  mean total n = if ltb 0 n then fl.div total (fl.of_int (pos n)) else total

  -- The answer: the number of nodes, and the totals.
  unfoldable pub compute_cluster_stats : List (PeerData F) → ℕ × ClusterStats F
  unfolding add_peers empty_stats
  compute_cluster_stats peers =
      let st = add_peers peers empty_stats in
      (
        length peers,
        record st {
          avg_ttft = mean st.avg_ttft st.ttft_count;
          avg_kv_cache = mean st.avg_kv_cache st.cache_count;
        },
      )
