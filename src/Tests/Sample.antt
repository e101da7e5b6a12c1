-- ===== src/Tests/Sample.antt =====
-- Concrete values for the parameters: integers in the place of floats, the exact sum as the
-- engine's, a JSON encoder that never fails, and small caches and tables.
use yuanyi.Base.{
  ℕ, ◌<◌, ◌≤◌, ◌^◌, ◌||◌, not, ◌≤ℤ◌, String, ◌+◌, ◌*◌, ◌/◌, ℤ, pos, ◌+ℤ◌, ltb_ℤ, eq_ℤ, Bool, true,
  false, Option, some, [], ◌≡◌, refl, arith, pos_part, neg_part, sub_ℕ,
}
use yuanyi.Float.{Float64}
use yuanyi.Peer.{GpuInfo}
use yuanyi.Cache.{PeerCache, new_peer_cache}
use yuanyi.Db.{SqlSum, Db}
use yuanyi.Db.Batch.{Statement}

abbrev pub product : ℤ → ℤ → ℤ
product a b =
    sub_ℕ (pos_part a * pos_part b + neg_part a * neg_part b)
      (pos_part a * neg_part b + neg_part a * pos_part b)

abbrev pub quotient : ℤ → ℤ → ℤ
quotient a b = sub_ℕ (pos_part a / pos_part b) (neg_part a / pos_part b)

pub sum_mono : (a b : ℤ) → ltb_ℤ b (pos 0) ≡ false → ltb_ℤ (a +ℤ b) a ≡ false
unfolding ◌+ℤ◌
sum_mono a b h = ground arith

pub less_irrefl : (a : ℤ) → ltb_ℤ a a ≡ false
less_irrefl a = ground arith

pub less_trans : (a b c : ℤ) → ltb_ℤ a b ≡ true → ltb_ℤ b c ≡ true → ltb_ℤ a c ≡ true
less_trans a b c h k = ground arith

pub less_split : (a b c : ℤ) → ltb_ℤ a c ≡ true → (ltb_ℤ a b || ltb_ℤ b c) ≡ true
less_split a b c h = ground arith

pub eq_less : (a b : ℤ) → eq_ℤ a b ≡ not (ltb_ℤ a b || ltb_ℤ b a)
eq_less a b = ground arith

pub less_mono : (m n : ℤ) → m ≤ℤ n → ltb_ℤ n m ≡ false
less_mono m n h = ground arith

pub less_pos : (m n : ℕ) → m < n → n ≤ 2 ^ 53 → ltb_ℤ (pos m) (pos n) ≡ true
less_pos m n h k = ground arith

instance unfoldable pub integers : Float64 ℤ
unfolding ◌+ℤ◌
integers = record {
  of_int = λ n. n;
  add = ◌+ℤ◌;
  mul = product;
  div = quotient;
  lt = ltb_ℤ;
  eq = eq_ℤ;
  round = λ n. n;
  lt_irrefl = less_irrefl;
  lt_trans = less_trans;
  lt_split = less_split;
  eq_lt = eq_less;
  of_int_mono = less_mono;
  of_int_lt = less_pos;
  add_nonneg = sum_mono;
}

abbrev pub exact_sum : SqlSum
exact_sum = record { sum = ◌+ℤ◌; sum_exact = λ a b h. refl }

abbrev pub marshal : GpuInfo ℤ → Option String
marshal info = some info.summary

abbrev pub node : String → String → ℤ → ℤ → GpuInfo ℤ
node id summary requests tokens = record {
  node_id = id;
  addr = "10.0.0.1";
  role = "node";
  status = "idle";
  timestamp = pos 0;
  summary = summary;
  bootstrap_addr = "10.0.0.1:8998";
  engine_id = "engine";
  vllm_port = pos 8100;
  kv_cache_usage = pos 0;
  active_requests = pos 0;
  prefill_speed = pos 0;
  gen_speed = pos 0;
  avg_ttft = pos 0;
  total_tokens = tokens;
  in_tokens = pos 0;
  out_tokens = pos 0;
  total_requests = requests;
  gpu_temp = pos 0;
  gpu_util = pos 0;
  mem_util = pos 0;
  vram_used = pos 0;
  vram_total = pos 0;
  power_draw = pos 0;
  power_limit = pos 0;
  fan_speed = pos 0;
  driver_version = "";
  gpus = [];
  performance = pos 0;
}

abbrev pub empty_cache : PeerCache ℤ
empty_cache = new_peer_cache

abbrev pub empty_db : Db ℤ
empty_db = record { peers = []; events = []; next_id = 1 }

abbrev pub always : Statement ℤ → Bool
always s = true
