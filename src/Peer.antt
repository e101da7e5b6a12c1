-- ===== src/Peer.antt =====
-- The records that the hub keeps and exchanges: GPUEntry and GPUInfo (p2p.go), PeerData and
-- PeerEvent (server_db.go). `F` is the type of float64 values.
use yuanyi.Base.{String, List, ℤ, Bool}

pub record GpuEntry : Type 0 where
  pub id : String
  pub num : ℤ

pub record GpuInfo (F : Type 0) : Type 0 where
  pub node_id : String
  pub addr : String
  pub role : String
  pub status : String
  pub timestamp : ℤ
  pub summary : String
  pub bootstrap_addr : String
  pub engine_id : String
  pub vllm_port : ℤ
  pub kv_cache_usage : F
  pub active_requests : ℤ
  pub prefill_speed : F
  pub gen_speed : F
  pub avg_ttft : F
  pub total_tokens : ℤ
  pub in_tokens : ℤ
  pub out_tokens : ℤ
  pub total_requests : ℤ
  pub gpu_temp : ℤ
  pub gpu_util : ℤ
  pub mem_util : ℤ
  pub vram_used : ℤ
  pub vram_total : ℤ
  pub power_draw : F
  pub power_limit : F
  pub fan_speed : ℤ
  pub driver_version : String
  pub gpus : List GpuEntry
  pub performance : ℤ

pub record PeerData (F : Type 0) : Type 0 where
  pub peer_id : String
  pub gpu_info : String
  pub ip_address : String
  pub last_ping : String
  pub bootstrap_addr : String
  pub engine_id : String
  pub fail_count : ℤ
  pub penalty_points : ℤ
  pub total_requests : ℤ
  pub total_tokens : ℤ
  pub in_tokens : ℤ
  pub out_tokens : ℤ
  pub contribution_score : F
  pub role : String
  pub ip_verified : Bool

pub record PeerEvent : Type 0 where
  pub id : ℤ
  pub peer_id : String
  pub ip_address : String
  pub event_type : String
  pub fail_count : ℤ
  pub penalty_points : ℤ
  pub timestamp : String
  pub detail : String

-- RoleRelay
abbrev pub role_relay : String
role_relay = "relay"

-- The summary that a node with no GPU broadcasts.
abbrev pub no_gpu : String
no_gpu = "No GPU Detected"
