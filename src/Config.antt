-- ===== src/Config.antt =====
-- config.go: the defaults that LoadOrCreateConfig fills in, and the lines it drops before parsing.
-- The fields that no default touches are left out.
pub mod Ports
use yuanyi.Base.{
  String, ℤ, pos, Bool, true, false, ◌&&◌, ◌||◌, not, List, [], ◌∷◌, select, if◌then◌else◌, leb_ℤ,
  eq_ℤ, ◌==◌,
}

pub record ServerMode : Type 0 where
  pub enabled : Bool
  pub relay_only : Bool
  pub p2p_port : ℤ
  pub proxy_port : ℤ
  pub database_path : String
  pub max_fail_count : ℤ
  pub check_interval_sec : ℤ
  pub flush_interval_sec : ℤ

pub record ClientConfig : Type 0 where
  pub iface : String
  pub web_port : ℤ
  pub proxy_port : ℤ
  pub vllm_port : ℤ
  pub bootstrap_port : ℤ
  pub max_num_seqs : ℤ
  pub server_mode : ServerMode

-- The lines that are kept: `is_comment` tells whether the trimmed line starts with //.
unfoldable pub remove_comment_lines : (String → Bool) → List String → List String
remove_comment_lines is_comment = select (λ l. not (is_comment l))

-- `if n <= 0 { n = d }`
unfoldable pub positive_or : ℤ → ℤ → ℤ
positive_or d n = if leb_ℤ n (pos 0) then d else n

-- A port that is missing or taken by the gateway.
unfoldable pub clear_of : ℤ → ℤ → ℤ → ℤ
clear_of taken d n = if leb_ℤ n (pos 0) || eq_ℤ n taken then d else n

-- The key set of `used`.
unfoldable pub used : ClientConfig → ℤ → Bool
used cfg n =
    (eq_ℤ n cfg.web_port || eq_ℤ n cfg.proxy_port)
    || (eq_ℤ n cfg.vllm_port || eq_ℤ n cfg.bootstrap_port)

unfoldable pub hub_proxy_port : ClientConfig → ℤ
unfolding used
hub_proxy_port cfg =
    let n = cfg.server_mode.proxy_port in if leb_ℤ n (pos 0) || used cfg n then pos 50008 else n

unfoldable pub hub_p2p_port : ClientConfig → ℤ
unfolding used hub_proxy_port
hub_p2p_port cfg =
    let n = cfg.server_mode.p2p_port in
    if leb_ℤ n (pos 0) || (used cfg n || eq_ℤ n (hub_proxy_port cfg)) then pos 50004 else n

unfoldable pub apply_server_mode_defaults : ClientConfig → ClientConfig
unfolding positive_or hub_proxy_port hub_p2p_port
apply_server_mode_defaults cfg = record cfg {
  server_mode = record {
    enabled = cfg.server_mode.enabled || cfg.server_mode.relay_only;
    relay_only = cfg.server_mode.relay_only;
    p2p_port = hub_p2p_port cfg;
    proxy_port = hub_proxy_port cfg;
    database_path =
        if cfg.server_mode.database_path == "" then "./peers.db" else cfg.server_mode.database_path;
    max_fail_count = positive_or (pos 3) cfg.server_mode.max_fail_count;
    check_interval_sec = positive_or (pos 30) cfg.server_mode.check_interval_sec;
    flush_interval_sec = positive_or (pos 45) cfg.server_mode.flush_interval_sec;
  };
}

-- The defaults of LoadOrCreateConfig after json.Unmarshal; `active` is the network interface that
-- detectActiveNetworkInterface finds.
unfoldable pub fill_defaults : String → ClientConfig → ClientConfig
unfolding positive_or clear_of apply_server_mode_defaults
fill_defaults active cfg =
    let gateway = positive_or (pos 50006) cfg.proxy_port in
    apply_server_mode_defaults (record cfg {
      iface = if cfg.iface == "" then active else cfg.iface;
      web_port = positive_or (pos 50007) cfg.web_port;
      proxy_port = gateway;
      vllm_port = clear_of gateway (pos 8100) cfg.vllm_port;
      bootstrap_port = clear_of gateway (pos 8998) cfg.bootstrap_port;
      max_num_seqs = positive_or (pos 32) cfg.max_num_seqs;
    })
