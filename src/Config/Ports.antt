-- ===== src/Config/Ports.antt =====
-- The ports after the defaults (config.go).
use yuanyi.Base.{
  String, ℤ, pos, Bool, true, false, ◌||◌, if◌then◌else◌, if_intro, if_intro_false, leb_ℤ, ltb_ℤ,
  eq_ℤ, ◌==◌, ◌≡◌, refl, arith,
}
use yuanyi.Config.{
  ClientConfig, positive_or, clear_of, used, hub_proxy_port, hub_p2p_port,
  apply_server_mode_defaults, fill_defaults,
}

positive_or_lem : (d n : ℤ) → ltb_ℤ (pos 0) d ≡ true → ltb_ℤ (pos 0) (positive_or d n) ≡ true
unfolding positive_or
positive_or_lem d n h = ground arith

clear_of_lem : (taken d n : ℤ) → ltb_ℤ (pos 0) d ≡ true → ltb_ℤ (pos 0) (clear_of taken d n) ≡ true
unfolding clear_of
clear_of_lem taken d n h = ground arith

clear_of_taken : (taken d n : ℤ) → eq_ℤ d taken ≡ false → eq_ℤ (clear_of taken d n) taken ≡ false
unfolding clear_of
clear_of_taken taken d n h = ground arith

-- A default that is free, or a configured port that is free.
fresh_port :
    (taken : ℤ → Bool) (d n : ℤ)
    → ltb_ℤ (pos 0) d ≡ true
    → taken d ≡ false
    → let r : ℤ = if leb_ℤ n (pos 0) || taken n then d else n in
      (ltb_ℤ (pos 0) r ≡ true) × (taken r ≡ false)
fresh_port taken d n h k =
    if_intro_false (λ (r : ℤ). (ltb_ℤ (pos 0) r ≡ true) × (taken r ≡ false))
      (leb_ℤ n (pos 0) || taken n) d n (h, k) (λ e. (ground arith, ground arith))

both_false : (a b : Bool) → a ≡ false → b ≡ false → (a || b) ≡ false
both_false a b h k = ground arith

-- The two ports of the hub, when nothing holds their defaults.
hub_ports_lem :
    (cfg : ClientConfig)
    → used cfg (pos 50008) ≡ false
    → used cfg (pos 50004) ≡ false
    → eq_ℤ (pos 50004) cfg.server_mode.proxy_port ≡ false
    → ((ltb_ℤ (pos 0) (hub_proxy_port cfg) ≡ true) × (used cfg (hub_proxy_port cfg) ≡ false))
      × ((ltb_ℤ (pos 0) (hub_p2p_port cfg) ≡ true)
          × ((used cfg (hub_p2p_port cfg) || eq_ℤ (hub_p2p_port cfg) (hub_proxy_port cfg)) ≡ false))
unfolding hub_proxy_port hub_p2p_port
hub_ports_lem cfg h k n =
    let free : eq_ℤ (pos 50004) (hub_proxy_port cfg) ≡ false =
      if_intro (λ (r : ℤ). eq_ℤ (pos 50004) r ≡ false)
        (leb_ℤ cfg.server_mode.proxy_port (pos 0) || used cfg cfg.server_mode.proxy_port)
        (pos 50008) cfg.server_mode.proxy_port refl n in
    (
      fresh_port (used cfg) (pos 50008) cfg.server_mode.proxy_port refl h,
      fresh_port (λ m. used cfg m || eq_ℤ m (hub_proxy_port cfg)) (pos 50004)
          cfg.server_mode.p2p_port refl (both_false (used cfg (pos 50004)) _ k free),
    )

-- If after the defaults the gateway is on none of 8100 and 8998, no port of the client is 50008 or
-- 50004, and the hub's gateway was not configured as 50004, then all six ports are positive, those
-- of the engine and of its bootstrap differ from the gateway's, and the two of the hub differ from
-- the four of the client and from each other.
pub fill_defaults_lem :
    (active : String) (cfg : ClientConfig)
    → eq_ℤ (pos 8100) (fill_defaults active cfg).proxy_port ≡ false
    → eq_ℤ (pos 8998) (fill_defaults active cfg).proxy_port ≡ false
    → used (fill_defaults active cfg) (pos 50008) ≡ false
    → used (fill_defaults active cfg) (pos 50004) ≡ false
    → eq_ℤ (pos 50004) cfg.server_mode.proxy_port ≡ false
    → let r : ClientConfig = fill_defaults active cfg in
      ((ltb_ℤ (pos 0) r.web_port ≡ true)
        × (ltb_ℤ (pos 0) r.proxy_port ≡ true)
        × (ltb_ℤ (pos 0) r.vllm_port ≡ true)
        × (ltb_ℤ (pos 0) r.bootstrap_port ≡ true))
      × (eq_ℤ r.vllm_port r.proxy_port ≡ false)
      × (eq_ℤ r.bootstrap_port r.proxy_port ≡ false)
      × (((ltb_ℤ (pos 0) r.server_mode.proxy_port ≡ true)
            × (used r r.server_mode.proxy_port ≡ false))
          × ((ltb_ℤ (pos 0) r.server_mode.p2p_port ≡ true)
              × ((used r r.server_mode.p2p_port
                    || eq_ℤ r.server_mode.p2p_port r.server_mode.proxy_port)
                  ≡ false)))
unfolding fill_defaults apply_server_mode_defaults used
fill_defaults_lem active cfg e f h k n =
    let gateway = positive_or (pos 50006) cfg.proxy_port in
    let client = record cfg {
      iface = if cfg.iface == "" then active else cfg.iface;
      web_port = positive_or (pos 50007) cfg.web_port;
      proxy_port = gateway;
      vllm_port = clear_of gateway (pos 8100) cfg.vllm_port;
      bootstrap_port = clear_of gateway (pos 8998) cfg.bootstrap_port;
      max_num_seqs = positive_or (pos 32) cfg.max_num_seqs;
    } in
    (
      (
        positive_or_lem (pos 50007) cfg.web_port refl,
        positive_or_lem (pos 50006) cfg.proxy_port refl,
        clear_of_lem gateway (pos 8100) cfg.vllm_port refl,
        clear_of_lem gateway (pos 8998) cfg.bootstrap_port refl,
      ),
      clear_of_taken gateway (pos 8100) cfg.vllm_port e,
      clear_of_taken gateway (pos 8998) cfg.bootstrap_port f,
      hub_ports_lem client h k n,
    )
