-- ===== src/Node/Addresses.antt =====
-- The range of virtual addresses (p2p.go).
use yuanyi.Base.{ℕ, ◌≤◌, ◌<◌, ◌≢◌, arith, ◌+◌, ◌*◌}
use yuanyi.Node.{generate_vip}

-- If the first three values are bytes, the octets are bytes, the port is from 1024 to 65535, and the
-- address is not 127.0.0.1.
pub generate_vip_bounds :
    (h0 h1 h2 h3 h4 : ℕ)
    → h0 < 256
    → h1 < 256
    → h2 < 256
    → ((generate_vip h0 h1 h2 h3 h4).ip2 < 256)
      × ((generate_vip h0 h1 h2 h3 h4).ip3 < 256)
      × ((generate_vip h0 h1 h2 h3 h4).ip4 < 256)
      × (1024 ≤ (generate_vip h0 h1 h2 h3 h4).port)
      × ((generate_vip h0 h1 h2 h3 h4).port ≤ 65535)
      × (65536 * (generate_vip h0 h1 h2 h3 h4).ip2
            + 256 * (generate_vip h0 h1 h2 h3 h4).ip3
            + (generate_vip h0 h1 h2 h3 h4).ip4
          ≢ 1)
unfolding generate_vip
generate_vip_bounds h0 h1 h2 h3 h4 p q r = ground arith
