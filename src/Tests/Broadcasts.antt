-- ===== src/Tests/Broadcasts.antt =====
-- Broadcasts (p2p.go) at concrete messages.
use yuanyi.Base.{ℕ, String, ℤ, pos, true, List, [], ◌∷◌, none, some, ◌≡◌, is_none, get_elem?, refl}
use yuanyi.Strings.{codes}
use yuanyi.Gateway.{too_short}
use yuanyi.Console.{new_tui}
use yuanyi.Gossip.{
  NodeView, Broadcast, NodeEnv, accepted, gossip_subscriber, AddrKind, useless, private, public,
  other, select_best_addr,
}
use yuanyi.Gossip.Learned.{tables, learn_all, tables-gossip_subscriber}
use yuanyi.Gossip.Crash.{any_short, gossip_subscriber-any_short}
use yuanyi.Tests.Sample.{integers, node, marshal, empty_cache}

abbrev pub env : NodeEnv ℤ
env = record {
  own_id = "peer-zero";
  hub_mode = true;
  short = λ id. codes id;
  vip = λ id. codes "127.1.2.3:4000";
  listen = λ id. true;
  parse_addr = λ a. some ("peer-one", a ∷ []);
  seeds = "seed-one" ∷ [];
  circuit = λ s. some s;
  marshal = marshal;
  parse_gpus = λ s. [];
}

abbrev sent : String → String → Broadcast ℤ
sent from id = record {
  received_from = from;
  info = some (node id "" (pos 1) (pos 2));
  now = 7;
  stamp = "12:00";
  clock = codes "12:00:00";
}

abbrev pub quiet : NodeView ℤ
quiet = record {
  tui = new_tui (λ s. none) none;
  cache = empty_cache;
  active_proxies = [];
  peerstore = [];
}

-- The echo of the node itself has a short ID and is passed over.
abbrev traffic : List (Broadcast ℤ)
traffic = sent "peer-two" "peer-one" ∷ sent "peer-zero" "x" ∷ []

tables-gossip_subscriber_example :
    (w : NodeView ℤ) × (gossip_subscriber env traffic quiet ≡ some w)
    × (tables w ≡ learn_all env traffic (tables quiet))
unfolding accepted too_short
tables-gossip_subscriber_example = tables-gossip_subscriber env traffic quiet (refl, (tt, tt))

gossip_subscriber-any_short_example :
    is_none (gossip_subscriber env (sent "peer-two" "x" ∷ traffic) quiet)
    ≡ any_short env (sent "peer-two" "x" ∷ traffic)
gossip_subscriber-any_short_example =
    gossip_subscriber-any_short env (sent "peer-two" "x" ∷ traffic) quiet

abbrev kind : ℕ → AddrKind
kind n = elim (get_elem? (useless ∷ private ∷ public ∷ []) n) [ none ↦ other | some k ↦ k ]

best : select_best_addr kind (0 ∷ 1 ∷ 2 ∷ []) ≡ some 2
unfolding select_best_addr
best = refl
