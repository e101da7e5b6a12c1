-- ===== src/Health.antt =====
-- server_p2p.go: what a gossip message and a ping do to the cache. `show` is the verb %d of fmt,
-- `trim` is strings.TrimSpace, `atoi` is strconv.Atoi, `matches` is the regular expression of
-- parseSummaryGPUs: name, capacity, and the two groups of a count.
pub mod Bounds
pub mod Summary
use Prim.Native.String.{◌++◌}
use yuanyi.Base.{
  String, ℤ, pos, Bool, true, false, ◌&&◌, not, Option, none, some, List, [], ◌∷◌, Map, find, put,
  get_or, is_empty, is_none, if◌then◌else◌, ltb_ℤ, leb_ℤ, add64, ◌==◌,
}
use yuanyi.Float.{Float64}
use yuanyi.Peer.{GpuEntry, GpuInfo, PeerData}
use yuanyi.Cache.{PeerCache, upsert_gossip, queue_event, set_ping, update_health}

pub record Match : Type 0 where
  pub name : String
  pub vram : String
  pub times : String
  pub pieces : String

-- counts and order, under construction.
pub record Tally : Type 0 where
  pub counts : Map ℤ
  pub order : List String

abbrev pub snoc {ℓ} : {A : Type ℓ} → List A → A → List A
snoc [] x = x ∷ []
snoc (y ∷ ys) x = y ∷ snoc ys x

module _ (trim : String → String) (atoi : String → Option ℤ) where
  unfoldable pub id_of : Match → String
  id_of m = trim m.name ++ "(" ++ m.vram ++ ")"

  unfoldable pub num_of : Match → ℤ
  num_of m = get_or (atoi (if m.times == "" then m.pieces else m.times)) (pos 1)

  unfoldable pub count_match : Match → Tally → Tally
  unfolding id_of num_of
  count_match m t = record {
    counts = put (id_of m) (add64 (get_or (find (id_of m) t.counts) (pos 0)) (num_of m)) t.counts;
    order = if is_none (find (id_of m) t.counts) then snoc t.order (id_of m) else t.order;
  }

  unfoldable pub count_all : List Match → Tally → Tally
  unfolding count_match
  count_all [] t = t
  count_all (m ∷ ms) t = count_all ms (count_match m t)

  unfoldable pub entries : Map ℤ → List String → List GpuEntry
  entries counts [] = []
  entries counts (id ∷ ids) =
      record { id = id; num = get_or (find id counts) (pos 0) } ∷ entries counts ids

  unfoldable pub parse_summary_gpus : (String → List Match) → String → List GpuEntry
  unfolding count_all entries
  parse_summary_gpus matches summary =
      let ms = matches summary in
      if is_empty ms
      then []
      else let t = count_all ms (record { counts = []; order = [] }) in entries t.counts t.order

-- The limit, with its default.
unfoldable pub max_fail : ℤ → ℤ
max_fail configured = if leb_ℤ configured (pos 0) then pos 3 else configured

module _ {F : Type 0} ⦃fl : Float64 F⦄ where
  unfoldable pub with_gpus : (String → List GpuEntry) → GpuInfo F → GpuInfo F
  with_gpus parse info =
      if is_empty info.gpus && not (info.summary == "")
      then record info { gpus = parse info.summary }
      else info

  unfoldable pub announce : String → GpuInfo F → PeerCache F × Bool → PeerCache F
  announce now info (pc, is_new) =
      if is_new
      then queue_event now info.node_id info.addr "JOIN" (pos 0) (pos 0)
          "New node joined via gossip broadcast" pc
      else pc

  -- serverProcessGossipMessage, without the reload of the backends that follows it.
  unfoldable pub process_gossip :
      (GpuInfo F → Option String)
      → (String → List GpuEntry)
      → String
      → GpuInfo F
      → PeerCache F
      → PeerCache F
  unfolding with_gpus announce
  process_gossip marshal parse now info pc =
      if info.node_id == ""
      then pc
      else let full = with_gpus parse info in announce now full (upsert_gossip marshal now full pc)

  module _ (show : ℤ → String) (now : String) where
    unfoldable pub recover : PeerData F → PeerCache F → PeerCache F
    recover p pc =
        let penalty = add64 p.penalty_points (pos 1) in
        let detail =
          "Node recovered after "
          ++ show p.fail_count
          ++ " consecutive failures (+1 penalty point)" in
        if ltb_ℤ (pos 0) p.fail_count
        then queue_event now p.peer_id p.ip_address "RECOVERED_PENALTY" (pos 0) penalty detail
            (update_health p.peer_id (pos 0) penalty pc)
        else pc

    unfoldable pub fail : ℤ → PeerData F → PeerCache F → PeerCache F
    unfolding max_fail
    fail configured p pc =
        let new_fail = add64 p.fail_count (pos 1) in
        let limit = max_fail configured in
        let ratio = show new_fail ++ "/" ++ show limit in
        if leb_ℤ limit new_fail
        then queue_event now p.peer_id p.ip_address "WARNING_OFFLINE" new_fail p.penalty_points
            (ratio ++ " consecutive connection failures") pc
        else queue_event now p.peer_id p.ip_address "FAIL_INCREMENT" new_fail p.penalty_points
            ("Connection test failed " ++ ratio ++ " times")
            (update_health p.peer_id new_fail p.penalty_points pc)

    -- pingOnePeer: `decodes` tells whether peer.Decode takes the ID, `alive` whether the ping came
    -- back in time; `p` is the entry of an earlier snapshot.
    unfoldable pub ping_one_peer : Bool → Bool → ℤ → PeerData F → PeerCache F → PeerCache F
    unfolding recover fail
    ping_one_peer decodes alive configured p pc =
        if not decodes
        then pc
        else if alive
        then recover p (set_ping p.peer_id "OK" pc)
        else fail configured p pc
