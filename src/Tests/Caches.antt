-- ===== src/Tests/Caches.antt =====
-- The cache, its table and the flusher at concrete inputs.

use yuanyi.Base.{
  ℤ, pos, Option, none, some, List, [], ◌∷◌, ◌≡◌, refl, arith, find, inl, ◌⊎◌, get_or, put, remove,
  ◌+ℤ◌, subst,
}
use yuanyi.Peer.{PeerEvent}
use yuanyi.Cache.{
  PeerCache, queue_event, upsert_gossip, upsert_connection, set_ping, update_health,
  increment_contribution, update_peer, at_least_one, new_peer_cache, merge_gossip, add_contribution,
  keep_max, blank_peer, connected_peer,
}
use yuanyi.Db.{Db}
use yuanyi.Mirror.{
  Call, gossip, connect, disconnect, ping, health, credit, credit_detail, cache_run, db_run,
  cache_step,
}
use yuanyi.Mirror.Agree.{Agree}
use yuanyi.Mirror.Calls.{AllFit, run-Agree}
use yuanyi.Cache.Growth.{Grown, upsert_gossip-Grown}
use yuanyi.Cache.Invariant.{IsValid, queue_event-IsValid}
use yuanyi.Flush.{flushed, failed, copy_cache, store, flush}
use yuanyi.Flush.Covered.{Covered, cache_step-IsValid}
use yuanyi.Flush.Alone.{Settled, flush_lem}
use yuanyi.Flush.Overlap.{both_drains, both_drains_lem}
use yuanyi.Tests.Sample.{marshal, node, exact_sum, empty_cache, empty_db, integers, always}

abbrev history : List (Call ℤ)
history =
    gossip "12:00" (node "peer-one" "RTX 4090" (pos 3) (pos 40))
    ∷ connect "12:01" "peer-two" "10.0.0.2"
    ∷ ping "peer-one" "5ms"
    ∷ health "peer-two" (pos 1) (pos 10)
    ∷ credit "peer-one" (pos 0) (pos 25)
    ∷ credit_detail "peer-three" (pos 1) (pos 5) (pos 7)
    ∷ disconnect "peer-two"
    ∷ []

-- What holds of the value that an option has holds of every value it may have.
of_value {ℓ κ} :
    {A : Type ℓ} (P : A → Type κ) (o : Option A) (a : A)
    → o ≡ some a
    → P a
    → (p : A) → o ≡ some p
    → P p
of_value P o a e h p e' = subst P (cc (e, e')) h

-- What holds of every value of an empty option.
of_none {ℓ κ} : {A : Type ℓ} (P : A → Type κ) (o : Option A) → o ≡ none → (p : A) → o ≡ some p → P p
of_none P o e p e' = cc

history-AllFit : AllFit marshal exact_sum history empty_cache
unfolding cache_step upsert_gossip upsert_connection set_ping update_health increment_contribution
    update_peer put find remove ◌+ℤ◌ at_least_one new_peer_cache merge_gossip add_contribution
    keep_max blank_peer connected_peer
history-AllFit = (
  tt,
  (
    tt,
    (
      tt,
      (
        tt,
        (
          of_value _ _ _ refl ((omega arith, omega arith), (omega arith, omega arith)),
          (of_none _ _ refl, (tt, tt)),
        ),
      ),
    ),
  ),
)

run-Agree_example :
    Agree
      (cache_run marshal history empty_cache).peers
      (db_run marshal exact_sum history empty_db).peers
run-Agree_example =
    run-Agree marshal exact_sum history empty_cache empty_db history-AllFit
      (λ k. unfold new_peer_cache find in refl)

empty-IsValid : IsValid empty_cache
unfolding new_peer_cache find
empty-IsValid = record { distinct = tt; keyed = tt; disjoint = λ k. inl refl }

empty-Covered : Covered empty_cache empty_db.peers
unfolding new_peer_cache find
empty-Covered k h = h

cache_step-IsValid_example :
    IsValid (
      cache_step marshal (gossip "12:00" (node "peer-one" "RTX 4090" (pos 3) (pos 40))) empty_cache)
cache_step-IsValid_example =
    cache_step-IsValid marshal (gossip "12:00" (node "peer-one" "RTX 4090" (pos 3) (pos 40)))
      empty_cache empty-IsValid

-- A cache with one live peer and one audit event.
abbrev pub one_peer : PeerCache ℤ
one_peer =
    queue_event "12:02" "peer-one" "" "penalty" (pos 1) (pos 10) ""
      (cache_step marshal (connect "12:01" "peer-one" "10.0.0.2") empty_cache)

one_peer-IsValid : IsValid one_peer
one_peer-IsValid =
    queue_event-IsValid "12:02" "peer-one" "" "penalty" (pos 1) (pos 10) "" _
      (cache_step-IsValid marshal (connect "12:01" "peer-one" "10.0.0.2") empty_cache empty-IsValid)

one_peer-Covered : Covered one_peer empty_db.peers
unfolding find
one_peer-Covered k h = cc h

flush_lem_example :
    (flush always one_peer empty_db ≡ failed)
    ⊎ ((pc' : PeerCache ℤ) × (db' : Db ℤ) × (flush always one_peer empty_db ≡ flushed pc' db')
        × Settled one_peer empty_db pc' db')
flush_lem_example = flush_lem always one_peer empty_db one_peer-IsValid one_peer-Covered

abbrev new_event : PeerEvent
new_event = record {
  id = pos 0;
  peer_id = "peer-two";
  ip_address = "";
  event_type = "recovery";
  fail_count = pos 0;
  penalty_points = pos 0;
  timestamp = "12:05";
  detail = "";
}

both_drains_lem_example :
    both_drains one_peer [] (new_event ∷ []) (new_event ∷ []) ≡ some (new_event ∷ [])
unfolding queue_event cache_step upsert_connection new_peer_cache
both_drains_lem_example = both_drains_lem one_peer [] (new_event ∷ []) (new_event ∷ [])

drains_panic : both_drains one_peer (new_event ∷ []) [] [] ≡ none
unfolding both_drains queue_event cache_step upsert_connection new_peer_cache copy_cache
drains_panic = refl

abbrev after_store : Option (Db ℤ) → Db ℤ
after_store o = get_or o empty_db

abbrev stored_once : Db ℤ
stored_once = after_store (store always (copy_cache one_peer) empty_db)

abbrev stored_twice : Db ℤ
stored_twice = after_store (store always (copy_cache one_peer) stored_once)

upsert_gossip-Grown_example : Grown (find "peer-one" one_peer.peers) (
    find "peer-one"
      (upsert_gossip marshal "12:03"
        (node "peer-one" "RTX 4090" (pos 3) (pos 40))
        one_peer).0.peers)
upsert_gossip-Grown_example =
    upsert_gossip-Grown marshal "12:03" (node "peer-one" "RTX 4090" (pos 3) (pos 40)) one_peer
      "peer-one"
