-- ===== src/Cache/Invariant.antt =====
-- The representation invariant of PeerCache (peer_cache.go) and its methods.
use yuanyi.Base.{
  String, ℤ, Option, none, some, [], ◌∷◌, ◌≡◌, refl, ◌∙◌, ◌⊎◌, inl, inr, arith, Map, find, put,
  remove, find-put, find-remove, IsMap, put-IsMap, remove-IsMap, eq_iff, Option-cases,
}
use yuanyi.Float.{Float64}
use yuanyi.Peer.{GpuInfo, PeerData}
use yuanyi.Cache.{
  PeerCache, upsert_gossip, upsert_connection, remove_peer, set_ping, update_health, update_peer,
  increment_contribution, increment_tokens_detail, merge_gossip, blank_peer, connected_peer,
  add_contribution, add_tokens_detail, queue_event, reset_stats, clear_all, clear_stats,
}

module _ {F : Type 0} where
  -- Every entry stands under its own peer ID.
  abbrev pub Keyed : Map (PeerData F) → Type 0
  Keyed [] = Unit
  Keyed ((k, p) ∷ m) = (p.peer_id ≡ k) × Keyed m

  -- One entry for each peer, under its ID, and no peer that is both live and waiting for deletion.
  pub record IsValid (pc : PeerCache F) : Type 0 where
    pub distinct : IsMap pc.peers
    pub keyed : Keyed pc.peers
    pub disjoint : (k : String) → (find k pc.peers ≡ none) ⊎ (find k pc.pending_deletes ≡ none)

  put-Keyed :
      (k : String) (p : PeerData F) (m : Map (PeerData F))
      → p.peer_id ≡ k
      → Keyed m
      → Keyed (put k p m)
  unfolding put
  put-Keyed k p [] e h = (e, tt)
  put-Keyed k p ((j, q) ∷ m) e h = ground (arith, put-Keyed k p m e h.1)

  remove-Keyed : (k : String) (m : Map (PeerData F)) → Keyed m → Keyed (remove k m)
  unfolding remove
  remove-Keyed k [] h = tt
  remove-Keyed k ((j, q) ∷ m) h = ground (arith, remove-Keyed k m h.1)

  pub Keyed-find :
      (k : String) (p : PeerData F) (m : Map (PeerData F))
      → Keyed m
      → find k m ≡ some p
      → p.peer_id ≡ k
  unfolding find
  Keyed-find k p [] h e = cc
  Keyed-find k p ((j, q) ∷ m) h e = ground (arith, eq_iff j k, Keyed-find k p m h.1)

module _ {F : Type 0} ⦃fl : Float64 F⦄ where
  -- An entry is written and its deletion cancelled.
  arrive-IsValid :
      (pc : PeerCache F) (id : String) (p : PeerData F)
      → p.peer_id ≡ id
      → IsValid pc
      → IsValid
          (record pc { peers = put id p pc.peers; pending_deletes = remove id pc.pending_deletes })
  arrive-IsValid pc id p e v = record {
    distinct = put-IsMap id p pc.peers v.distinct;
    keyed = put-Keyed id p pc.peers e v.keyed;
    disjoint = λ k.
        rw (find-put id k p pc.peers, find-remove id k pc.pending_deletes)
          (ground (arith, v.disjoint k));
  }

  update_peer-IsValid :
      (pc : PeerCache F) (id : String) (f : PeerData F → PeerData F)
      → ((p : PeerData F) → (f p).peer_id ≡ p.peer_id)
      → IsValid pc
      → IsValid (update_peer id f pc)
  unfolding update_peer
  update_peer-IsValid pc id f e v = elim (Option-cases (find id pc.peers)) [
    | inl miss ↦ rw (miss, update_peer) v
    | inr (p, hit) ↦
        rw (hit, update_peer)
          (record {
            distinct = put-IsMap id (f p) pc.peers v.distinct;
            keyed =
                put-Keyed id (f p) pc.peers (e p ∙ Keyed-find id p pc.peers v.keyed hit) v.keyed;
            disjoint = λ k.
                rw (find-put id k (f p) pc.peers) (ground (arith, v.disjoint k, eq_iff id k, hit));
          })
  ]

  pub upsert_gossip-IsValid :
      (marshal : GpuInfo F → Option String) (now : String) (info : GpuInfo F) (pc : PeerCache F)
      → IsValid pc
      → IsValid (upsert_gossip marshal now info pc).0
  unfolding upsert_gossip merge_gossip blank_peer
  upsert_gossip-IsValid marshal now info pc v = elim (Option-cases (marshal info)) [
    | inl e ↦ rw (e, upsert_gossip) v
    | inr (gpu_data, e) ↦
        rw (e, upsert_gossip)
          (arrive-IsValid pc info.node_id _
            (elim (Option-cases (find info.node_id pc.peers)) [
              | inl miss ↦ rw miss refl
              | inr (p, hit) ↦ rw hit (Keyed-find info.node_id p pc.peers v.keyed hit)
            ])
            v)
  ]

  pub upsert_connection-IsValid :
      (now id ip : String) (pc : PeerCache F)
      → IsValid pc
      → IsValid (upsert_connection now id ip pc)
  unfolding upsert_connection connected_peer
  upsert_connection-IsValid now id ip pc v =
      arrive-IsValid pc id _
        (elim (Option-cases (find id pc.peers)) [
          | inl miss ↦ rw miss refl
          | inr (p, hit) ↦ rw hit (Keyed-find id p pc.peers v.keyed hit)
        ])
        v

  pub remove_peer-IsValid :
      (id : String) (pc : PeerCache F) → IsValid pc → IsValid (remove_peer id pc)
  unfolding remove_peer
  remove_peer-IsValid id pc v = record {
    distinct = remove-IsMap id pc.peers v.distinct;
    keyed = remove-Keyed id pc.peers v.keyed;
    disjoint = λ k.
        rw (find-remove id k pc.peers, find-put id k tt pc.pending_deletes)
          (ground (arith, v.disjoint k));
  }

  pub set_ping-IsValid :
      (id value : String) (pc : PeerCache F) → IsValid pc → IsValid (set_ping id value pc)
  unfolding set_ping
  set_ping-IsValid id value pc v = update_peer-IsValid pc id _ (λ p. refl) v

  pub update_health-IsValid :
      (id : String) (fails penalty : ℤ) (pc : PeerCache F)
      → IsValid pc
      → IsValid (update_health id fails penalty pc)
  unfolding update_health
  update_health-IsValid id fails penalty pc v = update_peer-IsValid pc id _ (λ p. refl) v

  pub increment_contribution-IsValid :
      (id : String) (requests tokens : ℤ) (pc : PeerCache F)
      → IsValid pc
      → IsValid (increment_contribution id requests tokens pc)
  unfolding increment_contribution add_contribution
  increment_contribution-IsValid id requests tokens pc v = update_peer-IsValid pc id _ (λ p. refl) v

  pub increment_tokens_detail-IsValid :
      (id : String) (requests in_tokens out_tokens : ℤ) (pc : PeerCache F)
      → IsValid pc
      → IsValid (increment_tokens_detail id requests in_tokens out_tokens pc)
  unfolding increment_tokens_detail add_tokens_detail
  increment_tokens_detail-IsValid id requests in_tokens out_tokens pc v =
      update_peer-IsValid pc id _ (λ p. refl) v

  pub queue_event-IsValid :
      (now id ip kind : String) (fails penalty : ℤ) (detail : String) (pc : PeerCache F)
      → IsValid pc
      → IsValid (queue_event now id ip kind fails penalty detail pc)
  unfolding queue_event
  queue_event-IsValid now id ip kind fails penalty detail pc v = record {
    distinct = v.distinct;
    keyed = v.keyed;
    disjoint = v.disjoint;
  }

  abbrev pub clear_option : Option (PeerData F) → Option (PeerData F)
  clear_option none = none
  clear_option (some p) = some (clear_stats p)

  pub find-clear_all :
      (k : String) (m : Map (PeerData F)) → find k (clear_all m) ≡ clear_option (find k m)
  unfolding clear_all find
  find-clear_all k [] = refl
  find-clear_all k ((j, p) ∷ m) = ground (arith, find-clear_all k m)

  clear_all-IsMap : (m : Map (PeerData F)) → IsMap m → IsMap (clear_all m)
  unfolding clear_all
  clear_all-IsMap [] h = tt
  clear_all-IsMap ((j, p) ∷ m) h = (rw (find-clear_all j m, h.0) refl, clear_all-IsMap m h.1)

  clear_all-Keyed : (m : Map (PeerData F)) → Keyed m → Keyed (clear_all m)
  unfolding clear_all
  clear_all-Keyed [] h = tt
  clear_all-Keyed ((j, p) ∷ m) h = (h.0, clear_all-Keyed m h.1)

  pub reset_stats-IsValid : (pc : PeerCache F) → IsValid pc → IsValid (reset_stats pc).0
  unfolding reset_stats
  reset_stats-IsValid pc v = record {
    distinct = clear_all-IsMap pc.peers v.distinct;
    keyed = clear_all-Keyed pc.peers v.keyed;
    disjoint = λ k. rw find-clear_all (ground (arith, v.disjoint k));
  }
