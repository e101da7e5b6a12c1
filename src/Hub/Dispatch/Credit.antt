-- ===== src/Hub/Dispatch/Credit.antt =====
-- Who is credited for a request to the hub (server_proxy.go).
use native.Mathlib.Nat.{mod-lt}
use yuanyi.Base.{
  String, ℕ, zero, suc, ◌+◌, ◌<◌, false, ◌||◌, not, Option, none, some, List, [], ◌∷◌, length,
  get_elem?, get_elem?-some, is_empty, get_or, if◌then◌else◌, if_intro, if_intro_false, Map, ◌==◌,
  ◌≡◌, ap, subst, refl, ◌⊎◌, inl, inr, arith,
}
use yuanyi.Float.{Float64}
use yuanyi.Cache.{PeerCache}
use yuanyi.Hub.{Backend, Cluster, is_pd_together}
use yuanyi.Gateway.Split.{Json, Request, prefill_request, decode_request, has_error}
use yuanyi.Hub.Dispatch.{
  Site, Links, Reply, json_error, plain_error, body, preflight, crashed, Verdict, sent, again, lost,
  credit_together, reports_error, together_response, stream, together_call, advance,
  dispatch_together, credit_split, split_response, info_of, decode_call, prefill_response,
  prefill_call, split_call, dispatch_split, go_on, attempts, parsed_body, read_body, hub_handle,
}

not_empty-lt {ℓ} : {A : Type ℓ} (xs : List A) → is_empty xs ≡ false → zero < length xs
not_empty-lt [] e = cc
not_empty-lt (x ∷ xs) e = omega arith

module _ {W P V F : Type 0} ⦃fl : Float64 F⦄ (links : Links W P V F) (json : Json V) where
  -- What a reply says of the cache: a body credits one peer, or one peer for the prompt and one for
  -- the completion; anything else credits nobody. There is no panic.
  abbrev pub Earned : Reply → PeerCache F → PeerCache F → Type 0
  Earned (body resp) pc pc' =
      ((id : String) × (pc' ≡ credit_together links json id (json.usage resp) pc))
      ⊎ ((prefill : String) × (decode : String) × (pc'
            ≡ credit_split links json prefill decode (json.usage resp) pc))
  Earned crashed pc pc' = ⊥
  Earned _ pc pc' = pc' ≡ pc

  abbrev VerdictEarned : PeerCache F → Site W P F × Verdict → Type 0
  VerdictEarned pc (t, sent r) = Earned r pc t.cache
  VerdictEarned pc (t, again) = t.cache ≡ pc

  lost-Earned : (s : Site W P F) → VerdictEarned s.cache (lost links json s)
  unfolding lost
  lost-Earned s =
      if_intro (VerdictEarned s.cache) (links.client_gone s.world)
        (s, sent (plain_error 499 "Client Disconnected")) (s, again) refl refl

  together_response-Earned :
      (pid : P) (pc : PeerCache F) (x : Site W P F × Option String)
      → x.0.cache ≡ pc
      → VerdictEarned pc (together_response links json pid x)
  unfolding together_response
  together_response-Earned pid pc (s, none) e = rw (← e) (lost-Earned s)
  together_response-Earned pid pc (s, some resp) e =
      if_intro (VerdictEarned pc) (reports_error links json (json.usage resp)) (s, again) _ e
        (inl (links.show pid, ap (credit_together links json (links.show pid) (json.usage resp)) e))

  together_call-Earned :
      (b : Backend P) (path : String) (bytes : Option String) (s : Site W P F)
      → VerdictEarned s.cache (together_call links json (some b) path bytes s)
  unfolding together_call stream
  together_call-Earned b path none s = refl
  together_call-Earned b path (some bytes) s =
      together_response-Earned b.peer_id s.cache (stream links json b.peer_id path bytes s) refl

  dispatch_together-Earned :
      (path : String) (req : Option (Map V)) (s : Site W P F)
      → VerdictEarned s.cache (dispatch_together links json path req s)
  unfolding dispatch_together advance
  dispatch_together-Earned path req s =
      let backends = s.server.prefill_backends in
      let t = advance links json backends s in
      if_intro_false (VerdictEarned s.cache) (is_empty backends)
        (s, sent (json_error 503 "No backends available"))
        (together_call links json (get_elem? backends t.server.decode_index) path
          (links.marshal req) t)
        refl
        (λ e.
          let (b, g) =
            get_elem?-some backends t.server.decode_index
              (mod-lt (s.server.decode_index + 1) (not_empty-lt backends e)) in
          rw g (together_call-Earned b path (links.marshal req) t))

  split_response-Earned :
      (p d : P) (pc : PeerCache F) (x : Site W P F × Option String)
      → x.0.cache ≡ pc
      → VerdictEarned pc (split_response links json p d x)
  unfolding split_response
  split_response-Earned p d pc (s, none) e = rw (← e) (lost-Earned s)
  split_response-Earned p d pc (s, some resp) e =
      if_intro (VerdictEarned pc) (reports_error links json (json.usage resp)) (s, again) _ e
        (inr (
          links.show p,
          links.show d,
          ap (credit_split links json (links.show p) (links.show d) (json.usage resp)) e,
        ))

  decode_call-Earned :
      (p d : Backend P) (path : String) (bytes : Option String) (s : Site W P F)
      → VerdictEarned s.cache (decode_call links json p d path bytes s)
  unfolding decode_call stream
  decode_call-Earned p d path none s = refl
  decode_call-Earned p d path (some bytes) s =
      split_response-Earned p.peer_id d.peer_id s.cache (stream links json d.peer_id path bytes s)
        refl

  prefill_response-Earned :
      (p d : Backend P) (path : String) (req : Map V) (pc : PeerCache F)
      (x : Site W P F × Option String)
      → x.0.cache ≡ pc
      → VerdictEarned pc (prefill_response links json p d path req x)
  unfolding prefill_response
  prefill_response-Earned p d path req pc (s, none) e = rw (← e) (lost-Earned s)
  prefill_response-Earned p d path req pc (s, some resp) e =
      let bytes = links.marshal (some (decode_request json (info_of links json p) req)) in
      if_intro (VerdictEarned pc) (has_error json resp) (s, again)
        (decode_call links json p d path bytes s) e (rw (← e) (decode_call-Earned p d path bytes s))

  prefill_call-Earned :
      (p d : Backend P) (path : String) (req : Map V) (bytes : Option String) (s : Site W P F)
      → VerdictEarned s.cache (prefill_call links json p d path req bytes s)
  unfolding prefill_call stream
  prefill_call-Earned p d path req none s = refl
  prefill_call-Earned p d path req (some bytes) s =
      prefill_response-Earned p d path req s.cache (stream links json p.peer_id path bytes s) refl

  split_call-Earned :
      (p d : Backend P) (path : String) (req : Map V) (s : Site W P F)
      → VerdictEarned s.cache (split_call links json (some p) (some d) path req s)
  unfolding split_call
  split_call-Earned p d path req s =
      prefill_call-Earned p d path req
        (links.marshal (some (prefill_request json (info_of links json d) req))) s

  dispatch_split-Earned :
      (path : String) (req : Option (Map V)) (s : Site W P F)
      → VerdictEarned s.cache (dispatch_split links json path req s)
  unfolding dispatch_split advance
  dispatch_split-Earned path req s =
      let prefill = s.server.prefill_backends in
      let decode = s.server.decode_backends in
      let t = advance links json decode s in
      if_intro_false (VerdictEarned s.cache) (is_empty prefill || is_empty decode)
        (s, sent (plain_error 503 "No backends available"))
        (split_call links json (get_elem? prefill 0) (get_elem? decode t.server.decode_index) path
          (get_or req []) t)
        refl
        (λ e.
          let (p, f) = get_elem?-some prefill 0 (not_empty-lt prefill (ground arith)) in
          let (d, g) =
            get_elem?-some decode t.server.decode_index
              (mod-lt (s.server.decode_index + 1) (not_empty-lt decode (ground arith))) in
          rw (f, g) (split_call-Earned p d path (get_or req []) t))

  go_on-Earned :
      (next : Site W P F → Site W P F × Reply) (pc : PeerCache F) (x : Site W P F × Verdict)
      → VerdictEarned pc x
      → ((t : Site W P F) → Earned (next t).1 t.cache (next t).0.cache)
      → Earned (go_on links json next x).1 pc (go_on links json next x).0.cache
  unfolding go_on
  go_on-Earned next pc (t, sent r) h k = h
  go_on-Earned next pc (t, again) h k =
      subst (λ pc'. Earned (next t).1 pc' (next t).0.cache) h (k t)

  module _ (quiet : (s : Site W P F) → (links.others s).cache ≡ s.cache) (c : Cluster) where
    attempts-Earned :
        (n : ℕ) (path : String) (req : Option (Map V)) (s : Site W P F)
        → Earned
            (attempts links json n c path req s).1
            s.cache
            (attempts links json n c path req s).0.cache
    unfolding attempts
    attempts-Earned zero path req s = refl
    attempts-Earned (suc n) path req s =
        let t = links.others s in
        let verdict =
          if is_pd_together c
          then dispatch_together links json path req t
          else dispatch_split links json path req t in
        go_on-Earned (attempts links json n c path req) s.cache verdict
          (subst (λ pc. VerdictEarned pc verdict) (quiet s)
            (if_intro (VerdictEarned t.cache) (is_pd_together c)
              (dispatch_together links json path req t) (dispatch_split links json path req t)
              (dispatch_together-Earned path req t) (dispatch_split-Earned path req t)))
          (attempts-Earned n path req)

    parsed_body-Earned :
        (path : String) (parsed : Option (Option (Map V))) (s : Site W P F)
        → Earned
            (parsed_body links json c path parsed s).1
            s.cache
            (parsed_body links json c path parsed s).0.cache
    unfolding parsed_body
    parsed_body-Earned path none s = refl
    parsed_body-Earned path (some req) s = attempts-Earned 3 path req s

    read_body-Earned :
        (path : String) (text : Option String) (s : Site W P F)
        → Earned
            (read_body links json c path text s).1
            s.cache
            (read_body links json c path text s).0.cache
    unfolding read_body
    read_body-Earned path none s = refl
    read_body-Earned path (some text) s = parsed_body-Earned path (json.parse text) s

    -- If the other requests leave the cache alone, a request to the hub never panics, and whatever
    -- its three attempts meet, it changes the cache only if it sends a peer's body, and then by one
    -- credit to one peer, or by one for the prompt and one for the completion.
    pub hub_handle-Earned :
        (r : Request) (s : Site W P F)
        → Earned (hub_handle links json c r s).1 s.cache (hub_handle links json c r s).0.cache
    unfolding hub_handle
    hub_handle-Earned r s =
        let is_earned : Site W P F × Reply → Type 0 = λ x. Earned x.1 s.cache x.0.cache in
        if_intro is_earned (links.client_gone s.world) (s, json_error 499 "Client Disconnected") _
          refl
          (if_intro is_earned (r.method == "OPTIONS") (s, preflight) _ refl
            (if_intro is_earned (not (r.method == "POST")) (s, json_error 405 "Only POST allowed")
              (read_body links json c r.path r.body s) refl (read_body-Earned r.path r.body s)))
