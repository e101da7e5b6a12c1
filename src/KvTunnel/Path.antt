-- ===== src/KvTunnel/Path.antt =====
-- A request to the virtual address of a peer (p2p.go) reaches it through the tunnel (proxy.go).
use yuanyi.Base.{
  ℕ, suc, ℤ, pos, negsuc, Bool, true, not, [], ◌∷◌, ◌++◌, Option, some, ◌≡◌, ◌∙◌, refl, ap, arith,
  if◌then◌else◌, nat_eq, is_empty,
}
use yuanyi.Gateway.{uint16}
use yuanyi.Strings.{Text, codes, all_chars, cut_at, split_n, is_digit}
use yuanyi.Strings.Chars.{Clean-digits}
use yuanyi.Strings.Laws.{text_eq_refl}
use yuanyi.Telemetry.{show_int}
use yuanyi.KvTunnel.{
  KvRequest, OutRequest, Opening, stream_open, PeerOutcome, answer_of, target_of, vip_path,
  through_proxy, send_kv, after_opening, forward_kv, route_kv, handle_kv_tunnel, serve_kv,
}

-- Not a slash.
abbrev pub in_name : ℕ → Bool
in_name c = not (nat_eq c 47)

cut_at-append : (s t : Text) → all_chars in_name s ≡ true → cut_at 47 (s ++ 47 ∷ t) ≡ some (s, t)
unfolding cut_at all_chars
cut_at-append [] t h = refl
cut_at-append (c ∷ s) t h = ground (arith, cut_at-append s t)

digit_in_name : (d : ℕ) → is_digit d ≡ true → in_name d ≡ true
digit_in_name d h = ground arith

show_int-in_name : (n : ℤ) → all_chars in_name (show_int n) ≡ true
unfolding show_int all_chars
show_int-in_name (pos n) = Clean-digits in_name digit_in_name (suc n) n [] refl
show_int-in_name (negsuc n) = Clean-digits in_name digit_in_name (suc (suc n)) (suc n) [] refl

split_step :
    (n : ℕ) (s t : Text)
    → all_chars in_name s ≡ true
    → split_n 47 (suc n) (s ++ 47 ∷ t) ≡ s ∷ split_n 47 n t
unfolding split_n
split_step n s t h = rw (cut_at-append s t h, split_n) refl

-- The path of the local proxy falls into its parts.
split_n-vip_path :
    (id : Text) (port : ℤ) (rest : Text)
    → all_chars in_name id ≡ true
    → split_n 47 4 (vip_path id port (47 ∷ rest))
      ≡ [] ∷ codes "mooncake_kv" ∷ id ∷ show_int port ∷ rest ∷ []
unfolding all_chars split_n
split_n-vip_path id port rest h =
    split_step 3 [] (codes "mooncake_kv" ++ 47 ∷ (id ++ 47 ∷ (show_int port ++ 47 ∷ rest))) refl
    ∙ ap (λ l. [] ∷ l)
        (split_step 2 (codes "mooncake_kv") (id ++ 47 ∷ (show_int port ++ 47 ∷ rest)) refl
          ∙ ap (λ l. codes "mooncake_kv" ∷ l)
              (split_step 1 id (show_int port ++ 47 ∷ rest) h
                ∙ ap (λ l. id ∷ l) (split_step 0 (show_int port) rest (show_int-in_name port))))

module _ {W Rest A : Type 0} (atoi : Text → Option ℤ) (decodes : Text → Bool)
    (new_request : Text → Option Text) (open_stream : W → Text → ℕ → W × Opening)
    (send : W → Text → OutRequest Rest → W × PeerOutcome A) (host_of : Text → ℤ → Text) where
  handle_kv_tunnel-vip_path :
      (id path : Text) (port : ℤ) (r : KvRequest Rest) (w : W)
      → r.path ≡ vip_path id port (47 ∷ path)
      → atoi (show_int port) ≡ some port
      → decodes id ≡ true
      → all_chars in_name id ≡ true
      → handle_kv_tunnel atoi decodes new_request open_stream send host_of r w
        ≡ after_opening atoi decodes new_request open_stream send host_of id
            (record {
              target_path = target_of (path ∷ []) r.raw_query;
              host = host_of (show_int port) port;
              rest = r.rest;
            })
            (open_stream w id (uint16 port))
  unfolding handle_kv_tunnel route_kv forward_kv
  handle_kv_tunnel-vip_path id path port r w e read known plain =
      ap (λ parts. route_kv atoi decodes new_request open_stream send host_of parts r w)
        (ap (split_n 47 4) e ∙ split_n-vip_path id port path plain)
      ∙ rw (read, route_kv) (rw known refl)

  send_kv-target :
      (id target : Text) (out : OutRequest Rest) (w : W)
      → new_request out.target_path ≡ some target
      → send_kv atoi decodes new_request open_stream send host_of id out w
        ≡ answer_of (send w id (record out { target_path = target }))
  unfolding send_kv
  send_kv-target id target out w h = rw (h, send_kv) refl

  -- If strconv.Atoi reads back what %d prints, the ID is that of a peer and has no slash, the path
  -- behind the prefix is clean, http.NewRequest reads the path and the query that were asked for
  -- back as they are, and the stream to the peer opens, then a request to the peer's virtual address
  -- is sent to this peer and the configured port with its own path and query, with the header as the
  -- local proxy has rewritten it, and what the stream comes to is the answer.
  pub serve_kv-through_proxy :
      (clean_path : Text → Text) (rewrite : Rest → Rest) (id path query : Text) (port : ℤ)
      (rest : Rest) (w w' : W)
      → atoi (show_int port) ≡ some port
      → decodes id ≡ true
      → all_chars in_name id ≡ true
      → clean_path (vip_path id port (47 ∷ path)) ≡ vip_path id port (47 ∷ path)
      → new_request (if is_empty query then 47 ∷ path else (47 ∷ path) ++ 63 ∷ query)
        ≡ some (if is_empty query then 47 ∷ path else (47 ∷ path) ++ 63 ∷ query)
      → open_stream w id (uint16 port) ≡ (w', stream_open)
      → serve_kv atoi decodes new_request open_stream send host_of clean_path
          (through_proxy rewrite id port
            (record { path = 47 ∷ path; raw_query = query; rest = rest }))
          w
        ≡ answer_of (
            send w' id (record {
              target_path = if is_empty query then 47 ∷ path else (47 ∷ path) ++ 63 ∷ query;
              host = host_of (show_int port) port;
              rest = rewrite rest;
            }))
  unfolding serve_kv through_proxy after_opening send_kv
  serve_kv-through_proxy clean_path rewrite id path query port rest w w' read known plain clean back
        opens =
      let full = vip_path id port (47 ∷ path) in
      let r : KvRequest Rest = record { path = full; raw_query = query; rest = rewrite rest } in
      rw (clean, text_eq_refl full)
        (handle_kv_tunnel-vip_path id path port r w refl read known plain
          ∙ rw opens (
              send_kv-target id (target_of (path ∷ []) query)
                (record {
                  target_path = target_of (path ∷ []) query;
                  host = host_of (show_int port) port;
                  rest = rewrite rest;
                })
                w' back))
