-- ===== src/Tests/Tunnels.antt =====
-- The KV tunnel (proxy.go) at concrete paths.
use yuanyi.Base.{
  Bool, not, none, suc, nat_eq, if◌then◌else◌, ℕ, ℤ, pos, true, [], ◌∷◌, Option, some, ◌≡◌, refl,
  ◌*◌, ◌+◌, ◌-◌,
}
use yuanyi.Strings.{text_eq, Text, codes, all_chars, digits}
use yuanyi.Telemetry.{show_int}
use yuanyi.KvTunnel.{
  OutRequest, Opening, stream_open, PeerOutcome, responded, http_error, redirected_to, answer_of,
  through_proxy, handle_kv_tunnel, serve_kv, gateway_host,
}
use yuanyi.KvTunnel.Path.{serve_kv-through_proxy}

-- Decimal digits.
abbrev value_of : ℕ → Text → ℤ
value_of n [] = pos n
value_of n (c ∷ s) = value_of (10 * n + (c - 48)) s

abbrev atoi : Text → Option ℤ
atoi s = some (value_of 0 s)

-- What is sent for a target: a percent sign is an error here.
abbrev new_request : Text → Option Text
new_request s = if all_chars (λ c. not (nat_eq c 37)) s then some s else none

-- The world counts the streams and the calls, and the peer answers with the target that it gets.
abbrev open_stream : ℕ → Text → ℕ → ℕ × Opening
open_stream w id port = (w + 1, stream_open)

abbrev echo : ℕ → Text → OutRequest ℕ → ℕ × PeerOutcome (Text × ℕ)
echo w id r = (w + 1, responded (r.target_path, r.rest))

abbrev known : Text → Bool
known id = true

-- A path with two slashes at its end loses them.
abbrev clean_path : Text → Text
clean_path p = if text_eq p (codes "/mooncake_kv/x/1//") then codes "/mooncake_kv/x/1/" else p

serve_kv-through_proxy_example :
    serve_kv atoi known new_request open_stream echo gateway_host clean_path
      (through_proxy suc
        (codes "peer-one")
        (pos 8998)
        (record { path = codes "/query"; raw_query = codes "a=1"; rest = 0 }))
      4
    ≡ answer_of (
        echo 5 (codes "peer-one") (record {
          target_path = codes "/query?a=1";
          host = gateway_host (show_int (pos 8998)) (pos 8998);
          rest = 1;
        }))
unfolding show_int digits all_chars text_eq
serve_kv-through_proxy_example =
    serve_kv-through_proxy atoi known new_request open_stream echo gateway_host clean_path suc
      (codes "peer-one") (codes "query") (codes "a=1") (pos 8998) 0 4 5 refl refl refl refl refl
      refl

no_port :
    serve_kv atoi known new_request open_stream echo gateway_host clean_path
      (record { path = codes "/mooncake_kv/x"; raw_query = []; rest = 0 })
      4
    ≡ (4, http_error 400)
unfolding serve_kv handle_kv_tunnel text_eq
no_port = refl

not_clean :
    serve_kv atoi known new_request open_stream echo gateway_host clean_path
      (record { path = codes "/mooncake_kv/x/1//"; raw_query = []; rest = 0 })
      4
    ≡ (4, redirected_to (codes "/mooncake_kv/x/1/") [])
unfolding serve_kv text_eq
not_clean = refl

-- An escaped percent sign in the path that was asked for.
not_parsed :
    serve_kv atoi known new_request open_stream echo gateway_host clean_path
      (record { path = codes "/mooncake_kv/x/1/50%"; raw_query = []; rest = 0 })
      4
    ≡ (5, http_error 500)
unfolding serve_kv handle_kv_tunnel text_eq all_chars
not_parsed = refl
