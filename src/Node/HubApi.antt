-- ===== src/Node/HubApi.antt =====
-- What peers can reach of the hub API, and the buffered response (p2p.go).
use yuanyi.Base.{
  ℕ, true, false, List, [], ◌∷◌, ◌++◌, Option, none, some, ◌≡◌, refl, ap, ◌∙◌, sym, if◌then◌else◌,
  Bool-cases, inl, inr, nat_eq, All,
}
use mathlib.Core.List.{append_assoc, append-nil}
use yuanyi.Strings.{Text}
use yuanyi.Node.{
  StreamReply, WriterCall, write, write_header, StreamResponseWriter, apply_calls, Mux, served_path,
  hub_api_stream, response_of,
}

-- A peer reaches nothing of the hub's mux but the paths below /hub/api/ that are not below
-- /hub/api/debug/: two muxes that agree on these answer every peer alike.
pub hub_api_stream-served :
    {W : Type 0} (mux mux' : Mux W) (path : Option Text) (world : W)
    → ((w : W) (p : Text) → served_path p ≡ true → mux w p ≡ mux' w p)
    → hub_api_stream (some mux) path world ≡ hub_api_stream (some mux') path world
unfolding hub_api_stream
hub_api_stream-served mux mux' none world same = refl
hub_api_stream-served mux mux' (some path) world same = elim (Bool-cases (served_path path)) [
  | inl e ↦ rw e (ap response_of (same world path e))
  | inr e ↦ rw e refl
]

-- The status of a response as net/http defines it: the first WriteHeader, or 200 once the body
-- starts or the handler ends.
abbrev pub first_status : List WriterCall → ℕ
first_status [] = 200
first_status (write b ∷ cs) = 200
first_status (write_header c ∷ cs) = c

abbrev pub written : List WriterCall → Text
written [] = []
written (write b ∷ cs) = b ++ written cs
written (write_header c ∷ cs) = written cs

-- A status code.
abbrev pub IsStatus : WriterCall → Type 0
IsStatus (write b) = Unit
IsStatus (write_header c) = nat_eq c 0 ≡ false

abbrev writer : ℕ → Text → StreamResponseWriter
writer code body = record { code = code; body = body }

kept : (code other : ℕ) → nat_eq code 0 ≡ false → (if nat_eq code 0 then other else code) ≡ code
kept code other h = rw h refl

apply_calls-set :
    (code : ℕ) (body : Text) (cs : List WriterCall)
    → nat_eq code 0 ≡ false
    → apply_calls cs (writer code body) ≡ writer code (body ++ written cs)
unfolding apply_calls
apply_calls-set code body [] h = ap (writer code) (sym (append-nil body))
apply_calls-set code body (write b ∷ cs) h =
    ap (λ (k : ℕ). apply_calls cs (writer k (body ++ b))) (kept code 200 h)
    ∙ apply_calls-set code (body ++ b) cs h
    ∙ ap (writer code) (append_assoc body b (written cs))
apply_calls-set code body (write_header c ∷ cs) h =
    ap (λ (k : ℕ). apply_calls cs (writer k body)) (kept code c h) ∙ apply_calls-set code body cs h

abbrev reply_with : {W : Type 0} → W → StreamResponseWriter → W × StreamReply
reply_with world rec =
    (world, StreamReply.replied (if nat_eq rec.code 0 then 200 else rec.code) rec.body)

-- The buffered response has the status and the body that net/http would send, if no handler asks
-- for status 0.
pub response_of_lem :
    {W : Type 0} (world : W) (calls : List WriterCall)
    → All IsStatus calls
    → response_of (world, calls) ≡ (world, StreamReply.replied (first_status calls) (written calls))
unfolding apply_calls
response_of_lem world [] h = refl
response_of_lem world (write b ∷ cs) h = ap (reply_with world) (apply_calls-set 200 b cs refl)
response_of_lem world (write_header c ∷ cs) h =
    ap (reply_with world) (apply_calls-set c [] cs h.0)
    ∙ ap (λ (k : ℕ). (world, StreamReply.replied k (written cs))) (kept c 200 h.0)
