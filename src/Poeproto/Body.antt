-- ===== src/Poeproto/Body.antt =====
-- `Decode` of internal/poeproto/poeproto.go from the body of a request; the JSON decoder is a
-- parameter, and the body arrives without an error.
use Prim.Native.String.{◌++◌ as ◌+++◌}
use poe_acp_relay.Base.{
  Result, ok, err, ℕ, zero, suc, ◌*◌, ◌≤◌, Bool, true, false, [], ◌∷◌, ◌≡◌, refl, ap, arith, take,
  length, if◌then◌else◌,
}
use poe_acp_relay.Base.Bytes.{Bytes}
use poe_acp_relay.Poeproto.Requests.{Request, decode}

-- What is read of a body while debug logging is on.
abbrev debug_cap : ℕ
debug_cap = 16 * 1_024

-- The bytes that reach the decoder: with debug logging on, those that are kept for the log.
unfoldable pub read_body : ℕ → Bool → Bytes → Bytes
read_body cap debug body = if debug then take cap body else body

module _ (json : Bytes → Result Request) where
  decode_read : Bytes → Result Request
  decode_read body = elim (json body) [
    | err e ↦ err ("decode poe request: " +++ e)
    | ok req ↦ decode req
  ]

  -- `Decode`
  unfoldable pub decode_body : Bool → Bytes → Result Request
  unfolding decode_read read_body
  decode_body debug body = decode_read (read_body debug_cap debug body)

take_all : (n : ℕ) (body : Bytes) → length body ≤ n → take n body ≡ body
take_all zero [] h = refl
take_all zero (b ∷ body) h = absurd (omega arith)
take_all (suc n) [] h = refl
take_all (suc n) (b ∷ body) h = ap (λ rest. b ∷ rest) (take_all n body (omega arith))

-- Debug logging changes nothing for a body that fits in what is kept for the log.
decode_body-short :
    (json : Bytes → Result Request) (body : Bytes)
    → length body ≤ debug_cap
    → decode_body json true body ≡ decode_body json false body
unfolding decode_body decode_read read_body
decode_body-short json body h = rw (take_all debug_cap body h) refl
