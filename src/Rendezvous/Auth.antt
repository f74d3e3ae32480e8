-- ===== src/Rendezvous/Auth.antt =====
-- services/peerline-rendezvous/src/lib.rs: `verify_request` and the checks that it chooses from.
use Prim.Native.String.{String}
use peerline.Base.{
  ℕ, Bool, true, not, List, Option, none, some, Result, ok, err, ◌>>=◌, ◌>>◌, ensure, ok_or, ltb,
  if◌then◌else◌, any, is_empty, text_eq,
}
use peerline.Base.Text.{Text, Bytes, codes, trim, eq_ignore_case}
use peerline.Base.Int.{parse_i64, abs_diff}
use mathlib.Core.Option
use peerline.Rendezvous.Library.{Library, Request, TlsClientAuth, WorkerError}
use peerline.Rendezvous.Validate.{Rejection, reject}
use peerline.Rendezvous.Route.{normalize_cert_fingerprint}
use peerline.Rendezvous.Signature.{request_path_and_query, verify_peerline_request_signature}

abbrev pub signature_skew_ms : ℕ
signature_skew_ms = 300000

abbrev pub header_timestamp : Text
header_timestamp = codes "x-peerline-timestamp"

abbrev pub header_signature : Text
header_signature = codes "x-peerline-signature"

abbrev pub header_version : Text
header_version = codes "x-peerline-version"

-- The fields that `RendezvousShard::new` reads from the environment.
pub record ShardConfig : Type 0 where
  pub schema_error : Option Text
  pub auth_token : Option Text
  pub require_mtls : Bool
  pub allowed_client_cert_fingerprints : Option (List Text)
  pub max_ttl_secs : ℕ

abbrev pub rejection : String → ℕ → Rejection
rejection message status = record { message = message; status = status }

-- `map_err` on the read of a header.
abbrev pub header_or : Result WorkerError (Option Text) → String → Result Rejection (Option Text)
header_or (ok value) message = ok value
header_or (err e) message = reject message 400

abbrev is_blank : Option Text → Bool
is_blank none = true
is_blank (some version) = is_empty (trim version)

unfoldable pub verify_peerline_version : Request → Result Rejection (Unit {0})
verify_peerline_version req = do
  version ← header_or (req.header header_version) "invalid version header"
  ensure (not (is_blank version)) (rejection "missing peerline version" 401)

abbrev is_allowed : Option (List Text) → Text → Bool
is_allowed none fingerprint = true
is_allowed (some allowed) fingerprint =
    any (λ f. text_eq f (normalize_cert_fingerprint fingerprint)) allowed

unfoldable pub verify_tls_client_auth : ShardConfig → TlsClientAuth → Result Rejection (Unit {0})
verify_tls_client_auth config auth = do
  ensure (text_eq auth.cert_presented (codes "1")) (rejection "client certificate required" 401)
  ensure (eq_ignore_case auth.cert_verified (codes "SUCCESS"))
      (rejection "invalid client certificate" 401)
  ensure (is_allowed config.allowed_client_cert_fingerprints auth.cert_fingerprint_sha256)
      (rejection "unauthorized client certificate" 403)

module _ (lib : Library) where
  unfoldable pub verify_hmac_request :
      ShardConfig → ℕ → Request → Bytes → Result Rejection (Unit {0})
  verify_hmac_request config now req body = do
    token ← ok_or config.auth_token (rejection "rendezvous auth secret is not configured" 500)
    sent ← header_or (req.header header_timestamp) "invalid timestamp header"
    timestamp ← ok_or (Option.bind sent parse_i64) (rejection "missing request timestamp" 401)
    ensure (not (ltb signature_skew_ms (abs_diff now timestamp)))
        (rejection "stale request timestamp" 401)
    signed ← header_or (req.header header_signature) "invalid signature header"
    signature ← ok_or signed (rejection "missing request signature" 401)
    url ← ok_or req.url (rejection "invalid request URL" 400)
    ensure
        (verify_peerline_request_signature lib token timestamp (lib.method_name req.method)
          (request_path_and_query url.path url.query) body signature)
        (rejection "invalid request signature" 401)

  -- `cf().and_then(tls_client_auth)`, kept only if a certificate was presented.
  abbrev pub presented : Request → Option TlsClientAuth
  presented req = elim req.tls_client_auth [
    | none ↦ none
    | some auth ↦ if text_eq auth.cert_presented (codes "1") then some auth else none
  ]

  unfoldable pub verify_request : ShardConfig → ℕ → Request → Bytes → Result Rejection (Unit {0})
  unfolding verify_peerline_version verify_tls_client_auth verify_hmac_request
  verify_request config now req body = do
    verify_peerline_version req
    elim (presented req) [
      | some auth ↦ verify_tls_client_auth config auth
      | none ↦
          if config.require_mtls
          then reject "client certificate required" 401
          else verify_hmac_request config now req body
    ]
