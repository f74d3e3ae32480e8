-- ===== src/Rendezvous/Route.antt =====
-- services/peerline-rendezvous/src/lib.rs: how a request's path and headers are read.
use mathlib.Core.Option
use peerline.Base.{
  ℕ, Bool, false, ◌&&◌, ◌||◌, List, [], ◌∷◌, map, Option, none, some, Result, ok, ◌>>=◌, leb, ◌==◌,
  if◌then◌else◌, take, is_empty, all, retain, text_eq,
}
use peerline.Base.Text.{
  Text, codes, utf8, byte_len, is_graphic, is_digit, is_hex_digit, is_whitespace, to_lower, trim,
  trim_matches, split, first_part, eq_ignore_case,
}
use peerline.Rendezvous.Library.{Request, WorkerError}

abbrev pub max_request_id_len : ℕ
max_request_id_len = 128

-- The five `parts.next()` of a path whose parts are these.
registration_parts : List Text → Option Text
unfolding text_eq
registration_parts (v ∷ n ∷ namespace ∷ r ∷ []) =
    if text_eq v (codes "v1") && text_eq n (codes "namespaces") && text_eq r (codes "registrations")
    then some namespace
    else none
registration_parts parts = none

unfoldable pub namespace_from_path : Text → Option Text
unfolding registration_parts trim_matches split
namespace_from_path path =
    registration_parts (split (λ c. c == b'/') (trim_matches (λ c. c == b'/') path))

unfoldable pub is_valid_namespace : Text → Bool
is_valid_namespace namespace =
    byte_len namespace == 64
    && all (λ byte. is_digit byte || leb b'a' byte && leb byte b'f') (utf8 namespace)

unfoldable pub is_json_content_type : Text → Bool
unfolding first_part trim eq_ignore_case
is_json_content_type content_type =
    eq_ignore_case (trim (first_part (λ c. c == b';') content_type)) (codes "application/json")

unfoldable pub is_json_request : Request → Result WorkerError Bool
is_json_request req = do
  content_type ← req.header (codes "content-type")
  ok (elim content_type [ none ↦ false | some value ↦ is_json_content_type value ])

abbrev non_empty : Option Text → Option Text
non_empty none = none
non_empty (some value) = if is_empty value then none else some value

abbrev or_unknown : Option Text → Text
or_unknown none = codes "unknown"
or_unknown (some value) = value

unfoldable pub client_ip : Request → Result WorkerError Text
client_ip req = do
  forwarded ← req.header (codes "cf-connecting-ip")
  ok (
      or_unknown
        (non_empty (Option.map (λ value. trim (first_part (λ c. c == b',') value)) forwarded)))

unfoldable pub sanitized_header_value : Text → Option Text
unfolding trim is_graphic retain
sanitized_header_value raw =
    non_empty (some (take max_request_id_len (retain is_graphic (trim raw))))

abbrev and_then : Option Text → (Text → Option Text) → Option Text
and_then none f = none
and_then (some t) f = f t

-- The loop over the header names of `request_id`; `fallback` is `peerline-` and the time.
first_request_id : Request → List Text → Text → Result WorkerError Text
unfolding sanitized_header_value
first_request_id req [] fallback = ok fallback
first_request_id req (name ∷ names) fallback = do
  value ← req.header name
  elim (and_then value sanitized_header_value) [
    | none ↦ first_request_id req names fallback
    | some id ↦ ok id
  ]

unfoldable pub request_id : Request → Text → Result WorkerError Text
unfolding first_request_id
request_id req fallback =
    first_request_id req (codes "x-request-id" ∷ codes "cf-ray" ∷ codes "traceparent" ∷ []) fallback

unfoldable pub normalize_cert_fingerprint : Text → Text
unfolding is_hex_digit to_lower retain
normalize_cert_fingerprint raw = map to_lower (retain is_hex_digit raw)

unfoldable pub fingerprints_from_raw : Text → List Text
unfolding normalize_cert_fingerprint split retain byte_len is_whitespace
fingerprints_from_raw raw =
    retain (λ fingerprint. byte_len fingerprint == 64)
      (map normalize_cert_fingerprint (split (λ c. c == b',' || is_whitespace c) raw))
