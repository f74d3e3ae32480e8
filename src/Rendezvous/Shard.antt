-- ===== src/Rendezvous/Shard.antt =====
-- services/peerline-rendezvous/src/lib.rs: `RendezvousShard`. `now` is the worker's clock, which
-- stands still while a request is handled; the statements run in the order of the source.
pub mod Keeps
pub mod Invariant
pub mod Guard
pub mod Access
pub mod Discovery
pub mod Pages
use mathlib.Core.Option
use peerline.Base.{
  ℕ, ◌+◌, ◌*◌, ◌%◌, Bool, true, false, not, ◌&&◌, List, [], ◌∷◌, ◌++◌, Option, none, some, Result,
  ok, err, ltb, leb, ◌==◌, if◌then◌else◌, length, filter_map, find_first, text_eq,
}
use peerline.Base.Text.{Text, codes}
use peerline.Base.Int.{decimal, i64_max}
use peerline.Rendezvous.Model.{
  PeerDescriptor, RendezvousRecord, RegisterRequest, DiscoverRequest, descriptor_protocol_version,
}
use peerline.Rendezvous.Library.{
  Library, Request, Method, get, post, delete, other, Url, WorkerError,
}
use peerline.Rendezvous.Validate.{validate_descriptor, is_valid_peer_id}
use peerline.Rendezvous.Route.{
  namespace_from_path, is_valid_namespace, is_json_request, client_ip, request_id,
}
use peerline.Rendezvous.Table.{
  Registration, Store, cleanup_expired, upsert_registration, select_live, max_live_cookie,
  count_registrations, delete_registrations, count_request,
}
use peerline.Rendezvous.Auth.{ShardConfig, verify_request}
use peerline.Rendezvous.Reply.{
  Body, message, registered, discovered, unregistered, Response, Reply, done, refused, failed,
  Handler, ◌>>=◌, ◌>>◌, asks, modify, update, lift, check, require, accept, RequestTelemetry,
}

abbrev pub default_discover_limit : ℕ
default_discover_limit = 32

abbrev pub max_discover_limit : ℕ
max_discover_limit = 128

abbrev pub max_request_bytes : ℕ
max_request_bytes = 32 * 1024

abbrev pub register_rate_limit : ℕ
register_rate_limit = 30

abbrev pub unregister_rate_limit : ℕ
unregister_rate_limit = 60

abbrev pub discover_rate_limit : ℕ
discover_rate_limit = 120

-- `Ord::clamp`.
abbrev pub clamp : ℕ → ℕ → ℕ → ℕ
clamp least most n = if ltb n least then least else if ltb most n then most else n

unfoldable pub sqlite_cookie : ℕ → Option ℕ
sqlite_cookie cookie = if leb cookie i64_max then some cookie else none

unfoldable pub unregister_peer_id : Request → Option Text
unregister_peer_id req = Option.bind req.url λ url.
    Option.map (λ pair. pair.1)
      (find_first (λ pair. text_eq pair.0 (codes "peer_id")) url.query_pairs)

abbrev pub returning : Bool → Body → Response
returning created body = record {
  status = if created then 201 else 200;
  body = body;
  request_id = none;
}

-- The descriptor as it is stored: the service's own version, and the time of this request.
unfoldable pub stamped : ℕ → PeerDescriptor → PeerDescriptor
stamped now descriptor = record descriptor {
  protocol_version = descriptor_protocol_version;
  published_unix_ms = now;
}

-- An error of `exec` ends the request, and leaves the tables as they were.
abbrev pub from_upsert : Store → Result WorkerError (ℕ × Bool × Store) → Reply (ℕ × Bool) × Store
from_upsert s (ok (cookie, was_refresh, s')) = (done (cookie, was_refresh), s')
from_upsert s (err e) = (failed e, s)

unfoldable pub run_upsert : Text → ℕ → Text → Handler (ℕ × Bool)
run_upsert peer expires json s = from_upsert s (upsert_registration peer expires json s)

module _ (lib : Library) where
  -- `RequestTelemetry::from_request`.
  unfoldable pub from_request : ℕ → Request → Handler RequestTelemetry
  from_request now req = do
    id ← lift (request_id req (codes "peerline-" ++ decimal now))
    asks (λ _. record { request_id = id; path = req.path })

  unfoldable pub rate_key : Text → Request → Text → Text
  rate_key namespace req ip = namespace ++ (b':' ∷ lib.method_name req.method) ++ (b':' ∷ ip)

  unfoldable pub enforce_rate_limit : Text → ℕ → Request → ℕ → Handler Bool
  unfolding rate_key
  enforce_rate_limit namespace now req limit = do
    ip ← lift (client_ip req)
    update (count_request (rate_key namespace req ip) now limit)

module _ (lib : Library) (config : ShardConfig) (now : ℕ) where
  -- `register` from the clock read on: the request is authentic, within its rate, and valid.
  unfoldable pub store_registration : RegisterRequest → Handler Response
  unfolding stamped
  store_registration request = do
    let expires_unix_ms = now + clamp 1 config.max_ttl_secs request.ttl_seconds * 1000
    modify (cleanup_expired now)
    let descriptor = stamped now request.descriptor
    descriptor_json ← lift (lib.encode_descriptor descriptor)
    row ← run_upsert descriptor.peer_id expires_unix_ms descriptor_json
    asks λ _. returning (not row.1) (
        registered (record {
          cookie = row.0;
          peer_record = record {
            sequence = row.0;
            expires_unix_ms = expires_unix_ms;
            descriptor = descriptor;
          };
        }))

  unfoldable pub register : Text → Request → RequestTelemetry → Handler Response
  unfolding store_registration enforce_rate_limit
  register namespace req telemetry = do
    json ← lift (is_json_request req)
    check json telemetry "content type must be application/json" 415
    body ← lift req.body
    check (leb (length body) max_request_bytes) telemetry "payload too large" 413
    accept telemetry (verify_request lib config now req body)
    allowed ← enforce_rate_limit lib namespace now req register_rate_limit
    check allowed telemetry "rate limit exceeded" 429
    request ← require (lib.decode_register body) telemetry "invalid registration payload" 400
    accept telemetry (validate_descriptor request.descriptor)
    store_registration request

  -- A row whose descriptor does not parse is left out.
  unfoldable pub record_of_row : Registration → Option RendezvousRecord
  record_of_row row =
      Option.map
        (λ descriptor. record {
          sequence = row.cookie;
          expires_unix_ms = row.expires_unix_ms;
          descriptor = descriptor;
        })
        (lib.decode_descriptor row.descriptor_json)

  -- `discover` from the clock read on.
  unfoldable pub read_registrations : ℕ → ℕ → Handler Response
  unfolding record_of_row
  read_registrations after_cookie limit = do
    modify (cleanup_expired now)
    asks λ s. returning false (
        discovered (record {
          cookie = max_live_cookie now s.registrations;
          records = filter_map record_of_row (select_live now after_cookie limit s.registrations);
        }))

  unfoldable pub discover : Text → Request → RequestTelemetry → Handler Response
  unfolding read_registrations enforce_rate_limit sqlite_cookie
  discover namespace req telemetry = do
    accept telemetry (verify_request lib config now req [])
    allowed ← enforce_rate_limit lib namespace now req discover_rate_limit
    check allowed telemetry "rate limit exceeded" 429
    query ← require (lib.decode_discover req) telemetry "invalid discover query" 400
    after_cookie ←
        require (sqlite_cookie (Option.get_or query.after_cookie 0)) telemetry
          "invalid discover cursor" 400
    let limit = clamp 1 max_discover_limit (Option.get_or query.limit default_discover_limit)
    read_registrations after_cookie limit

  abbrev pub valid_unregister_peer : Request → Option Text
  valid_unregister_peer req = elim (unregister_peer_id req) [
    | none ↦ none
    | some peer_id ↦ if is_valid_peer_id peer_id then some peer_id else none
  ]

  -- `unregister` from the clock read on.
  unfoldable pub remove_registrations : Text → Handler Response
  remove_registrations peer_id = do
    modify (cleanup_expired now)
    removed ← asks λ s. count_registrations peer_id s.registrations % 4294967296
    modify (delete_registrations peer_id)
    asks λ _. returning false (unregistered (record { removed = removed }))

  unfoldable pub unregister : Text → Request → RequestTelemetry → Handler Response
  unfolding remove_registrations enforce_rate_limit
  unregister namespace req telemetry = do
    accept telemetry (verify_request lib config now req [])
    allowed ← enforce_rate_limit lib namespace now req unregister_rate_limit
    check allowed telemetry "rate limit exceeded" 429
    peer_id ← require (valid_unregister_peer req) telemetry "invalid peer id" 400
    remove_registrations peer_id

  abbrev is_none : Option Text → Bool
  is_none none = true
  is_none (some e) = false

  dispatch : Method → Text → Request → RequestTelemetry → Handler Response
  dispatch post namespace req telemetry = register namespace req telemetry
  dispatch get namespace req telemetry = discover namespace req telemetry
  dispatch delete namespace req telemetry = unregister namespace req telemetry
  dispatch (other name) namespace req telemetry = require none telemetry "method not allowed" 405

  unfoldable pub fetch : Request → Handler Response
  unfolding dispatch from_request
  fetch req = do
    telemetry ← from_request lib now req
    namespace ← require (namespace_from_path telemetry.path) telemetry "not found" 404
    check (is_valid_namespace namespace) telemetry "invalid namespace" 400
    check (is_none config.schema_error) telemetry "storage schema unavailable" 500
    dispatch req.method namespace req telemetry
