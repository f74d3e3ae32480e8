-- ===== src/Rendezvous/Tests.antt =====
-- Concrete requests to the rendezvous service.
use peerline.Base.{
  ℕ, ◌≤◌, ◌≡◌, ◌↔◌, ◌⊎◌, refl, true, false, List, [], ◌∷◌, none, some, ok, arith, if◌then◌else◌,
  All, length, text_eq, retain, take, filter_map, any, all,
}
use peerline.Base.Text.{Text, codes, utf8, byte_len, is_alphanumeric, is_graphic}
use peerline.Base.Int.{pos}
use peerline.Rendezvous.Model.{PeerDescriptor, RegisterRequest, DiscoverResponse}
use peerline.Rendezvous.Library.{Library, Request, Method, get, post, delete, other}
use peerline.Rendezvous.Validate.{
  validate_descriptor, unsupported_version, no_endpoints, too_many_endpoints, any_invalid_endpoint,
  any_invalid_tunnel, is_valid_peer_id, is_valid_endpoint,
}
use peerline.Rendezvous.Reply.{done, discovered, ◌>>=◌, modify, lift, asks}
use peerline.Rendezvous.Validate.Exact.{IsAdvertisable, validate_descriptor_iff}
use peerline.Rendezvous.Signature.{sign_peerline_request, verify_peerline_request_signature}
use peerline.Rendezvous.Signature.Exact.{verify_peerline_request_signature_iff}
use peerline.Rendezvous.Table.{
  Registration, Store, cleanup_expired, delete_registrations, upsert_registration, select_cookie,
  insert_registration, select_live,
}
use peerline.Rendezvous.Table.Order.{IsWellFormed}
use peerline.Rendezvous.Table.View.{row_of, row_of-delete_registrations}
use peerline.Rendezvous.Table.Upsert.{Outcome, upsert_registration-Outcome}
use peerline.Rendezvous.Table.Page.{is_due, select_live_sound, IsNewest}
use peerline.Rendezvous.Shard.Pages.{read_registrations-read_registrations}
use peerline.Rendezvous.Table.Rates.{hits, served, requests_of, served_within_limit}
use peerline.Rendezvous.Auth.{ShardConfig}
use peerline.Rendezvous.Shard.{
  fetch, returning, record_of_row, read_registrations, store_registration, stamped, run_upsert,
}
use peerline.Rendezvous.Shard.Access.{IsAdmitted, fetch_guarded}
use peerline.Rendezvous.Shard.Discovery.{Found, store_registration-discovered}
use peerline.Rendezvous.Shard.Guard.{IsDone}
use peerline.Rendezvous.Shard.Invariant.{fetch-IsWellFormed}

abbrev alice : Text
alice = codes "alice1"

abbrev bob : Text
bob = codes "bob2"

abbrev alice_descriptor : PeerDescriptor
alice_descriptor = record {
  protocol_version = 1;
  peer_id = alice;
  direct_endpoints = codes "10.0.0.1:43117" ∷ [];
  libp2p_endpoints = [];
  public_endpoints = [];
  tor_endpoints = [];
  i2p_endpoints = [];
  published_unix_ms = 1000000;
}

abbrev alice_request : RegisterRequest
alice_request = record { ttl_seconds = 120; descriptor = alice_descriptor }

abbrev name_of : Method → Text
name_of get = codes "GET"
name_of post = codes "POST"
name_of delete = codes "DELETE"
name_of (other name) = name

-- A library whose hashes are plain concatenation, and whose texts stand for one descriptor.
abbrev plain_library : Library
plain_library = record {
  hash = λ b. b;
  keyed_hash = λ k b. b;
  encode_base64url = λ b. b;
  method_name = name_of;
  encode_descriptor = λ d. ok d.peer_id;
  decode_descriptor = λ json. some alice_descriptor;
  decode_register = λ body. some alice_request;
  decode_discover = λ req. some (record { after_cookie = none; limit = none });
}

abbrev config : ShardConfig
config = record {
  schema_error = none;
  auth_token = some (codes "secret");
  require_mtls = false;
  allowed_client_cert_fingerprints = none;
  max_ttl_secs = 180;
}

-- Two live rows and one that runs out at 500.
abbrev row : ℕ → Text → ℕ → Registration
row cookie peer expires = record {
  cookie = cookie;
  peer_id = peer;
  expires_unix_ms = expires;
  descriptor_json = peer;
}

abbrev rows : List Registration
rows = row 2 bob 2000000 ∷ row 5 (codes "carol3") 500 ∷ row 6 (codes "dave4") 3000000 ∷ []

abbrev store : Store
store = record { registrations = rows; last_cookie = 6; rate_limits = [] }

store-IsWellFormed : IsWellFormed store
unfolding text_eq
store-IsWellFormed = record {
  cookies = omega arith;
  peers = ((refl, (refl, tt)), ((refl, tt), (tt, tt)));
}

-- A request with no headers: it has no version and no signature.
abbrev bare_request : Request
bare_request = record {
  method = post;
  path =
      codes
        "/v1/namespaces/00112233445566778899aabbccddeeff00112233445566778899aabbccddeeff/registrations";
  url = none;
  header = λ name. ok none;
  tls_client_auth = none;
  body = ok [];
}

fetch_guarded_example :
    IsAdmitted plain_library config 1000000 bare_request
    ⊎ (¬ IsDone (fetch plain_library config 1000000 bare_request store).0)
      × ((fetch plain_library config 1000000 bare_request store).1 ≡ store)
fetch_guarded_example = fetch_guarded plain_library config 1000000 bare_request store

fetch-IsWellFormed_example : IsWellFormed (fetch plain_library config 1000000 bare_request store).1
fetch-IsWellFormed_example =
    fetch-IsWellFormed plain_library config 1000000 bare_request store store-IsWellFormed

upsert_registration-Outcome_example :
    Outcome alice 1120000 alice store (upsert_registration alice 1120000 alice store)
upsert_registration-Outcome_example =
    upsert_registration-Outcome alice 1120000 alice store store-IsWellFormed

alice_stamped : stamped 1000000 alice_descriptor ≡ alice_descriptor
unfolding stamped
alice_stamped = refl

few_live :
    length
      (cleanup_expired 1050000
        (store_registration plain_library config 1000000 alice_request store).1).registrations
    ≤ 32
unfolding store_registration ◌>>=◌ modify lift asks run_upsert upsert_registration select_cookie
    insert_registration cleanup_expired retain text_eq stamped
few_live = omega arith

store_registration-discovered_example :
    Found plain_library config 1000000 1050000 32 alice_request alice
      (store_registration plain_library config 1000000 alice_request store)
unfolding stamped
store_registration-discovered_example =
    store_registration-discovered plain_library config 1000000 1050000 32 alice_request alice store
      store-IsWellFormed (omega arith) refl refl (omega arith) few_live

row_of-delete_registrations_example :
    row_of alice (delete_registrations bob store).registrations
    ≡ (if text_eq bob alice then none else row_of alice rows)
row_of-delete_registrations_example = row_of-delete_registrations bob alice store

select_live_sound_example :
    All (λ r. is_due 1000000 2 r ≡ true) (select_live 1000000 2 32 rows)
    × (length (select_live 1000000 2 32 rows) ≤ 32)
select_live_sound_example = select_live_sound 1000000 2 32 rows

read_registrations-read_registrations_example :
    let (reply, s') = read_registrations plain_library config 1000000 0 1 store in
    (first : DiscoverResponse) × (reply ≡ done (returning false (discovered first)))
    × (first.records
        ≡ filter_map
            (record_of_row plain_library config 1000000)
            (take 1 (retain (is_due 1000000 0) rows)))
    × IsNewest 1000000 rows first.cookie
    × ((read_registrations plain_library config 1000000 first.cookie 32 s').0
        ≡ done (returning false (discovered (record { cookie = first.cookie; records = [] }))))
read_registrations-read_registrations_example =
    read_registrations-read_registrations plain_library config 1000000 0 1 32 store

abbrev calls : List (Text × ℕ)
calls = (alice, 60001) ∷ (bob, 60002) ∷ (alice, 60003) ∷ (alice, 119999) ∷ []

served_within_limit_example : served alice 2 calls store ≡ 2
unfolding requests_of text_eq hits
served_within_limit_example =
    served_within_limit alice 2 60000 0 calls store (omega arith) (refl, (refl, (refl, (refl, tt))))
      refl

validate_descriptor_iff_example :
    (validate_descriptor alice_descriptor ≡ ok tt) ↔ IsAdvertisable alice_descriptor
validate_descriptor_iff_example = validate_descriptor_iff alice_descriptor

alice_accepted : validate_descriptor alice_descriptor ≡ ok tt
unfolding validate_descriptor unsupported_version is_valid_peer_id no_endpoints too_many_endpoints
    any_invalid_endpoint any_invalid_tunnel is_valid_endpoint any all utf8 byte_len is_alphanumeric
    is_graphic
alice_accepted = refl

verify_peerline_request_signature_iff_example :
    (verify_peerline_request_signature plain_library alice (pos 17) alice bob [] alice ≡ true)
    ↔ (utf8 (sign_peerline_request plain_library alice (pos 17) alice bob []) ≡ utf8 alice)
verify_peerline_request_signature_iff_example =
    verify_peerline_request_signature_iff plain_library alice (pos 17) alice bob [] alice
