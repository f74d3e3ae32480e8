-- ===== src/Rendezvous/Shard/Discovery.antt =====
-- lib.rs of the service: a look-up after a registration.
use peerline.Base.{
  ℕ, ◌+◌, ◌*◌, ◌≤◌, ◌<◌, ◌≡◌, refl, ◌∙◌, Bool, false, not, some, ok, err, arith, ◌==◌, length,
  length-retain-le, find_first, filter_map, text_eq_refl,
}
use peerline.Base.Text.{Text}
use peerline.Base.Int.{i64_max}
use peerline.Rendezvous.Model.{RendezvousRecord, RegisterRequest, DiscoverResponse}
use peerline.Rendezvous.Library.{Library}
use peerline.Rendezvous.Table.{
  Registration, Store, cleanup_expired, upsert_registration, select_live, max_live_cookie,
}
use peerline.Rendezvous.Table.Order.{
  IsWellFormed, cleanup_expired-IsWellFormed, upsert_registration-IsWellFormed, After,
}
use peerline.Rendezvous.Table.View.{row_of, row_of-cleanup_expired}
use peerline.Rendezvous.Table.Upsert.{Stored, Outcome, UpsertResult, upsert_registration-Outcome}
use peerline.Rendezvous.Table.Page.{page_complete, is_due, row_above}
use peerline.Rendezvous.Auth.{ShardConfig}
use peerline.Rendezvous.Reply.{
  Response, Reply, done, registered, discovered, ◌>>=◌, asks, modify, lift,
}
use peerline.Rendezvous.Shard.{
  clamp, stamped, returning, run_upsert, from_upsert, store_registration, record_of_row,
  read_registrations,
}

-- When a registration that is made at `now` runs out.
abbrev pub expiry : ShardConfig → ℕ → RegisterRequest → ℕ
expiry config now request = now + clamp 1 config.max_ttl_secs request.ttl_seconds * 1000

abbrev pub record_for : ShardConfig → ℕ → RegisterRequest → ℕ → RendezvousRecord
record_for config now request cookie = record {
  sequence = cookie;
  expires_unix_ms = expiry config now request;
  descriptor = stamped now request.descriptor;
}

abbrev pub registered_as : ShardConfig → ℕ → RegisterRequest → ℕ → Bool → Response
registered_as config now request cookie was_refresh =
    returning (not was_refresh)
      (registered (record { cookie = cookie; peer_record = record_for config now request cookie }))

abbrev upsert_of : ShardConfig → ℕ → RegisterRequest → Text → Store → UpsertResult
upsert_of config now request json s =
    upsert_registration (stamped now request.descriptor).peer_id (expiry config now request) json
      (cleanup_expired now s)

module _ (lib : Library) (config : ShardConfig) (now : ℕ) (request : RegisterRequest) where
  store_registration_run :
      (s s' : Store) (json : Text) (cookie : ℕ) (was_refresh : Bool)
      → lib.encode_descriptor (stamped now request.descriptor) ≡ ok json
      → upsert_of config now request json s ≡ ok (cookie, was_refresh, s')
      → store_registration lib config now request s
        ≡ (done (registered_as config now request cookie was_refresh), s')
  unfolding store_registration ◌>>=◌ asks modify lift run_upsert
  store_registration_run s s' json cookie was_refresh e u =
      rw (e, ◌>>=◌, lift) (rw (u, run_upsert, from_upsert) refl)

page_of : Library → ShardConfig → ℕ → ℕ → Store → DiscoverResponse
page_of lib config later limit s = record {
  cookie = max_live_cookie later (cleanup_expired later s).registrations;
  records =
      filter_map (record_of_row lib config later)
        (select_live later 0 limit (cleanup_expired later s).registrations);
}

read_registrations_run :
    (lib : Library) (config : ShardConfig) (later limit : ℕ) (s : Store)
    → (read_registrations lib config later 0 limit s).0
      ≡ done (returning false (discovered (page_of lib config later limit s)))
unfolding read_registrations ◌>>=◌ asks modify page_of
read_registrations_run lib config later limit s = refl

row_live :
    (peer : Text) (later : ℕ) (r : Registration) (s : Store)
    → IsWellFormed s
    → row_of peer s.registrations ≡ some r
    → later < r.expires_unix_ms
    → row_of peer (cleanup_expired later s).registrations ≡ some r
row_live peer later r s w e live =
    row_of-cleanup_expired later peer s w ∙ rw e (ground (arith, live))

-- The records carry the cookies of their rows.
record_of_row_numbered :
    (lib : Library) (config : ShardConfig) (now : ℕ) (r : Registration) (b : RendezvousRecord)
    → record_of_row lib config now r ≡ some b
    → b.sequence ≡ r.cookie
unfolding record_of_row
record_of_row_numbered lib config now r b e = ground arith

module _ (lib : Library) (config : ShardConfig) (now later limit : ℕ) (request : RegisterRequest)
    (json : Text) where
  -- The page of a store that has the row of the registration.
  Stored-discovered :
      (s s' : Store) (cookie : ℕ) (was_refresh : Bool)
      → IsWellFormed s'
      → Stored request.descriptor.peer_id (expiry config now request) json s cookie was_refresh s'
      → lib.decode_descriptor json ≡ some (stamped now request.descriptor)
      → later < expiry config now request
      → length (cleanup_expired later s').registrations ≤ limit
      → find_first (λ r. r.sequence == cookie) (page_of lib config later limit s').records
        ≡ some (record_for config now request cookie)
  unfolding page_of record_of_row
  Stored-discovered s s' cookie was_refresh w stored d live fits =
      let peer = request.descriptor.peer_id in
      let row : Registration = record {
        cookie = cookie;
        peer_id = peer;
        expires_unix_ms = expiry config now request;
        descriptor_json = json;
      } in
      let there : row_of peer s'.registrations ≡ some row =
        stored.view peer ∙ rw (text_eq_refl peer) refl in
      let positive = row_above peer 0 s'.last_cookie s'.registrations row w.cookies there in
      let w' = cleanup_expired-IsWellFormed later s' w in
      page_complete (record_of_row lib config later) (λ r. r.sequence)
        (record_of_row_numbered lib config later) later 0 limit
        (cleanup_expired later s').last_cookie peer (cleanup_expired later s').registrations row _
        w'.cookies (row_live peer later row s' w there live) (ground (arith, live, positive))
        (rw d refl)
        (omega (arith, length-retain-le (is_due later 0) (cleanup_expired later s').registrations))

  -- What a client sees: the reply to the registration, and the page of a later look-up.
  abbrev pub Found : Reply Response × Store → Type 0
  Found (reply, s') =
      (cookie : ℕ) × (was_refresh : Bool) × (page : DiscoverResponse) × (reply
        ≡ done (registered_as config now request cookie was_refresh))
      × ((read_registrations lib config later 0 limit s').0
          ≡ done (returning false (discovered page)))
      × (find_first (λ r. r.sequence == cookie) page.records
          ≡ some (record_for config now request cookie))

  Found-of :
      (s : Store) (r : UpsertResult)
      → upsert_of config now request json s ≡ r
      → Outcome request.descriptor.peer_id
          (expiry config now request)
          json
          (cleanup_expired now s)
          r
      → After IsWellFormed r
      → s.last_cookie < i64_max
      → lib.encode_descriptor (stamped now request.descriptor) ≡ ok json
      → lib.decode_descriptor json ≡ some (stamped now request.descriptor)
      → later < expiry config now request
      → length (cleanup_expired later (store_registration lib config now request s).1).registrations
        ≤ limit
      → Found (store_registration lib config now request s)
  unfolding cleanup_expired
  Found-of s (err e) u o w room enc dec live fits = absurd (omega (arith, o.2))
  Found-of s (ok (cookie, was_refresh, s')) u o w room enc dec live fits =
      let ran = store_registration_run lib config now request s s' json cookie was_refresh enc u in
      rw ran (
        cookie,
        was_refresh,
        page_of lib config later limit s',
        refl,
        read_registrations_run lib config later limit s',
        Stored-discovered (cleanup_expired now s) s' cookie was_refresh w o dec live
            (rw ran at fits),
      )

-- On well-formed tables with a cookie left, and a descriptor that serializes and parses back, a
-- registration succeeds; and a look-up from the start, at any time before its expiry and with room for
-- all live rows, answers a page in which the cookie of the registration finds its record.
pub store_registration-discovered :
    (lib : Library) (config : ShardConfig) (now later limit : ℕ) (request : RegisterRequest)
    (json : Text) (s : Store)
    → IsWellFormed s
    → s.last_cookie < i64_max
    → lib.encode_descriptor (stamped now request.descriptor) ≡ ok json
    → lib.decode_descriptor json ≡ some (stamped now request.descriptor)
    → later < expiry config now request
    → length (cleanup_expired later (store_registration lib config now request s).1).registrations
      ≤ limit
    → Found lib config now later limit request json (store_registration lib config now request s)
unfolding stamped
store_registration-discovered lib config now later limit request json s w room enc dec live fits =
    let peer = (stamped now request.descriptor).peer_id in
    let w' = cleanup_expired-IsWellFormed now s w in
    Found-of lib config now later limit request json s (upsert_of config now request json s) refl
      (upsert_registration-Outcome _ _ _ _ w') (upsert_registration-IsWellFormed _ _ _ _ w') room
      enc dec live fits
