-- ===== src/Rendezvous/Table.antt =====
-- The two tables of services/peerline-rendezvous/src/lib.rs and the SQL statements run on them.
-- A table is the list of its rows in the order of their keys; `last_cookie` is the row of
-- `sqlite_sequence` that AUTOINCREMENT keeps, so a cookie is never given twice. Times are
-- milliseconds since 1970 and not negative; `now - 120000` below 0 selects no row, as 0 does.
pub mod Order
pub mod View
pub mod Upsert
pub mod Page
pub mod Rates
use Prim.Native.Nat.{◌%◌, max, min}
use peerline.Base.{
  ℕ, ◌+◌, ◌-◌, ◌*◌, suc, Bool, true, false, not, ◌&&◌, List, [], ◌∷◌, ◌++◌, map, Option, none, some,
  Result, ok, err, ltb, leb, ◌==◌, if◌then◌else◌, take, retain, length, text_eq,
}
use peerline.Base.Text.{Text}
use peerline.Base.Int.{i64_max}
use peerline.Rendezvous.Library.{WorkerError, storage_full}

pub record Registration : Type 0 where
  pub cookie : ℕ
  pub peer_id : Text
  pub expires_unix_ms : ℕ
  pub descriptor_json : Text

pub record RateLimit : Type 0 where
  pub key : Text
  pub window_start_ms : ℕ
  pub count : ℕ

pub record Store : Type 0 where
  pub registrations : List Registration
  pub last_cookie : ℕ
  pub rate_limits : List RateLimit

-- `install_schema`: the tables of a new shard.
unfoldable pub empty_store : Store
empty_store = record { registrations = []; last_cookie = 0; rate_limits = [] }

abbrev pub rate_window_ms : ℕ
rate_window_ms = 60000

abbrev pub is_live : ℕ → Registration → Bool
is_live now r = ltb now r.expires_unix_ms

-- DELETE FROM registrations WHERE expires_unix_ms <= now;
-- DELETE FROM rate_limits WHERE window_start_ms < now - 2 * RATE_WINDOW_MS;
unfoldable pub cleanup_expired : ℕ → Store → Store
cleanup_expired now s = record s {
  registrations = retain (is_live now) s.registrations;
  rate_limits = retain (λ l. leb (now - rate_window_ms * 2) l.window_start_ms) s.rate_limits;
}

-- SELECT cookie FROM registrations WHERE peer_id = ? ORDER BY cookie ASC LIMIT 1;
unfoldable pub select_cookie : Text → List Registration → Option ℕ
select_cookie peer [] = none
select_cookie peer (r ∷ rs) =
    if text_eq r.peer_id peer then some r.cookie else select_cookie peer rs

-- UPDATE registrations SET expires_unix_ms = ?, descriptor_json = ? WHERE cookie = ?;
abbrev pub update_row : ℕ → ℕ → Text → Registration → Registration
update_row cookie expires json r =
    if r.cookie == cookie then record r { expires_unix_ms = expires; descriptor_json = json } else r

-- ... then DELETE FROM registrations WHERE peer_id = ? AND cookie <> ?;
unfoldable pub refresh_registration : Text → ℕ → ℕ → Text → List Registration → List Registration
refresh_registration peer cookie expires json rs =
    retain (λ r. not (text_eq r.peer_id peer && not (r.cookie == cookie)))
      (map (update_row cookie expires json) rs)

-- INSERT INTO registrations(...) VALUES (...) RETURNING cookie; a full sequence is an error.
unfoldable pub insert_registration : Text → ℕ → Text → Store → Result WorkerError (ℕ × Store)
insert_registration peer expires json s =
    if ltb s.last_cookie i64_max
    then ok (
      suc s.last_cookie,
      record s {
        registrations =
            s.registrations
            ++ record {
              cookie = suc s.last_cookie;
              peer_id = peer;
              expires_unix_ms = expires;
              descriptor_json = json;
            }
              ∷ [];
        last_cookie = suc s.last_cookie;
      },
    )
    else err storage_full

abbrev pub inserted : Result WorkerError (ℕ × Store) → Result WorkerError (ℕ × Bool × Store)
inserted (ok (cookie, s)) = ok (cookie, false, s)
inserted (err e) = err e

-- The statements of `register`: the cookie, whether it was there before, and the tables after.
unfoldable pub upsert_registration : Text → ℕ → Text → Store → Result WorkerError (ℕ × Bool × Store)
upsert_registration peer expires json s = elim (select_cookie peer s.registrations) [
  | some cookie ↦ ok (
    cookie,
    true,
    record s { registrations = refresh_registration peer cookie expires json s.registrations },
  )
  | none ↦ inserted (insert_registration peer expires json s)
]

-- SELECT ... WHERE expires_unix_ms > ? AND cookie > ? ORDER BY cookie ASC LIMIT ?;
unfoldable pub select_live : ℕ → ℕ → ℕ → List Registration → List Registration
select_live now after_cookie limit rs =
    take limit (retain (λ r. is_live now r && ltb after_cookie r.cookie) rs)

-- SELECT COALESCE(MAX(cookie), 0) FROM registrations WHERE expires_unix_ms > ?;
unfoldable pub max_live_cookie : ℕ → List Registration → ℕ
max_live_cookie now [] = 0
max_live_cookie now (r ∷ rs) =
    let rest = max_live_cookie now rs in if is_live now r then max r.cookie rest else rest

-- SELECT COUNT(*) FROM registrations WHERE peer_id = ?;
unfoldable pub count_registrations : Text → List Registration → ℕ
count_registrations peer rs = length (retain (λ r. text_eq r.peer_id peer) rs)

-- DELETE FROM registrations WHERE peer_id = ?;
unfoldable pub delete_registrations : Text → Store → Store
delete_registrations peer s = record s {
  registrations = retain (λ r. not (text_eq r.peer_id peer)) s.registrations;
}

-- The SET clause of the upsert in `enforce_rate_limit`.
unfoldable pub bump_count : ℕ → ℕ → RateLimit → RateLimit
bump_count window_start limit_plus_one l =
    if l.window_start_ms == window_start
    then record l {
      count = if ltb limit_plus_one (l.count + 1) then limit_plus_one else l.count + 1;
    }
    else record l { window_start_ms = window_start; count = 1 }

-- INSERT INTO rate_limits(...) ON CONFLICT(key) DO UPDATE SET ... RETURNING count;
unfoldable pub upsert_rate_limit : Text → ℕ → ℕ → List RateLimit → ℕ × List RateLimit
unfolding bump_count
upsert_rate_limit key window_start limit_plus_one [] =
    (1, record { key = key; window_start_ms = window_start; count = 1 } ∷ [])
upsert_rate_limit key window_start limit_plus_one (l ∷ ls) =
    let (n, rest) = upsert_rate_limit key window_start limit_plus_one ls in
    if text_eq l.key key
    then (
      (bump_count window_start limit_plus_one l).count,
      bump_count window_start limit_plus_one l ∷ ls,
    )
    else (n, l ∷ rest)

-- `limit.saturating_add(1)` of a u32.
abbrev saturating_suc : ℕ → ℕ
saturating_suc n = min (n + 1) 4294967295

-- `enforce_rate_limit`, for a key and a time: the test and the tables after.
unfoldable pub count_request : Text → ℕ → ℕ → Store → Bool × Store
unfolding upsert_rate_limit
count_request key now limit s =
    let (count, limits) =
      upsert_rate_limit key (now - now % rate_window_ms) (saturating_suc limit) s.rate_limits in
    (leb count limit, record s { rate_limits = limits })
