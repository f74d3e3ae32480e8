-- ===== src/Rendezvous/Table/Upsert.antt =====
-- What the statements of `register` do to the map of registrations, and the cookie they give.
use peerline.Base.{
  ℕ, suc, ◌≤◌, ◌≡◌, refl, Bool, true, false, none, some, Result, ok, err, ◌⊎◌, inl, inr, arith, ltb,
  if◌then◌else◌, text_eq, Bool-cases, Option-cases,
}
use peerline.Base.Text.{Text}
use peerline.Base.Int.{i64_max}
use peerline.Rendezvous.Library.{WorkerError, storage_full}
use peerline.Rendezvous.Table.{
  Store, select_cookie, insert_registration, inserted, upsert_registration,
}
use peerline.Rendezvous.Table.Order.{IsWellFormed, select_cookie-none}
use peerline.Rendezvous.Table.View.{row_of, row_of-refresh, row_of-insert, row_of-others}

-- A registration was stored under `cookie`: what the tables say before and after.
pub record Stored (peer : Text) (expires : ℕ) (json : Text) (s : Store) (cookie : ℕ)
    (was_refresh : Bool) (s' : Store) : Type 0 where
  pub view :
      (p : Text)
      → row_of p s'.registrations ≡ (
          if text_eq peer p
          then some (record {
            cookie = cookie;
            peer_id = peer;
            expires_unix_ms = expires;
            descriptor_json = json;
          })
          else row_of p s.registrations)
  pub cookie_of :
      (was_refresh ≡ true)
        × (select_cookie peer s.registrations ≡ some cookie)
        × (s'.last_cookie ≡ s.last_cookie)
      ⊎ (was_refresh ≡ false)
        × (row_of peer s.registrations ≡ none)
        × (cookie ≡ suc s.last_cookie)
        × (s'.last_cookie ≡ cookie)

abbrev pub UpsertResult : Type 0
UpsertResult = Result WorkerError (ℕ × Bool × Store)

-- The outcome of a registration: stored, or no cookie left for a new peer.
abbrev pub Outcome : Text → ℕ → Text → Store → UpsertResult → Type 0
Outcome peer expires json s (ok (cookie, was_refresh, s')) =
    Stored peer expires json s cookie was_refresh s'
Outcome peer expires json s (err e) =
    (e ≡ storage_full) × (row_of peer s.registrations ≡ none) × (i64_max ≤ s.last_cookie)

upsert_new :
    (peer : Text) (expires : ℕ) (json : Text) (s : Store)
    → IsWellFormed s
    → select_cookie peer s.registrations ≡ none
    → Outcome peer expires json s (inserted (insert_registration peer expires json s))
unfolding insert_registration
upsert_new peer expires json s w new =
    let others = select_cookie-none peer s.registrations new in
    elim (Bool-cases (ltb s.last_cookie i64_max)) [
      | inl room ↦
          rw (room, insert_registration)
            (record {
              view = λ p. row_of-insert p s.registrations _ others;
              cookie_of = inr (refl, row_of-others peer s.registrations others, refl, refl);
            })
      | inr full ↦
          rw (full, insert_registration)
            (refl, row_of-others peer s.registrations others, ground (arith, full))
    ]

-- On well-formed tables a registration fails only if the peer has no row and no cookie is left.
-- Otherwise the peer's row is the new one, every other peer's row is the one before, and the cookie is
-- the peer's own if it had a row, else the one after the last given, which is then the last given.
pub upsert_registration-Outcome :
    (peer : Text) (expires : ℕ) (json : Text) (s : Store)
    → IsWellFormed s
    → Outcome peer expires json s (upsert_registration peer expires json s)
unfolding upsert_registration
upsert_registration-Outcome peer expires json s w =
    elim (Option-cases (select_cookie peer s.registrations)) [
      | inl new ↦ rw (new, upsert_registration) (upsert_new peer expires json s w new)
      | inr (cookie, old) ↦
          rw (old, upsert_registration)
            (record {
              view = λ p.
                  row_of-refresh peer p cookie expires 0 s.last_cookie json s.registrations
                    w.cookies w.peers old;
              cookie_of = inl (refl, old, refl);
            })
    ]
