-- ===== src/Rendezvous/Table/Order.antt =====
-- Well-formed tables: the order of the cookies, the last one given, and one row at most for a peer.
use peerline.Base.{
  ℕ, suc, ◌≤◌, ◌<◌, ◌≡◌, refl, Bool, false, List, [], ◌∷◌, ◌++◌, map, none, Result, ok, err, arith,
  All, All-retain, All-append, retain, ltb, Option-cases, text_eq, text_eq_iff, Bool-cases, inl,
  inr,
}
use peerline.Base.Text.{Text}
use peerline.Base.Int.{i64_max}
use peerline.Rendezvous.Library.{WorkerError}
use peerline.Rendezvous.Table.{
  Registration, Store, empty_store, cleanup_expired, select_cookie, update_row,
  refresh_registration, insert_registration, upsert_registration, delete_registrations,
  count_request, inserted,
}

-- Cookies rise from above `lo`, and stay within `last`.
abbrev pub Ascends : ℕ → List Registration → ℕ → Type 0
Ascends lo [] last = lo ≤ last
Ascends lo (r ∷ rs) last = (lo < r.cookie) × Ascends r.cookie rs last

abbrev pub OtherPeer : Text → Registration → Type 0
OtherPeer peer r = text_eq r.peer_id peer ≡ false

-- No two rows are of one peer.
abbrev pub OneRowEach : List Registration → Type 0
OneRowEach [] = Unit
OneRowEach (r ∷ rs) = All (OtherPeer r.peer_id) rs × OneRowEach rs

pub record IsWellFormed (s : Store) : Type 0 where
  pub cookies : Ascends 0 s.registrations s.last_cookie
  pub peers : OneRowEach s.registrations

pub empty_store-IsWellFormed : IsWellFormed empty_store
unfolding empty_store
empty_store-IsWellFormed = record { cookies = omega arith; peers = tt }

Ascends-le : (lo last : ℕ) (rs : List Registration) → Ascends lo rs last → lo ≤ last
Ascends-le lo last [] h = h
Ascends-le lo last (r ∷ rs) h = omega (arith, Ascends-le r.cookie last rs h.1)

Ascends-mono :
    (lo hi last : ℕ) (rs : List Registration) → lo ≤ hi → Ascends hi rs last → Ascends lo rs last
Ascends-mono lo hi last [] h k = omega arith
Ascends-mono lo hi last (r ∷ rs) h k = (omega arith, k.1)

pub Ascends-retain :
    (p : Registration → Bool) (lo last : ℕ) (rs : List Registration)
    → Ascends lo rs last
    → Ascends lo (retain p rs) last
unfolding retain
Ascends-retain p lo last [] h = h
Ascends-retain p lo last (r ∷ rs) h = elim (Bool-cases (p r)) [
  | inl e ↦ rw e (h.0, Ascends-retain p r.cookie last rs h.1)
  | inr e ↦ rw e (
      Ascends-mono lo r.cookie last (retain p rs) (omega arith)
        (Ascends-retain p r.cookie last rs h.1))
]

OneRowEach-retain :
    (p : Registration → Bool) (rs : List Registration) → OneRowEach rs → OneRowEach (retain p rs)
unfolding retain
OneRowEach-retain p [] h = tt
OneRowEach-retain p (r ∷ rs) h = elim (Bool-cases (p r)) [
  | inl e ↦ rw e (All-retain (OtherPeer r.peer_id) p rs h.0, OneRowEach-retain p rs h.1)
  | inr e ↦ rw e (OneRowEach-retain p rs h.1)
]

update_row_peer :
    (c e : ℕ) (json : Text) (r : Registration) → (update_row c e json r).peer_id ≡ r.peer_id
update_row_peer c e json r = ground arith

update_row_cookie :
    (c e : ℕ) (json : Text) (r : Registration) → (update_row c e json r).cookie ≡ r.cookie
update_row_cookie c e json r = ground arith

Ascends-update :
    (c e : ℕ) (json : Text) (lo last : ℕ) (rs : List Registration)
    → Ascends lo rs last
    → Ascends lo (map (update_row c e json) rs) last
Ascends-update c e json lo last [] h = h
Ascends-update c e json lo last (r ∷ rs) h =
    rw (update_row_cookie c e json r) (h.0, Ascends-update c e json r.cookie last rs h.1)

OtherPeer-update :
    (c e : ℕ) (json peer : Text) (rs : List Registration)
    → All (OtherPeer peer) rs
    → All (OtherPeer peer) (map (update_row c e json) rs)
OtherPeer-update c e json peer [] h = tt
OtherPeer-update c e json peer (r ∷ rs) h =
    (rw (update_row_peer c e json r) h.0, OtherPeer-update c e json peer rs h.1)

OneRowEach-update :
    (c e : ℕ) (json : Text) (rs : List Registration)
    → OneRowEach rs
    → OneRowEach (map (update_row c e json) rs)
OneRowEach-update c e json [] h = tt
OneRowEach-update c e json (r ∷ rs) h =
    rw (update_row_peer c e json r)
      (OtherPeer-update c e json r.peer_id rs h.0, OneRowEach-update c e json rs h.1)

-- `select_cookie` finds no row exactly if every row is another peer's.
pub select_cookie-none :
    (peer : Text) (rs : List Registration) → select_cookie peer rs ≡ none → All (OtherPeer peer) rs
unfolding select_cookie
select_cookie-none peer [] h = tt
select_cookie-none peer (r ∷ rs) h = elim (Bool-cases (text_eq r.peer_id peer)) [
  | inl e ↦ absurd (ground arith)
  | inr e ↦ (e, select_cookie-none peer rs (ground arith))
]

text_eq_sym_false : (s t : Text) → text_eq s t ≡ false → text_eq t s ≡ false
text_eq_sym_false s t h = ground (arith, text_eq_iff s t, text_eq_iff t s)

OneRowEach-insert :
    (rs : List Registration) (r : Registration)
    → All (OtherPeer r.peer_id) rs
    → OneRowEach rs
    → OneRowEach (rs ++ r ∷ [])
OneRowEach-insert [] r h k = (tt, tt)
OneRowEach-insert (q ∷ rs) r h k = (
  All-append (OtherPeer q.peer_id) rs (r ∷ []) k.0 (text_eq_sym_false q.peer_id r.peer_id h.0, tt),
  OneRowEach-insert rs r h.1 k.1,
)

Ascends-insert :
    (lo last : ℕ) (rs : List Registration) (r : Registration)
    → Ascends lo rs last
    → r.cookie ≡ suc last
    → Ascends lo (rs ++ r ∷ []) (suc last)
Ascends-insert lo last [] r h e = (omega arith, omega arith)
Ascends-insert lo last (q ∷ rs) r h e = (h.0, Ascends-insert q.cookie last rs r h.1 e)

pub cleanup_expired-IsWellFormed :
    (now : ℕ) (s : Store) → IsWellFormed s → IsWellFormed (cleanup_expired now s)
unfolding cleanup_expired
cleanup_expired-IsWellFormed now s w = record {
  cookies = Ascends-retain _ 0 s.last_cookie s.registrations w.cookies;
  peers = OneRowEach-retain _ s.registrations w.peers;
}

pub delete_registrations-IsWellFormed :
    (peer : Text) (s : Store) → IsWellFormed s → IsWellFormed (delete_registrations peer s)
unfolding delete_registrations
delete_registrations-IsWellFormed peer s w = record {
  cookies = Ascends-retain _ 0 s.last_cookie s.registrations w.cookies;
  peers = OneRowEach-retain _ s.registrations w.peers;
}

pub count_request-IsWellFormed :
    (key : Text) (now limit : ℕ) (s : Store)
    → IsWellFormed s
    → IsWellFormed (count_request key now limit s).1
unfolding count_request
count_request-IsWellFormed key now limit s w = record { cookies = w.cookies; peers = w.peers }

-- The tables after a registration, if it was stored.
abbrev pub After {ℓ} : (Store → Type ℓ) → Result WorkerError (ℕ × Bool × Store) → Type ℓ
After P (ok (cookie, was_refresh, s)) = P s
After P (err e) = Unit

refreshed-IsWellFormed :
    (peer : Text) (cookie expires : ℕ) (json : Text) (s : Store)
    → IsWellFormed s
    → IsWellFormed
        (record s { registrations = refresh_registration peer cookie expires json s.registrations })
unfolding refresh_registration
refreshed-IsWellFormed peer cookie expires json s w = record {
  cookies =
      Ascends-retain _ 0 s.last_cookie _
        (Ascends-update cookie expires json 0 s.last_cookie s.registrations w.cookies);
  peers = OneRowEach-retain _ _ (OneRowEach-update cookie expires json s.registrations w.peers);
}

inserted-IsWellFormed :
    (peer : Text) (expires : ℕ) (json : Text) (s : Store)
    → IsWellFormed s
    → All (OtherPeer peer) s.registrations
    → After IsWellFormed (inserted (insert_registration peer expires json s))
unfolding insert_registration
inserted-IsWellFormed peer expires json s w h = elim (Bool-cases (ltb s.last_cookie i64_max)) [
  | inl room ↦
      rw (room, insert_registration)
        (record {
          cookies = Ascends-insert 0 s.last_cookie s.registrations _ w.cookies refl;
          peers = OneRowEach-insert s.registrations _ h w.peers;
        })
  | inr full ↦ rw (full, insert_registration) tt
]

-- Registering keeps the tables well formed, as a refresh and as a new row.
pub upsert_registration-IsWellFormed :
    (peer : Text) (expires : ℕ) (json : Text) (s : Store)
    → IsWellFormed s
    → After IsWellFormed (upsert_registration peer expires json s)
unfolding upsert_registration
upsert_registration-IsWellFormed peer expires json s w =
    elim (Option-cases (select_cookie peer s.registrations)) [
      | inl new ↦
          rw (new, upsert_registration)
            (inserted-IsWellFormed peer expires json s w
              (select_cookie-none peer s.registrations new))
      | inr (cookie, old) ↦
          rw (old, upsert_registration) (refreshed-IsWellFormed peer cookie expires json s w)
    ]
