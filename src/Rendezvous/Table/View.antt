-- ===== src/Rendezvous/Table/View.antt =====
-- The registrations seen as a map from peers to their rows: each statement is one change of the map.
use peerline.Base.{
  ℕ, ◌≤◌, ◌<◌, ◌≡◌, refl, ap, ◌∙◌, true, not, ◌&&◌, List, [], ◌∷◌, ◌++◌, map, Option, none, some,
  arith, if◌then◌else◌, ◌==◌, All, retain, find_first, text_eq, text_eq_sound, text_eq_iff,
  Bool-cases, inl, inr,
}
use peerline.Base.Text.{Text}
use peerline.Rendezvous.Table.{
  Registration, Store, is_live, cleanup_expired, select_cookie, update_row, refresh_registration,
  delete_registrations,
}
use peerline.Rendezvous.Table.Order.{Ascends, OtherPeer, OneRowEach, IsWellFormed}

-- The row of a peer.
unfoldable pub row_of : Text → List Registration → Option Registration
unfolding find_first
row_of peer rs = find_first (λ r. text_eq r.peer_id peer) rs

abbrev pub keep_live : ℕ → Option Registration → Option Registration
keep_live now none = none
keep_live now (some r) = if is_live now r then some r else none

pub row_of-others :
    (peer : Text) (rs : List Registration) → All (OtherPeer peer) rs → row_of peer rs ≡ none
unfolding row_of
row_of-others peer [] h = refl
row_of-others peer (r ∷ rs) h = rw h.0 (row_of-others peer rs h.1)

-- Rows of other peers than `r`'s are other than `peer`'s, if `r` is `peer`'s.
others_of :
    (peer : Text) (r : Registration) (rs : List Registration)
    → text_eq r.peer_id peer ≡ true
    → All (OtherPeer r.peer_id) rs
    → All (OtherPeer peer) rs
others_of peer r rs e h = rw (text_eq_sound r.peer_id peer e) at h

row_of-live :
    (now : ℕ) (peer : Text) (rs : List Registration)
    → OneRowEach rs
    → row_of peer (retain (is_live now) rs) ≡ keep_live now (row_of peer rs)
unfolding row_of retain
row_of-live now peer [] h = refl
row_of-live now peer (r ∷ rs) h = elim (Bool-cases (is_live now r)) [
  | inl live ↦ elim (Bool-cases (text_eq r.peer_id peer)) [
    | inl same ↦ rw (live, same) (rw live refl)
    | inr new ↦ rw (live, new) (row_of-live now peer rs h.1)
  ]
  | inr dead ↦ elim (Bool-cases (text_eq r.peer_id peer)) [
    | inl same ↦
        rw (dead, same)
          (rw dead (
            row_of-live now peer rs h.1
            ∙ ap (keep_live now) (row_of-others peer rs (others_of peer r rs same h.0))))
    | inr new ↦ rw (dead, new) (row_of-live now peer rs h.1)
  ]
]

pub row_of-cleanup_expired :
    (now : ℕ) (peer : Text) (s : Store)
    → IsWellFormed s
    → row_of peer (cleanup_expired now s).registrations
      ≡ keep_live now (row_of peer s.registrations)
unfolding cleanup_expired
row_of-cleanup_expired now peer s w = row_of-live now peer s.registrations w.peers

row_of-retain_others :
    (peer p : Text) (rs : List Registration)
    → row_of p (retain (λ r. not (text_eq r.peer_id peer)) rs)
      ≡ (if text_eq peer p then none else row_of p rs)
unfolding row_of retain
row_of-retain_others peer p [] = ground arith
row_of-retain_others peer p (r ∷ rs) = ground (
  arith,
  row_of-retain_others peer p rs,
  text_eq_iff r.peer_id peer,
  text_eq_iff r.peer_id p,
  text_eq_iff peer p,
)

-- Deleting a peer's registrations leaves it without a row, and every other peer with the row it had.
pub row_of-delete_registrations :
    (peer p : Text) (s : Store)
    → row_of p (delete_registrations peer s).registrations
      ≡ (if text_eq peer p then none else row_of p s.registrations)
unfolding delete_registrations
row_of-delete_registrations peer p s = row_of-retain_others peer p s.registrations

pub row_of-insert :
    (p : Text) (rs : List Registration) (r : Registration)
    → All (OtherPeer r.peer_id) rs
    → row_of p (rs ++ r ∷ []) ≡ (if text_eq r.peer_id p then some r else row_of p rs)
unfolding row_of
row_of-insert p [] r h = refl
row_of-insert p (q ∷ rs) r h = ground (
  arith,
  row_of-insert p rs r h.1,
  text_eq_iff q.peer_id p,
  text_eq_iff r.peer_id p,
  text_eq_iff q.peer_id r.peer_id,
)

select_cookie-above :
    (peer : Text) (lo last c : ℕ) (rs : List Registration)
    → Ascends lo rs last
    → select_cookie peer rs ≡ some c
    → lo < c
unfolding select_cookie
select_cookie-above peer lo last c [] h e = absurd (ground arith)
select_cookie-above peer lo last c (r ∷ rs) h e =
    ground (arith, select_cookie-above peer r.cookie last c rs h.1)

-- Rows above a cookie are not the row of that cookie.
update_above :
    (c e lo last : ℕ) (json : Text) (rs : List Registration)
    → c ≤ lo
    → Ascends lo rs last
    → map (update_row c e json) rs ≡ rs
update_above c e lo last json [] h k = refl
update_above c e lo last json (r ∷ rs) h k =
    ground (arith, update_above c e r.cookie last json rs (omega arith) k.1)

retain_same :
    (peer : Text) (c : ℕ) (rs : List Registration)
    → All (OtherPeer peer) rs
    → retain (λ r. not (text_eq r.peer_id peer && not (r.cookie == c))) rs ≡ rs
unfolding retain
retain_same peer c [] h = refl
retain_same peer c (r ∷ rs) h = ground (arith, retain_same peer c rs h.1)

pub row_of-refresh :
    (peer p : Text) (c e lo last : ℕ) (json : Text) (rs : List Registration)
    → Ascends lo rs last
    → OneRowEach rs
    → select_cookie peer rs ≡ some c
    → row_of p (refresh_registration peer c e json rs) ≡ (
        if text_eq peer p
        then some
            (record { cookie = c; peer_id = peer; expires_unix_ms = e; descriptor_json = json })
        else row_of p rs)
unfolding row_of select_cookie refresh_registration retain
row_of-refresh peer p c e lo last json [] h k f = absurd (ground arith)
row_of-refresh peer p c e lo last json (r ∷ rs) h k f = elim (Bool-cases (text_eq r.peer_id peer)) [
  | inl same ↦
      let others = others_of peer r rs same k.0 in
      ground (
        arith,
        same,
        update_above c e r.cookie last json rs,
        h.1,
        retain_same peer c rs others,
        text_eq_sound r.peer_id peer,
        text_eq_iff r.peer_id p,
        text_eq_iff peer p,
      )
  | inr new ↦ ground (
    arith,
    new,
    row_of-refresh peer p c e r.cookie last json rs h.1 k.1,
    select_cookie-above peer r.cookie last c rs h.1,
    text_eq_iff r.peer_id p,
    text_eq_iff peer p,
    text_eq_iff r.peer_id peer,
  )
]
