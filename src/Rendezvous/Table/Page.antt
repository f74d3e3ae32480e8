-- ===== src/Rendezvous/Table/Page.antt =====
-- The rows that a page of `discover` holds, and their order.
use peerline.Base.{
  ℕ, zero, suc, ◌≤◌, ◌<◌, ◌≡◌, refl, Bool, true, ◌&&◌, List, [], ◌∷◌, Option, none, some, arith,
  ltb, ◌==◌, All, All-retain_test, All-take, retain, take, length, length-take, find_first,
  filter_map, Bool-cases, Option-cases, inl, inr, any, ◌⊎◌,
}
use peerline.Base.Text.{Text}
use peerline.Rendezvous.Table.{Registration, is_live, select_live, max_live_cookie}
use peerline.Rendezvous.Table.Order.{Ascends, Ascends-retain}
use peerline.Rendezvous.Table.View.{row_of}

abbrev pub is_due : ℕ → ℕ → Registration → Bool
is_due now after_cookie r = is_live now r && ltb after_cookie r.cookie

take_all {ℓ} : {A : Type ℓ} (n : ℕ) (xs : List A) → length xs ≤ n → take n xs ≡ xs
take_all zero [] h = refl
take_all zero (x ∷ xs) h = absurd (omega arith)
take_all (suc n) [] h = refl
take_all (suc n) (x ∷ xs) h = λ i. x ∷ take_all n xs (omega arith) i

take_nil {ℓ} : {A : Type ℓ} (n : ℕ) → take {A = A} n [] ≡ []
take_nil zero = refl
take_nil (suc n) = refl

-- Every row that `select_live` gives is live and past the cursor, and there are at most `limit`.
pub select_live_sound :
    (now after_cookie limit : ℕ) (rs : List Registration)
    → All (λ r. is_due now after_cookie r ≡ true) (select_live now after_cookie limit rs)
      × (length (select_live now after_cookie limit rs) ≤ limit)
unfolding select_live
select_live_sound now after_cookie limit rs = (
  All-take (λ r. is_due now after_cookie r ≡ true) limit _ (All-retain_test _ rs),
  omega (arith, length-take limit (retain (is_due now after_cookie) rs)),
)

none_due :
    (now cursor : ℕ) (rs : List Registration)
    → max_live_cookie now rs ≤ cursor
    → retain (is_due now cursor) rs ≡ []
unfolding max_live_cookie retain
none_due now cursor [] h = refl
none_due now cursor (r ∷ rs) h = ground (arith, none_due now cursor rs)

abbrev has_cookie : ℕ → Registration → Bool
has_cookie c r = r.cookie == c

no_cookie :
    (p : Registration → Bool) (c lo last : ℕ) (rs : List Registration)
    → c ≤ lo
    → Ascends lo rs last
    → find_first (has_cookie c) (retain p rs) ≡ none
unfolding find_first retain
no_cookie p c lo last [] h k = refl
no_cookie p c lo last (r ∷ rs) h k =
    ground (arith, no_cookie p c r.cookie last rs (omega arith) k.1)

pub row_above :
    (peer : Text) (lo last : ℕ) (rs : List Registration) (r : Registration)
    → Ascends lo rs last
    → row_of peer rs ≡ some r
    → lo < r.cookie
unfolding row_of find_first
row_above peer lo last [] r h e = absurd (ground arith)
row_above peer lo last (q ∷ rs) r h e = ground (arith, row_above peer q.cookie last rs r h.1)

-- The peer's row is found in the page by its cookie.
find_row :
    (p : Registration → Bool) (peer : Text) (lo last : ℕ) (rs : List Registration)
    (r : Registration)
    → Ascends lo rs last
    → row_of peer rs ≡ some r
    → p r ≡ true
    → find_first (has_cookie r.cookie) (retain p rs) ≡ some r
unfolding row_of find_first retain
find_row p peer lo last [] r h e t = absurd (ground arith)
find_row p peer lo last (q ∷ rs) r h e t =
    ground (arith, find_row p peer q.cookie last rs r h.1, row_above peer q.cookie last rs r h.1)

-- The rows as the records of a page, with the records' own numbers.
module _ {ℓ} {B : Type ℓ} (f : Registration → Option B) (sequence : B → ℕ)
    (numbered : (r : Registration) (b : B) → f r ≡ some b → sequence b ≡ r.cookie) where
  no_record :
      (c lo last : ℕ) (rs : List Registration)
      → c ≤ lo
      → Ascends lo rs last
      → find_first (λ b. sequence b == c) (filter_map f rs) ≡ none
  unfolding find_first filter_map
  no_record c lo last [] h k = refl
  no_record c lo last (r ∷ rs) h k =
      let rest = no_record c r.cookie last rs (omega arith) k.1 in
      elim (Option-cases (f r)) [
        | inl e ↦ rw (e, filter_map) rest
        | inr (b, e) ↦ rw (e, filter_map) (ground (arith, rest, numbered r b e, k.0))
      ]

  pub find_record :
      (r : Registration) (b : B) (lo last : ℕ) (rs : List Registration)
      → Ascends lo rs last
      → find_first (has_cookie r.cookie) rs ≡ some r
      → f r ≡ some b
      → find_first (λ b. sequence b == r.cookie) (filter_map f rs) ≡ some b
  unfolding find_first filter_map
  find_record r b lo last [] h e t = absurd (ground arith)
  find_record r b lo last (q ∷ rs) h e t = elim (Bool-cases (q.cookie == r.cookie)) [
    | inl same ↦
        let here : q ≡ r = ground (arith, same, e) in
        rw (here, filter_map) (rw (t, filter_map) (ground (arith, numbered r b t)))
    | inr new ↦
        let rest = find_record r b q.cookie last rs h.1 (ground (arith, new, e)) t in
        elim (Option-cases (f q)) [
          | inl none_there ↦ rw (none_there, filter_map) rest
          | inr (c, there) ↦ rw (there, filter_map) (ground (arith, rest, numbered q c there, new))
        ]
  ]

-- The page of all rows past the cursor has a peer's record, if its row is there, is live and parses.
pub page_complete {ℓ} :
    {B : Type ℓ} (f : Registration → Option B) (sequence : B → ℕ)
    (numbered : (r : Registration) (b : B) → f r ≡ some b → sequence b ≡ r.cookie)
    (now cursor limit last : ℕ) (peer : Text) (rs : List Registration) (r : Registration) (b : B)
    → Ascends 0 rs last
    → row_of peer rs ≡ some r
    → is_due now cursor r ≡ true
    → f r ≡ some b
    → length (retain (is_due now cursor) rs) ≤ limit
    → find_first (λ b. sequence b == r.cookie) (filter_map f (select_live now cursor limit rs))
      ≡ some b
unfolding select_live
page_complete f sequence numbered now cursor limit last peer rs r b asc e due t fits =
    rw (take_all limit (retain (is_due now cursor) rs) fits) (
      find_record f sequence numbered r b 0 last _ (Ascends-retain _ 0 last rs asc)
        (find_row (is_due now cursor) peer 0 last rs r asc e due) t)

pub none_past :
    (now limit : ℕ) (rs : List Registration)
    → take limit (retain (is_due now (max_live_cookie now rs)) rs) ≡ []
none_past now limit rs =
    rw (none_due now (max_live_cookie now rs) rs (omega arith)) (take_nil limit)

-- Forgetting the rows that have run out changes no page and not the greatest cookie.
pub retain_due-live :
    (now cursor : ℕ) (rs : List Registration)
    → retain (is_due now cursor) (retain (is_live now) rs) ≡ retain (is_due now cursor) rs
unfolding retain
retain_due-live now cursor [] = refl
retain_due-live now cursor (r ∷ rs) =
    let rest = retain_due-live now cursor rs in
    elim (Bool-cases (is_live now r)) [
      | inr dead ↦ rw dead rest
      | inl live ↦ elim (Bool-cases (ltb cursor r.cookie)) [
        | inl past ↦ rw (live, past) (rw live (λ i. r ∷ rest i))
        | inr before ↦ rw (live, before) (rw live rest)
      ]
    ]

pub max_live_cookie-live :
    (now : ℕ) (rs : List Registration)
    → max_live_cookie now (retain (is_live now) rs) ≡ max_live_cookie now rs
unfolding max_live_cookie retain
max_live_cookie-live now [] = refl
max_live_cookie-live now (r ∷ rs) =
    let rest = max_live_cookie-live now rs in
    elim (Bool-cases (is_live now r)) [
      | inr dead ↦ rw dead rest
      | inl live ↦ rw live (rw (live, rest) refl)
    ]

-- A cookie that no live row exceeds, and that is the one of some live row or 0.
abbrev pub IsNewest : ℕ → List Registration → ℕ → Type 0
IsNewest now rs cookie =
    All (λ r. is_live now r ≡ true → r.cookie ≤ cookie) rs
    × ((cookie ≡ 0) ⊎ (any (λ r. is_live now r && r.cookie == cookie) rs ≡ true))

newest_bound :
    (now bound : ℕ) (rs : List Registration)
    → max_live_cookie now rs ≤ bound
    → All (λ r. is_live now r ≡ true → r.cookie ≤ bound) rs
unfolding max_live_cookie
newest_bound now bound [] h = tt
newest_bound now bound (r ∷ rs) h =
    (λ live. ground (arith, live, h), newest_bound now bound rs (ground (arith, h)))

newest_found :
    (now : ℕ) (rs : List Registration)
    → (max_live_cookie now rs ≡ 0)
      ⊎ (any (λ r. is_live now r && r.cookie == max_live_cookie now rs) rs ≡ true)
unfolding max_live_cookie any
newest_found now [] = inl refl
newest_found now (r ∷ rs) = ground (arith, newest_found now rs)

pub max_live_cookie-IsNewest :
    (now : ℕ) (rs : List Registration) → IsNewest now rs (max_live_cookie now rs)
max_live_cookie-IsNewest now rs =
    (newest_bound now (max_live_cookie now rs) rs (omega arith), newest_found now rs)
