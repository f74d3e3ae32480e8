-- ===== src/Rendezvous/Table/Rates.antt =====
-- The rate window: what the requests of one key are answered within one window.
use Prim.Native.Nat.{◌%◌, min}
use peerline.Base.{
  ℕ, suc, ◌+◌, ◌-◌, ◌<◌, ◌≡◌, false, List, [], ◌∷◌, All, ◌&&◌, arith, ◌==◌, if◌then◌else◌, text_eq,
  text_eq_refl, text_eq_iff, Bool-cases, inl, inr,
}
use peerline.Base.Text.{Text}
use peerline.Rendezvous.Table.{RateLimit, Store, rate_window_ms, upsert_rate_limit, count_request}

-- The hits that a key has had in the window that starts at `window`, as the table has it.
unfoldable pub hits : Text → ℕ → List RateLimit → ℕ
hits key window [] = 0
hits key window (l ∷ ls) =
    let rest = hits key window ls in
    if text_eq l.key key then (if l.window_start_ms == window then l.count else 0) else rest

-- One more hit, which is not counted past the limit and one.
upsert_rate_limit-hits :
    (key : Text) (window top : ℕ) (ls : List RateLimit)
    → 0 < top
    → (upsert_rate_limit key window top ls).0 ≡ min (hits key window ls + 1) top
unfolding upsert_rate_limit hits
upsert_rate_limit-hits key window top [] h = omega arith
upsert_rate_limit-hits key window top (l ∷ ls) h =
    ground (arith, upsert_rate_limit-hits key window top ls)

hits-upsert_rate_limit :
    (key : Text) (window top : ℕ) (ls : List RateLimit)
    → 0 < top
    → hits key window (upsert_rate_limit key window top ls).1 ≡ min (hits key window ls + 1) top
unfolding upsert_rate_limit hits
hits-upsert_rate_limit key window top [] h = ground (arith, text_eq_refl key)
hits-upsert_rate_limit key window top (l ∷ ls) h =
    ground (arith, hits-upsert_rate_limit key window top ls)

-- Other keys, and other windows of theirs, are not touched.
hits-upsert_other :
    (key other : Text) (window w top : ℕ) (ls : List RateLimit)
    → text_eq key other ≡ false
    → hits other w (upsert_rate_limit key window top ls).1 ≡ hits other w ls
unfolding upsert_rate_limit hits
hits-upsert_other key other window w top [] h = ground arith
hits-upsert_other key other window w top (l ∷ ls) h = ground (
  arith,
  hits-upsert_other key other window w top ls,
  text_eq_iff l.key key,
  text_eq_iff l.key other,
  text_eq_iff key other,
)

abbrev InWindow : ℕ → Text × ℕ → Type 0
InWindow window (key, now) = now - now % rate_window_ms ≡ window

-- How many of a key's requests are served, in a run of requests with their keys and times.
unfoldable pub served : Text → ℕ → List (Text × ℕ) → Store → ℕ
served key limit [] s = 0
served key limit ((k, now) ∷ calls) s =
    let (allowed, s') = count_request k now limit s in
    let rest = served key limit calls s' in if text_eq k key && allowed then suc rest else rest

unfoldable pub requests_of : Text → List (Text × ℕ) → ℕ
requests_of key [] = 0
requests_of key ((k, now) ∷ calls) =
    let rest = requests_of key calls in if text_eq k key then suc rest else rest

-- In a run of requests of any keys, all in one window, the requests of a key that are served number its
-- requests or what the limit leaves after its earlier hits in the window, whichever is less.
pub served_within_limit :
    (key : Text) (limit window h : ℕ) (calls : List (Text × ℕ)) (s : Store)
    → limit < 4294967295
    → All (InWindow window) calls
    → hits key window s.rate_limits ≡ h
    → served key limit calls s ≡ min (requests_of key calls) (limit - h)
unfolding served requests_of count_request
served_within_limit key limit window h [] s b ws e = omega arith
served_within_limit key limit window h ((k, now) ∷ calls) s b ws e =
    elim (Bool-cases (text_eq k key)) [
      | inl same ↦ ground (
        arith,
        same,
        ws.0,
        text_eq_iff k key,
        upsert_rate_limit-hits key window (limit + 1) s.rate_limits,
        hits-upsert_rate_limit key window (limit + 1) s.rate_limits,
        served_within_limit key limit window (min (h + 1) (limit + 1)) calls
            (record s { rate_limits = (upsert_rate_limit key window (limit + 1) s.rate_limits).1 })
            b ws.1,
      )
      | inr new ↦ ground (
        arith,
        new,
        ws.0,
        hits-upsert_other k key window window (limit + 1) s.rate_limits new,
        served_within_limit key limit window h calls
            (record s { rate_limits = (upsert_rate_limit k window (limit + 1) s.rate_limits).1 }) b
            ws.1,
      )
    ]
