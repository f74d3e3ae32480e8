-- ===== src/Core/Path/Free.antt =====
-- What `non_overwriting_path` answers, and the turns of its loop.
use peerline.Base.{
  ℕ, subst, if◌then◌else◌, zero, suc, ◌+◌, ◌<◌, ◌≤◌, ◌≢◌, ◌≡◌, refl, Bool, true, false, some, arith,
  Bool-cases, inl, inr,
}
use peerline.Base.Text.{Text}
use peerline.Core.Path.{first_free, candidate, non_overwriting_path}

module _ (exists : Text → Bool) (name : ℕ → Text) where
  pub first_free-free :
      (fuel index : ℕ) {p : Text} → first_free exists name fuel index ≡ some p → exists p ≡ false
  unfolding first_free
  first_free-free zero index h = cc
  first_free-free (suc fuel) index {p = p} h = elim (Bool-cases (exists (name index))) [
    | inl e ↦ first_free-free fuel (suc index) (
        subst
          (λ b. (if b then first_free exists name fuel (suc index) else some (name index)) ≡ some p)
          e h)
    | inr e ↦ cc
  ]

  pub first_free-found :
      (fuel index n : ℕ)
      → index ≤ n
      → n < index + fuel
      → exists (name n) ≡ false
      → (p : Text) × (first_free exists name fuel index ≡ some p)
  unfolding first_free
  first_free-found zero index n h k e = absurd (omega arith)
  first_free-found (suc fuel) index n h k e = elim (Bool-cases (exists (name index))) [
    | inl f ↦
        let past = ap_past index n e f in
        rw f (first_free-found fuel (suc index) n (omega (arith, past)) (omega arith) e)
    | inr f ↦ (name index, rw f refl)
  ]
    where
      ap_past : (i n : ℕ) → exists (name n) ≡ false → exists (name i) ≡ true → i ≢ n
      ap_past i n e f same = cc

-- `non_overwriting_path` answers a path that is not taken.
pub non_overwriting_path-free :
    (exists : Text → Bool) (fuel : ℕ) (path : Text) {p : Text}
    → non_overwriting_path exists fuel path ≡ some p
    → exists p ≡ false
unfolding non_overwriting_path
non_overwriting_path-free exists fuel path {p = p} h = elim (Bool-cases (exists path)) [
  | inl e ↦ first_free-free exists (candidate path) fuel 1 (
      subst (λ b. (if b then first_free exists (candidate path) fuel 1 else some path) ≡ some p) e
        h)
  | inr e ↦ ground arith
]
