-- ===== src/Net/Step.antt =====
-- Steps over a state: each ends well or with an error, and leaves the state that it came to, also with
-- an error.
pub mod Keeps
pub mod Yields
pub mod Reaches
pub mod Comes
use peerline.Base.{Bool, true, false, Option, none, some, Result, ok, err}

abbrev pub Step {ℓ κ μ} : Type ℓ → Type κ → Type μ → Type (ℓ ⊔ (κ ⊔ μ))
Step S E A = S → Result E A × S

module _ {ℓ κ} {S : Type ℓ} {E : Type κ} where
  -- What follows a step.
  abbrev pub proceed {μ ν} :
      {A : Type μ} {B : Type ν} → (A → Step S E B) → Result E A × S → Result E B × S
  proceed f (ok a, s) = f a s
  proceed f (err e, s) = (err e, s)

  -- The steps are shut, so that a handler's text stays in its proofs; tests unfold them.
  infixl 5 ◌>>=◌ ◌>>◌
  unfoldable pub ◌>>=◌ {μ ν} :
      {A : Type μ} {B : Type ν} → Step S E A → (A → Step S E B) → Step S E B
  ◌>>=◌ first next s = proceed next (first s)

  abbrev pub ◌>>◌ {μ} : {B : Type μ} → Step S E (Unit {0}) → Step S E B → Step S E B
  first >> second = first >>= λ u. second

  unfoldable pub give {μ} : {A : Type μ} → A → Step S E A
  give a s = (ok a, s)

  unfoldable pub stop {μ} : {A : Type μ} → E → Step S E A
  stop e s = (err e, s)

  unfoldable pub asks {μ} : {A : Type μ} → (S → A) → Step S E A
  asks f s = (ok (f s), s)

  unfoldable pub modify : (S → S) → Step S E (Unit {0})
  modify f s = (ok tt, f s)

  -- An operation with a result of its own, and the state that it leaves.
  unfoldable pub run {μ} : {A : Type μ} → (S → Result E A × S) → Step S E A
  run f s = f s

  unfoldable pub lift {μ} : {A : Type μ} → Result E A → Step S E A
  lift r s = (r, s)

  unfoldable pub require {μ} : {A : Type μ} → Option A → E → Step S E A
  require none e s = (err e, s)
  require (some a) e s = (ok a, s)

  unfoldable pub check : Bool → E → Step S E (Unit {0})
  check true e s = (ok tt, s)
  check false e s = (err e, s)
