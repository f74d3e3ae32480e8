-- ===== src/Net/Step/Keeps.antt =====
-- What a step keeps of the state, however it ends, with a rule for each way to build a step. Where the
-- state before matters, the rule for a chain tells what the first step answered.
use peerline.Base.{Bool, true, false, Option, none, some, Result, ok, err}
use peerline.Net.Step.{Step, proceed, ◌>>=◌, give, stop, asks, modify, run, lift, require, check}

-- From `s` on, the step keeps `P`.
pub record Keeps {ℓ κ μ ν} {S : Type ℓ} {E : Type κ} {A : Type μ} (P : S → Type ν) (m : Step S E A)
    : Type (ℓ ⊔ (κ ⊔ (μ ⊔ ν))) where
  pub apply : (s : S) → P s → P (m s).1

module _ {ℓ κ ν} {S : Type ℓ} {E : Type κ} {P : S → Type ν} where
  proceed_keeps {μ ρ} :
      {A : Type μ} {B : Type ρ} (next : A → Step S E B) (r : Result E A × S)
      → ((a : A) → Keeps P (next a))
      → P r.1
      → P (proceed next r).1
  proceed_keeps next (ok a, s) h p = (h a).apply s p
  proceed_keeps next (err e, s) h p = p

  pub bind-Keeps {μ ρ} :
      {A : Type μ} {B : Type ρ} {first : Step S E A} {next : A → Step S E B}
      → Keeps P first
      → ((a : A) → Keeps P (next a))
      → Keeps P (first >>= next)
  unfolding ◌>>=◌
  bind-Keeps {first} {next} h k = record {
    apply = λ s p. proceed_keeps next (first s) k (h.apply s p);
  }

  pub require-Keeps {μ} : {A : Type μ} (o : Option A) (e : E) → Keeps P (require o e)
  unfolding require
  require-Keeps none e = record { apply = λ s p. p }
  require-Keeps (some a) e = record { apply = λ s p. p }

  pub check-Keeps : (b : Bool) (e : E) → Keeps P (check b e)
  unfolding check
  check-Keeps true e = record { apply = λ s p. p }
  check-Keeps false e = record { apply = λ s p. p }

  pub give-Keeps {μ} : {A : Type μ} (a : A) → Keeps P (give {E = E} a)
  unfolding give
  give-Keeps a = record { apply = λ s p. p }

  pub stop-Keeps {μ} : {A : Type μ} (e : E) → Keeps P (stop {A = A} e)
  unfolding stop
  stop-Keeps e = record { apply = λ s p. p }

  pub lift-Keeps {μ} : {A : Type μ} (r : Result E A) → Keeps P (lift r)
  unfolding lift
  lift-Keeps r = record { apply = λ s p. p }

  pub asks-Keeps {μ} : {A : Type μ} (f : S → A) → Keeps P (asks {E = E} f)
  unfolding asks
  asks-Keeps f = record { apply = λ s p. p }

  pub modify-Keeps : (f : S → S) → ((s : S) → P s → P (f s)) → Keeps P (modify {E = E} f)
  unfolding modify
  modify-Keeps f h = record { apply = h }

  pub run-Keeps {μ} :
      {A : Type μ} (f : S → Result E A × S) → ((s : S) → P s → P (f s).1) → Keeps P (run f)
  unfolding run
  run-Keeps f h = record { apply = h }

pub ruleset step_rules =
    (bind-Keeps, require-Keeps, check-Keeps, give-Keeps, stop-Keeps, lift-Keeps, asks-Keeps)
