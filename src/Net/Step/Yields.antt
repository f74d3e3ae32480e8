-- ===== src/Net/Step/Yields.antt =====
-- What a step keeps of the state, and what is known of its answer where it ends well.
use peerline.Base.{◌≡◌, refl, Bool, true, false, Option, none, some, Result, ok, err}
use peerline.Net.Step.{Step, proceed, ◌>>=◌, give, stop, asks, run, require, check}
use peerline.Net.Step.Keeps.{Keeps}

module _ {ℓ κ μ} {E : Type ℓ} {A : Type κ} (Q : A → Type μ) where
  abbrev pub OnOk : Result E A → Type μ
  OnOk (ok a) = Q a
  OnOk (err e) = Unit {μ}

pub record Yields {ℓ κ μ ν ρ} {S : Type ℓ} {E : Type κ} {A : Type μ} (P : S → Type ν)
    (Q : A → Type ρ) (m : Step S E A) : Type (ℓ ⊔ (κ ⊔ (μ ⊔ (ν ⊔ ρ)))) where
  pub apply : (s : S) → P s → OnOk Q (m s).0 × P (m s).1

anything {ℓ κ} : {E : Type ℓ} {A : Type κ} (r : Result E A) → OnOk (λ a. Unit {0}) r
anything (ok a) = tt
anything (err e) = tt

module _ {ℓ κ ν} {S : Type ℓ} {E : Type κ} {P : S → Type ν} where
  proceed_yields {μ ρ σ} :
      {A : Type μ} {B : Type ρ} (Q : A → Type σ) (next : A → Step S E B) (r : Result E A × S)
      → ((a : A) → Q a → Keeps P (next a))
      → OnOk Q r.0
      → P r.1
      → P (proceed next r).1
  proceed_yields Q next (ok a, s) h q p = (h a q).apply s p
  proceed_yields Q next (err e, s) h q p = p

  pub bind-Yields {μ ρ σ} :
      {A : Type μ} {B : Type ρ} {first : Step S E A} {next : A → Step S E B} {Q : A → Type σ}
      → Yields P Q first
      → ((a : A) → Q a → Keeps P (next a))
      → Keeps P (first >>= next)
  unfolding ◌>>=◌
  bind-Yields {first} {next} {Q} y k = record {
    apply = λ s p. let (q, p') = y.apply s p in proceed_yields Q next (first s) k q p';
  }

  pub asks-Yields {μ σ} :
      {A : Type μ} (f : S → A) (Q : A → Type σ)
      → ((s : S) → P s → Q (f s))
      → Yields P Q (asks {E = E} f)
  unfolding asks
  asks-Yields f Q h = record { apply = λ s p. (h s p, p) }

  pub require-Yields {μ} :
      {A : Type μ} (o : Option A) (e : E) → Yields P (λ a. o ≡ some a) (require o e)
  unfolding require
  require-Yields none e = record { apply = λ s p. (tt, p) }
  require-Yields (some a) e = record { apply = λ s p. (refl, p) }

  pub check-Yields : (b : Bool) (e : E) → Yields P (λ u. b ≡ true) (check b e)
  unfolding check
  check-Yields true e = record { apply = λ s p. (refl, p) }
  check-Yields false e = record { apply = λ s p. (tt, p) }

  pub run-Yields {μ σ} :
      {A : Type μ} (f : S → Result E A × S) (Q : A → Type σ)
      → ((s : S) → P s → OnOk Q (f s).0 × P (f s).1)
      → Yields P Q (run f)
  unfolding run
  run-Yields f Q h = record { apply = h }

  pub give-Yields {μ σ} : {A : Type μ} {Q : A → Type σ} (a : A) → Q a → Yields P Q (give {E = E} a)
  unfolding give
  give-Yields a q = record { apply = λ s p. (q, p) }

  pub stop-Yields {μ σ} : {A : Type μ} {Q : A → Type σ} (e : E) → Yields P Q (stop {A = A} e)
  unfolding stop
  stop-Yields e = record { apply = λ s p. (tt, p) }

  proceed-Yields {μ ρ σ τ} :
      {A : Type μ} {B : Type ρ} (Q : A → Type σ) (R : B → Type τ) (next : A → Step S E B)
      (r : Result E A × S)
      → ((a : A) → Q a → Yields P R (next a))
      → OnOk Q r.0
      → P r.1
      → OnOk R (proceed next r).0 × P (proceed next r).1
  proceed-Yields Q R next (ok a, s) h q p = (h a q).apply s p
  proceed-Yields Q R next (err e, s) h q p = (tt, p)

  -- A chain whose answer is known by what is known of its first step.
  pub then-Yields {μ ρ σ τ} :
      {A : Type μ} {B : Type ρ} {first : Step S E A} {next : A → Step S E B} {Q : A → Type σ}
      {R : B → Type τ}
      → Yields P Q first
      → ((a : A) → Q a → Yields P R (next a))
      → Yields P R (first >>= next)
  unfolding ◌>>=◌
  then-Yields {first} {next} {Q} {R} y k = record {
    apply = λ s p. let (q, p') = y.apply s p in proceed-Yields Q R next (first s) k q p';
  }

  pub after-Yields {μ ρ τ} :
      {A : Type μ} {B : Type ρ} {first : Step S E A} {next : A → Step S E B} {R : B → Type τ}
      → Keeps P first
      → ((a : A) → Yields P R (next a))
      → Yields P R (first >>= next)
  after-Yields {first} h k =
      then-Yields {Q = λ a. Unit {0}}
        (record { apply = λ s p. (anything (first s).0, h.apply s p) }) (λ a u. k a)
