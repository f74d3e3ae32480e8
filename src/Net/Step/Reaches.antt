-- ===== src/Net/Step/Reaches.antt =====
-- What is known of a step's answer and of the state that it comes to together, where it ends well.
use peerline.Base.{Result, ok, err}
use peerline.Net.Step.{Step, proceed, ◌>>=◌, give, stop, run}
use peerline.Net.Step.Keeps.{Keeps}
use peerline.Net.Step.Yields.{OnOk, Yields}

pub record Reaches {ℓ κ μ ν ρ} {S : Type ℓ} {E : Type κ} {A : Type μ} (P : S → Type ν)
    (Q : A → S → Type ρ) (m : Step S E A) : Type (ℓ ⊔ (κ ⊔ (μ ⊔ (ν ⊔ ρ)))) where
  pub apply : (s : S) → P s → OnOk (λ a. Q a (m s).1) (m s).0

module _ {ℓ κ} {S : Type ℓ} {E : Type κ} where
  proceed-Reaches {μ ρ σ τ} :
      {A : Type μ} {B : Type ρ} (Q : A → S → Type σ) (R : B → S → Type τ) (next : A → Step S E B)
      (r : Result E A × S)
      → ((a : A) → Reaches (Q a) R (next a))
      → OnOk (λ a. Q a r.1) r.0
      → OnOk (λ b. R b (proceed next r).1) (proceed next r).0
  proceed-Reaches Q R next (ok a, s) h q = (h a).apply s q
  proceed-Reaches Q R next (err e, s) h q = tt

  pub then-Reaches {μ ν ρ σ τ} :
      {A : Type μ} {B : Type ρ} {P : S → Type ν} {first : Step S E A} {next : A → Step S E B}
      {Q : A → S → Type σ} {R : B → S → Type τ}
      → Reaches P Q first
      → ((a : A) → Reaches (Q a) R (next a))
      → Reaches P R (first >>= next)
  unfolding ◌>>=◌
  then-Reaches {first} {next} {Q} {R} h k = record {
    apply = λ s p. proceed-Reaches Q R next (first s) k (h.apply s p);
  }

  both {μ σ ν} :
      {A : Type μ} (Q : A → Type σ) (P : S → Type ν) (r : Result E A × S)
      → OnOk Q r.0
      → P r.1
      → OnOk (λ a. Q a × P r.1) r.0
  both Q P (ok a, s) q p = (q, p)
  both Q P (err e, s) q p = tt

  -- A step that keeps the state's property, and what follows where it ends well.
  pub Yields-Reaches {μ ν ρ σ τ} :
      {A : Type μ} {B : Type ρ} {P : S → Type ν} {first : Step S E A} {next : A → Step S E B}
      {Q : A → Type σ} {R : B → S → Type τ}
      → Yields P Q first
      → ((a : A) → Q a → Reaches P R (next a))
      → Reaches P R (first >>= next)
  Yields-Reaches {P} {first} {Q} h k =
      then-Reaches {Q = λ a s. Q a × P s}
        (record { apply = λ s p. let (q, p') = h.apply s p in both Q P (first s) q p' })
        λ a. record { apply = λ s (q, p). (k a q).apply s p }

  anything {μ ν} :
      {A : Type μ} (P : S → Type ν) (r : Result E A × S) → P r.1 → OnOk (λ a. P r.1) r.0
  anything P (ok a, s) p = p
  anything P (err e, s) p = tt

  pub Keeps-Reaches {μ ν ρ τ} :
      {A : Type μ} {B : Type ρ} {P : S → Type ν} {first : Step S E A} {next : A → Step S E B}
      {R : B → S → Type τ}
      → Keeps P first
      → ((a : A) → Reaches P R (next a))
      → Reaches P R (first >>= next)
  Keeps-Reaches {P} {first} h k =
      then-Reaches {Q = λ a s. P s} (record { apply = λ s p. anything P (first s) (h.apply s p) }) k

  pub run-Reaches {μ ν σ} :
      {A : Type μ} {P : S → Type ν} (f : S → Result E A × S) (Q : A → S → Type σ)
      → ((s : S) → P s → OnOk (λ a. Q a (f s).1) (f s).0)
      → Reaches P Q (run f)
  unfolding run
  run-Reaches f Q h = record { apply = h }

  pub give-Reaches {μ ν σ} :
      {A : Type μ} {P : S → Type ν} {Q : A → S → Type σ} (a : A)
      → ((s : S) → P s → Q a s)
      → Reaches P Q (give {E = E} a)
  unfolding give
  give-Reaches a h = record { apply = h }

  pub stop-Reaches {μ ν σ} :
      {A : Type μ} {P : S → Type ν} {Q : A → S → Type σ} (e : E) → Reaches P Q (stop {A = A} e)
  unfolding stop
  stop-Reaches e = record { apply = λ s p. tt }

on_ok {ℓ κ μ ν} :
    {E : Type ℓ} {A : Type κ} (Q : A → Type μ) (R : A → Type ν) (r : Result E A)
    → ((a : A) → Q a → R a)
    → OnOk Q r
    → OnOk R r
on_ok Q R (ok a) f q = f a q
on_ok Q R (err e) f q = tt

pub weaken-Reaches {ℓ κ μ ν ρ σ} :
    {S : Type ℓ} {E : Type κ} {A : Type μ} {P : S → Type ν} {Q : A → S → Type ρ}
    {R : A → S → Type σ} {m : Step S E A}
    → ((a : A) (s : S) → Q a s → R a s)
    → Reaches P Q m
    → Reaches P R m
weaken-Reaches {m} f h = record {
  apply = λ s p. on_ok _ _ (m s).0 (λ a. f a (m s).1) (h.apply s p);
}
