-- ===== src/Net/Step/Comes.antt =====
-- Steps that end well, with the answer and the state that they come to.
use peerline.Base.{◌≡◌, refl, ap, ◌∙◌, true, Bool, some, Result, ok}
use peerline.Net.Step.{Step, proceed, ◌>>=◌, lift, require, check, run}

pub record Comes {ℓ κ μ} {S : Type ℓ} {E : Type κ} {A : Type μ} (m : Step S E A) (s : S) (a : A)
    (s' : S) : Type (ℓ ⊔ (κ ⊔ μ)) where
  pub eq : m s ≡ (ok a, s')

module _ {ℓ κ} {S : Type ℓ} {E : Type κ} {s : S} where
  pub bind-Comes {μ ν} :
      {A : Type μ} {B : Type ν} {first : Step S E A} {mid end : S} {a : A} {b : B}
      (next : A → Step S E B)
      → Comes first s a mid
      → Comes (next a) mid b end
      → Comes (first >>= next) s b end
  unfolding ◌>>=◌
  bind-Comes next h k = record { eq = ap (proceed next) h.eq ∙ k.eq }

  pub lift-Comes {μ} : {A : Type μ} {r : Result E A} {a : A} → r ≡ ok a → Comes (lift r) s a s
  unfolding lift
  lift-Comes h = record { eq = rw h refl }

  pub require-Comes {μ} : {A : Type μ} (a : A) (e : E) → Comes (require (some a) e) s a s
  unfolding require
  require-Comes a e = record { eq = refl }

  pub check-Comes : {b : Bool} (e : E) → b ≡ true → Comes (check b e) s tt s
  unfolding check
  check-Comes e h = record { eq = rw h refl }

  pub run-Comes {μ} :
      {A : Type μ} (f : S → Result E A × S) {a : A} {end : S}
      → f s ≡ (ok a, end)
      → Comes (run f) s a end
  unfolding run
  run-Comes f h = record { eq = h }
