-- ===== src/Rendezvous/Shard/Guard.antt =====
-- Steps that stand before the check of a request's credentials, and the steps that follow it.
use Prim.Native.String.{String}
use peerline.Base.{
  ℕ, ◌≡◌, refl, sym, subst, Bool, true, false, Option, none, some, Result, ok, err, ◌⊎◌, inl, inr,
}
use peerline.Rendezvous.Library.{WorkerError}
use peerline.Rendezvous.Validate.{Rejection}
use peerline.Rendezvous.Table.{Store}
use peerline.Rendezvous.Reply.{
  Reply, done, refused, failed, Handler, proceed, ◌>>=◌, asks, lift, check, require, accept,
  RequestTelemetry,
}

-- The handler went to its end.
abbrev pub IsDone {ℓ} : {A : Type ℓ} → Reply A → Type 0
IsDone (done a) = Unit
IsDone (refused r) = ⊥
IsDone (failed e) = ⊥

-- The step ended the request, and left the tables as they were.
abbrev pub Stopped {ℓ} : {A : Type ℓ} → Store → Reply A × Store → Type 0
Stopped s r = (¬ IsDone r.0) × (r.1 ≡ s)

-- A step that changes nothing, and goes on only where `Q` holds of its value.
pub record IsQuiet {ℓ κ} {A : Type ℓ} (Q : A → Type κ) (m : Handler A) : Type (ℓ ⊔ κ) where
  pub outcome : (s : Store) → ((a : A) × (m s ≡ (done a, s)) × Q a) ⊎ Stopped s (m s)

-- `V` holds, or the handler ends without a result and changes nothing.
pub record IsGuarded {ℓ κ} {A : Type ℓ} (V : Type κ) (m : Handler A) : Type (ℓ ⊔ κ) where
  pub outcome : (s : Store) → V ⊎ Stopped s (m s)

Stopped-proceed {ℓ κ} :
    {A : Type ℓ} {B : Type κ} (f : A → Handler B) (s : Store) (r : Reply A × Store)
    → Stopped s r
    → Stopped s (proceed f r)
Stopped-proceed f s (done a, t) h = absurd (h.0 tt)
Stopped-proceed f s (refused r, t) h = h
Stopped-proceed f s (failed e, t) h = h

pub bind-IsGuarded {ℓ κ μ ν} :
    {V : Type μ} {A : Type ℓ} {B : Type κ} {Q : A → Type ν} {m : Handler A} {f : A → Handler B}
    → IsQuiet Q m
    → ((a : A) → Q a → IsGuarded V (f a))
    → IsGuarded V (m >>= f)
unfolding ◌>>=◌
bind-IsGuarded {V} {m} {f} q g = record {
  outcome = λ s. elim (q.outcome s) [
    | inl (a, e, h) ↦ subst (λ r. V ⊎ Stopped s (proceed f r)) (sym e) ((g a h).outcome s)
    | inr stop ↦ inr (Stopped-proceed f s (m s) stop)
  ];
}

lift_quiet {ℓ} :
    {A : Type ℓ} (r : Result WorkerError A) (s : Store)
    → ((a : A) × (lift r s ≡ (done a, s)) × (r ≡ ok a)) ⊎ Stopped s (lift r s)
unfolding lift
lift_quiet (ok a) s = inl (a, refl, refl)
lift_quiet (err e) s = inr (λ d. d, refl)

pub lift-IsQuiet {ℓ} : {A : Type ℓ} (r : Result WorkerError A) → IsQuiet (λ a. r ≡ ok a) (lift r)
lift-IsQuiet r = record { outcome = lift_quiet r }

require_quiet {ℓ} :
    {A : Type ℓ} (o : Option A) (t : RequestTelemetry) (text : String) (status : ℕ) (s : Store)
    → ((a : A) × (require o t text status s ≡ (done a, s)) × (o ≡ some a))
      ⊎ Stopped s (require o t text status s)
unfolding require
require_quiet (some a) t text status s = inl (a, refl, refl)
require_quiet none t text status s = inr (λ d. d, refl)

pub require-IsQuiet {ℓ} :
    {A : Type ℓ} (o : Option A) (t : RequestTelemetry) (text : String) (status : ℕ)
    → IsQuiet (λ a. o ≡ some a) (require o t text status)
require-IsQuiet o t text status = record { outcome = require_quiet o t text status }

check_quiet :
    (b : Bool) (t : RequestTelemetry) (text : String) (status : ℕ) (s : Store)
    → ((u : Unit {0}) × (check b t text status s ≡ (done u, s)) × (b ≡ true))
      ⊎ Stopped s (check b t text status s)
unfolding check
check_quiet true t text status s = inl (tt, refl, refl)
check_quiet false t text status s = inr (λ d. d, refl)

pub check-IsQuiet :
    (b : Bool) (t : RequestTelemetry) (text : String) (status : ℕ)
    → IsQuiet (λ u. b ≡ true) (check b t text status)
check-IsQuiet b t text status = record { outcome = check_quiet b t text status }

accept_quiet :
    (t : RequestTelemetry) (r : Result Rejection (Unit {0})) (s : Store)
    → ((u : Unit {0}) × (accept t r s ≡ (done u, s)) × (r ≡ ok tt)) ⊎ Stopped s (accept t r s)
unfolding accept
accept_quiet t (ok u) s = inl (tt, refl, refl)
accept_quiet t (err e) s = inr (λ d. d, refl)

pub accept-IsQuiet :
    (t : RequestTelemetry) (r : Result Rejection (Unit {0})) → IsQuiet (λ u. r ≡ ok tt) (accept t r)
accept-IsQuiet t r = record { outcome = accept_quiet t r }

pub asks-IsQuiet {ℓ κ} :
    {A : Type ℓ} {Q : A → Type κ} (f : Store → A) → ((s : Store) → Q (f s)) → IsQuiet Q (asks f)
unfolding asks
asks-IsQuiet f h = record { outcome = λ s. inl (f s, refl, h s) }

pub bind-IsQuiet {ℓ κ μ ν} :
    {A : Type ℓ} {B : Type κ} {Q : A → Type μ} {R : B → Type ν} {m : Handler A} {f : A → Handler B}
    → IsQuiet Q m
    → ((a : A) → Q a → IsQuiet R (f a))
    → IsQuiet R (m >>= f)
unfolding ◌>>=◌
bind-IsQuiet {B} {R} {m} {f} q g = record {
  outcome = λ s. elim (q.outcome s) [
    | inl (a, e, h) ↦
        subst (λ r. ((b : B) × (proceed f r ≡ (done b, s)) × R b) ⊎ Stopped s (proceed f r)) (sym e)
          ((g a h).outcome s)
    | inr stop ↦ inr (Stopped-proceed f s (m s) stop)
  ];
}

pub refusal-IsGuarded {ℓ κ} :
    {V : Type κ} {A : Type ℓ} (t : RequestTelemetry) (text : String) (status : ℕ)
    → IsGuarded V (require {A = A} none t text status)
unfolding require
refusal-IsGuarded t text status = record { outcome = λ s. inr (λ d. d, refl) }

-- Where `V` holds, anything is guarded by it.
pub verified-IsGuarded {ℓ κ} : {V : Type κ} {A : Type ℓ} (m : Handler A) → V → IsGuarded V m
verified-IsGuarded m v = record { outcome = λ s. inl v }
