-- ===== src/Rendezvous/Shard/Keeps.antt =====
-- What a step of a handler keeps, whatever its reply, with a rule for each way to build a step.
use Prim.Native.String.{String}
use peerline.Base.{ℕ, Bool, true, false, Option, none, some, Result, ok, err}
use peerline.Rendezvous.Library.{WorkerError}
use peerline.Rendezvous.Validate.{Rejection}
use peerline.Rendezvous.Table.{Store}
use peerline.Rendezvous.Reply.{
  Reply, done, refused, failed, Handler, proceed, ◌>>=◌, asks, modify, update, lift, check, require,
  accept, RequestTelemetry,
}

pub record Keeps {ℓ κ} {A : Type κ} (P : Store → Type ℓ) (m : Handler A) : Type (ℓ ⊔ κ) where
  pub apply : (s : Store) → P s → P (m s).1

proceed_keeps {ℓ κ μ} :
    (P : Store → Type ℓ) {A : Type κ} {B : Type μ} (f : A → Handler B) (r : Reply A × Store)
    → ((a : A) → Keeps P (f a))
    → P r.1
    → P (proceed f r).1
proceed_keeps P f (done a, s) h p = (h a).apply s p
proceed_keeps P f (refused r, s) h p = p
proceed_keeps P f (failed e, s) h p = p

pub bind-Keeps {ℓ κ μ} :
    {P : Store → Type ℓ} {A : Type κ} {B : Type μ} {step : Handler A} {next : A → Handler B}
    → Keeps P step
    → ((mid : A) → Keeps P (next mid))
    → Keeps P (step >>= next)
unfolding ◌>>=◌
bind-Keeps {P} {step} {next} h k = record {
  apply = λ s p. proceed_keeps P next (step s) k (h.apply s p);
}

lift_keeps {ℓ κ} :
    (P : Store → Type ℓ) {A : Type κ} (r : Result WorkerError A) (s : Store) → P s → P (lift r s).1
unfolding lift
lift_keeps P (ok a) s p = p
lift_keeps P (err e) s p = p

pub lift-Keeps {ℓ κ} :
    {P : Store → Type ℓ} {A : Type κ} (r : Result WorkerError A) → Keeps P (lift r)
lift-Keeps {P} r = record { apply = lift_keeps P r }

require_keeps {ℓ κ} :
    (P : Store → Type ℓ) {A : Type κ} (o : Option A) (t : RequestTelemetry) (text : String)
    (status : ℕ) (s : Store)
    → P s
    → P (require o t text status s).1
unfolding require
require_keeps P none t text status s p = p
require_keeps P (some a) t text status s p = p

pub require-Keeps {ℓ κ} :
    {P : Store → Type ℓ} {A : Type κ} (o : Option A) (t : RequestTelemetry) (text : String)
    (status : ℕ)
    → Keeps P (require o t text status)
require-Keeps {P} o t text status = record { apply = require_keeps P o t text status }

module _ {ℓ} (P : Store → Type ℓ) where
  check_keeps :
      (b : Bool) (t : RequestTelemetry) (text : String) (status : ℕ) (s : Store)
      → P s
      → P (check b t text status s).1
  unfolding check
  check_keeps true t text status s p = p
  check_keeps false t text status s p = p

  accept_keeps :
      (t : RequestTelemetry) (r : Result Rejection (Unit {0})) (s : Store)
      → P s
      → P (accept t r s).1
  unfolding accept
  accept_keeps t (ok u) s p = p
  accept_keeps t (err e) s p = p

module _ {ℓ} {P : Store → Type ℓ} where
  pub check-Keeps :
      (b : Bool) (t : RequestTelemetry) (text : String) (status : ℕ)
      → Keeps P (check b t text status)
  check-Keeps b t text status = record { apply = check_keeps P b t text status }

  pub accept-Keeps : (t : RequestTelemetry) (r : Result Rejection (Unit {0})) → Keeps P (accept t r)
  accept-Keeps t r = record { apply = accept_keeps P t r }

  pub modify-Keeps : (f : Store → Store) → ((s : Store) → P s → P (f s)) → Keeps P (modify f)
  unfolding modify
  modify-Keeps f h = record { apply = h }

  pub update-Keeps {κ} :
      {A : Type κ} (f : Store → A × Store) → ((s : Store) → P s → P (f s).1) → Keeps P (update f)
  unfolding update
  update-Keeps f h = record { apply = h }

  pub asks-Keeps {κ} : {A : Type κ} (f : Store → A) → Keeps P (asks f)
  unfolding asks
  asks-Keeps f = record { apply = λ s p. p }

pub ruleset step_rules =
    (bind-Keeps, lift-Keeps, check-Keeps, require-Keeps, accept-Keeps, asks-Keeps)
