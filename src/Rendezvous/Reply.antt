-- ===== src/Rendezvous/Reply.antt =====
-- Responses, and the steps of a handler in services/peerline-rendezvous/src/lib.rs: a step reads and
-- writes the tables, and it goes on, refuses with a response, or fails with an error of the runtime.
-- Log lines and the `server-timing` header are left out.
use Prim.Native.String.{String}
use peerline.Base.{ℕ, Bool, true, false, Option, none, some, Result, ok, err}
use peerline.Base.Text.{Text}
use peerline.Rendezvous.Model.{RegisterResponse, UnregisterResponse, DiscoverResponse}
use peerline.Rendezvous.Library.{WorkerError}
use peerline.Rendezvous.Validate.{Rejection}
use peerline.Rendezvous.Table.{Store}

pub data Body : Type 0 where
  message : String → Body
  registered : RegisterResponse → Body
  discovered : DiscoverResponse → Body
  unregistered : UnregisterResponse → Body

pub record Response : Type 0 where
  pub status : ℕ
  pub body : Body
  pub request_id : Option Text

pub data Reply {ℓ} (A : Type ℓ) : Type ℓ where
  done : A → Reply A
  refused : Response → Reply A
  failed : WorkerError → Reply A

abbrev pub Handler {ℓ} : Type ℓ → Type ℓ
Handler A = Store → Reply A × Store

-- What follows a step.
abbrev pub proceed {ℓ κ} :
    {A : Type ℓ} {B : Type κ} → (A → Handler B) → Reply A × Store → Reply B × Store
proceed f (done a, s) = f a s
proceed f (refused r, s) = (refused r, s)
proceed f (failed e, s) = (failed e, s)

-- The steps are shut, so that a handler's text stays in its proofs; tests unfold them.
infixl 5 ◌>>=◌ ◌>>◌
unfoldable pub ◌>>=◌ {ℓ κ} : {A : Type ℓ} {B : Type κ} → Handler A → (A → Handler B) → Handler B
◌>>=◌ m f s = proceed f (m s)

abbrev pub ◌>>◌ {ℓ} : {B : Type ℓ} → Handler (Unit {0}) → Handler B → Handler B
m >> k = m >>= λ _. k

unfoldable pub asks {ℓ} : {A : Type ℓ} → (Store → A) → Handler A
asks f s = (done (f s), s)

unfoldable pub modify : (Store → Store) → Handler (Unit {0})
modify f s = (done tt, f s)

unfoldable pub update {ℓ} : {A : Type ℓ} → (Store → A × Store) → Handler A
update f s = (done (f s).0, (f s).1)

unfoldable pub lift {ℓ} : {A : Type ℓ} → Result WorkerError A → Handler A
lift (ok a) s = (done a, s)
lift (err e) s = (failed e, s)

-- `RequestTelemetry`, less what only the log lines read.
pub record RequestTelemetry : Type 0 where
  pub request_id : Text
  pub path : Text

-- `observed_error_response` and `observed_rejection_response`, both under the request's id.
abbrev pub error_response : RequestTelemetry → String → ℕ → Response
error_response telemetry text status = record {
  status = status;
  body = message text;
  request_id = some telemetry.request_id;
}

unfoldable pub require {ℓ} : {A : Type ℓ} → Option A → RequestTelemetry → String → ℕ → Handler A
require (some a) telemetry text status s = (done a, s)
require none telemetry text status s = (refused (error_response telemetry text status), s)

unfoldable pub check : Bool → RequestTelemetry → String → ℕ → Handler (Unit {0})
check true telemetry text status s = (done tt, s)
check false telemetry text status s = (refused (error_response telemetry text status), s)

unfoldable pub accept : RequestTelemetry → Result Rejection (Unit {0}) → Handler (Unit {0})
accept telemetry (ok _) s = (done tt, s)
accept telemetry (err r) s = (refused (error_response telemetry r.message r.status), s)
