-- ===== src/Crypto/Opaque.antt =====
-- crates/peerline-crypto/src/opaque.rs: the login with a code, over the steps of `opaque_ke`. The
-- random numbers of each step are an argument.
use peerline.Base.{Option, some}
use mathlib.Core.Option
use peerline.Base.Text.{Bytes}
use peerline.Crypto.Primitives.{OpaqueSteps}

pub record OpaqueServerRecord : Type 0 where
  pub server_setup : Bytes
  pub password_file : Bytes
  pub identifier : Bytes

pub record OpaqueClientStart : Type 0 where
  pub request : Bytes
  pub state : Bytes

pub record OpaqueServerResponse : Type 0 where
  pub response : Bytes
  pub state : Bytes

pub record OpaqueClientFinish : Type 0 where
  pub finalization : Bytes
  pub session_key : Bytes

infixl 5 ◌>>=◌
abbrev ◌>>=◌ {ℓ κ} : {A : Type ℓ} {B : Type κ} → Option A → (A → Option B) → Option B
o >>= f = Option.bind o f

module _ (steps : OpaqueSteps) where
  unfoldable pub create_server_record : Bytes → Bytes → Bytes → Option OpaqueServerRecord
  create_server_record random password identifier = do
    let setup = steps.new_setup random
    client_start ← steps.client_registration_start random password
    response ← steps.server_registration_start setup client_start.1 identifier
    upload ← steps.client_registration_finish random client_start.0 password response
    password_file ← steps.server_registration_finish upload
    some (record { server_setup = setup; password_file = password_file; identifier = identifier })

  unfoldable pub start_client_login : Bytes → Bytes → Option OpaqueClientStart
  start_client_login random password = do
    start ← steps.client_login_start random password
    some (record { request = start.1; state = start.0 })

  unfoldable pub start_server_login :
      Bytes → OpaqueServerRecord → Bytes → Option OpaqueServerResponse
  start_server_login random entry request = do
    start ←
        steps.server_login_start random entry.server_setup entry.password_file request
          entry.identifier
    some (record { response = start.1; state = start.0 })

  -- `OpaqueClientStart::finish`.
  unfoldable pub finish_client :
      Bytes → OpaqueClientStart → Bytes → Bytes → Option OpaqueClientFinish
  finish_client random start password response = do
    finish ← steps.client_login_finish random start.state password response
    some (record { finalization = finish.0; session_key = finish.1 })

  -- `OpaqueServerResponse::finish`.
  unfoldable pub finish_server : OpaqueServerResponse → Bytes → Option Bytes
  finish_server server finalization = steps.server_login_finish server.state finalization
