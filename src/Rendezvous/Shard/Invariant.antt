-- ===== src/Rendezvous/Shard/Invariant.antt =====
-- lib.rs of the service: the handlers, and whether the tables are well formed.
use peerline.Base.{ℕ, Bool, Result, ok, err}
use peerline.Base.Text.{Text}
use peerline.Rendezvous.Model.{RegisterRequest}
use peerline.Rendezvous.Library.{Library, Request, Method, get, post, delete, other, WorkerError}
use peerline.Rendezvous.Table.{Store}
use peerline.Rendezvous.Table.Order.{
  IsWellFormed, After, cleanup_expired-IsWellFormed, delete_registrations-IsWellFormed,
  count_request-IsWellFormed, upsert_registration-IsWellFormed,
}
use peerline.Rendezvous.Auth.{ShardConfig}
use peerline.Rendezvous.Reply.{RequestTelemetry}
use peerline.Rendezvous.Shard.{
  from_upsert, run_upsert, enforce_rate_limit, store_registration, register, discover, unregister,
  dispatch, fetch,
}
use peerline.Rendezvous.Shard.Keeps.{
  Keeps, bind-Keeps, lift-Keeps, modify-Keeps, update-Keeps, step_rules,
}

from_upsert_keeps :
    (s : Store) (r : Result WorkerError (ℕ × Bool × Store))
    → IsWellFormed s
    → After IsWellFormed r
    → IsWellFormed (from_upsert s r).1
from_upsert_keeps s (ok (cookie, was_refresh, s')) w h = h
from_upsert_keeps s (err e) w h = w

run_upsert-Keeps :
    (peer : Text) (expires : ℕ) (json : Text) → Keeps IsWellFormed (run_upsert peer expires json)
unfolding run_upsert
run_upsert-Keeps peer expires json = record {
  apply = λ s w. from_upsert_keeps s _ w (upsert_registration-IsWellFormed peer expires json s w);
}

module _ (lib : Library) where
  enforce_rate_limit-Keeps :
      (namespace : Text) (now : ℕ) (req : Request) (limit : ℕ)
      → Keeps IsWellFormed (enforce_rate_limit lib namespace now req limit)
  unfolding enforce_rate_limit
  enforce_rate_limit-Keeps namespace now req limit =
      bind-Keeps (lift-Keeps _)
        λ ip. update-Keeps _ (λ s w. count_request-IsWellFormed _ now limit s w)

module _ (lib : Library) (config : ShardConfig) (now : ℕ) where
  store_registration-Keeps :
      (request : RegisterRequest) → Keeps IsWellFormed (store_registration lib config now request)
  unfolding store_registration
  store_registration-Keeps request =
      bind-Keeps (modify-Keeps _ (cleanup_expired-IsWellFormed now))
        λ _. search (step_rules, run_upsert-Keeps)

  register-Keeps :
      (namespace : Text) (req : Request) (telemetry : RequestTelemetry)
      → Keeps IsWellFormed (register lib config now namespace req telemetry)
  unfolding register
  register-Keeps namespace req telemetry =
      search (step_rules, enforce_rate_limit-Keeps, store_registration-Keeps) depth 12

  discover-Keeps :
      (namespace : Text) (req : Request) (telemetry : RequestTelemetry)
      → Keeps IsWellFormed (discover lib config now namespace req telemetry)
  unfolding discover
  discover-Keeps namespace req telemetry =
      search (step_rules, enforce_rate_limit-Keeps, modify-Keeps, cleanup_expired-IsWellFormed)
        depth 12

  unregister-Keeps :
      (namespace : Text) (req : Request) (telemetry : RequestTelemetry)
      → Keeps IsWellFormed (unregister lib config now namespace req telemetry)
  unfolding unregister
  unregister-Keeps namespace req telemetry =
      search
        (
          step_rules, enforce_rate_limit-Keeps, modify-Keeps, cleanup_expired-IsWellFormed,
          delete_registrations-IsWellFormed,
        )
        depth 12

  dispatch-Keeps :
      (method : Method) (namespace : Text) (req : Request) (telemetry : RequestTelemetry)
      → Keeps IsWellFormed (dispatch lib config now method namespace req telemetry)
  unfolding dispatch
  dispatch-Keeps get namespace req telemetry = discover-Keeps namespace req telemetry
  dispatch-Keeps post namespace req telemetry = register-Keeps namespace req telemetry
  dispatch-Keeps delete namespace req telemetry = unregister-Keeps namespace req telemetry
  dispatch-Keeps (other name) namespace req telemetry = search step_rules

  fetch-Keeps : (req : Request) → Keeps IsWellFormed (fetch lib config now req)
  unfolding fetch
  fetch-Keeps req = search (step_rules, dispatch-Keeps) depth 8

-- Whatever the request and the reply, `fetch` leaves well-formed tables well formed: cookies rise along
-- the table, none is above the last one given, and no peer has two rows.
pub fetch-IsWellFormed :
    (lib : Library) (config : ShardConfig) (now : ℕ) (req : Request) (s : Store)
    → IsWellFormed s
    → IsWellFormed (fetch lib config now req s).1
fetch-IsWellFormed lib config now req s w = (fetch-Keeps lib config now req).apply s w
