-- ===== src/Rendezvous/Shard/Access.antt =====
-- lib.rs of the service: the handlers, and `verify_request`.
use peerline.Base.{ℕ, ◌≡◌, refl, sym, ap, ◌∙◌, true, [], some, ok, ◌⊎◌, inl, inr}
use peerline.Base.Text.{Text, Bytes}
use peerline.Rendezvous.Library.{Library, Request, Method, get, post, delete, other}
use peerline.Rendezvous.Route.{namespace_from_path, is_valid_namespace}
use peerline.Rendezvous.Table.{Store}
use peerline.Rendezvous.Auth.{ShardConfig, verify_request}
use peerline.Rendezvous.Reply.{RequestTelemetry}
use peerline.Rendezvous.Shard.{from_request, register, discover, unregister, dispatch, fetch}
use peerline.Rendezvous.Shard.Guard.{
  IsDone, IsQuiet, IsGuarded, bind-IsGuarded, lift-IsQuiet, require-IsQuiet, check-IsQuiet,
  accept-IsQuiet, asks-IsQuiet, bind-IsQuiet, refusal-IsGuarded, verified-IsGuarded,
}

-- The bytes that a request's signature covers: a POST's body, and none else.
abbrev pub SignedBody : Method → Request → Bytes → Type 0
SignedBody post req body = req.body ≡ ok body
SignedBody get req body = body ≡ []
SignedBody delete req body = body ≡ []
SignedBody (other name) req body = ⊥

abbrev pub IsVerified : Library → ShardConfig → ℕ → Method → Request → Type 0
IsVerified lib config now method req =
    (body : Bytes) × SignedBody method req body × (verify_request lib config now req body ≡ ok tt)

-- The request names a namespace of the service, and its credentials are good.
abbrev pub IsAdmitted : Library → ShardConfig → ℕ → Request → Type 0
IsAdmitted lib config now req =
    (namespace : Text) × (namespace_from_path req.path ≡ some namespace)
    × (is_valid_namespace namespace ≡ true)
    × IsVerified lib config now req.method req

module _ (lib : Library) (config : ShardConfig) (now : ℕ) where
  dispatch-IsGuarded :
      (method : Method) (namespace : Text) (req : Request) (telemetry : RequestTelemetry)
      → IsGuarded
          (IsVerified lib config now method req)
          (dispatch lib config now method namespace req telemetry)
  unfolding dispatch register discover unregister
  dispatch-IsGuarded post namespace req telemetry = bind-IsGuarded (lift-IsQuiet _) λ json _.
      bind-IsGuarded (check-IsQuiet _ _ _ _) λ _ _. bind-IsGuarded (lift-IsQuiet _) λ body sent.
        bind-IsGuarded (check-IsQuiet _ _ _ _)
          λ _ _. bind-IsGuarded (accept-IsQuiet _ _) λ _ h. verified-IsGuarded _ (body, sent, h)
  dispatch-IsGuarded get namespace req telemetry =
      bind-IsGuarded (accept-IsQuiet _ _) λ _ h. verified-IsGuarded _ ([], refl, h)
  dispatch-IsGuarded delete namespace req telemetry =
      bind-IsGuarded (accept-IsQuiet _ _) λ _ h. verified-IsGuarded _ ([], refl, h)
  dispatch-IsGuarded (other name) namespace req telemetry = refusal-IsGuarded _ _ _

  from_request-IsQuiet :
      (req : Request) → IsQuiet (λ telemetry. telemetry.path ≡ req.path) (from_request lib now req)
  unfolding from_request
  from_request-IsQuiet req = bind-IsQuiet (lift-IsQuiet _) λ id _. asks-IsQuiet _ λ s. refl

  fetch-IsGuarded :
      (req : Request) → IsGuarded (IsAdmitted lib config now req) (fetch lib config now req)
  unfolding fetch
  fetch-IsGuarded req = bind-IsGuarded (from_request-IsQuiet req) λ telemetry here.
      bind-IsGuarded (require-IsQuiet _ _ _ _) λ namespace named.
        bind-IsGuarded (check-IsQuiet _ _ _ _) λ _ valid.
          bind-IsGuarded (check-IsQuiet _ _ _ _) λ _ _. record {
            outcome = λ s.
                elim ((dispatch-IsGuarded req.method namespace req telemetry).outcome s) [
                  | inl v ↦ inl (namespace, ap namespace_from_path (sym here) ∙ named, valid, v)
                  | inr stop ↦ inr stop
                ];
          }

-- Whatever the request, either it names a valid namespace and `verify_request` accepts it (over its
-- body if it is a POST, over no body if it is a GET or DELETE), or `fetch` comes to no result (it
-- refuses or fails) and the tables are the ones before.
pub fetch_guarded :
    (lib : Library) (config : ShardConfig) (now : ℕ) (req : Request) (s : Store)
    → IsAdmitted lib config now req
      ⊎ (¬ IsDone (fetch lib config now req s).0) × ((fetch lib config now req s).1 ≡ s)
fetch_guarded lib config now req s = (fetch-IsGuarded lib config now req).outcome s
