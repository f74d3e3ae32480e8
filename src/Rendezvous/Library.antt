-- ===== src/Rendezvous/Library.antt =====
-- What the service calls and does not implement, as one record that every handler takes: blake3,
-- base64, serde_json and the query parser. `Request` is what the worker runtime hands over.
use peerline.Base.{List, Option, Result}
use peerline.Base.Text.{Text, Bytes}
use peerline.Rendezvous.Model.{PeerDescriptor, RegisterRequest, DiscoverRequest}

pub data Method : Type 0 where
  get post delete : Method
  other : Text → Method

-- The errors of the `worker` crate, which a handler passes on by `?`.
pub data WorkerError : Type 0 where
  header_error body_error json_error storage_full limiter_error : WorkerError

pub record TlsClientAuth : Type 0 where
  pub cert_presented : Text
  pub cert_verified : Text
  pub cert_fingerprint_sha256 : Text

pub record Url : Type 0 where
  pub path : Text
  pub query : Option Text
  pub query_pairs : List (Text × Text)

pub record Request : Type 0 where
  pub method : Method
  pub path : Text
  pub url : Option Url
  pub header : Text → Result WorkerError (Option Text)
  pub tls_client_auth : Option TlsClientAuth
  pub body : Result WorkerError Bytes

pub record Library : Type 0 where
  -- `blake3::hash`, `blake3::Hasher::new_keyed` over the concatenated updates, `Method::to_string`.
  pub hash : Bytes → Bytes
  pub keyed_hash : Bytes → Bytes → Bytes
  pub encode_base64url : Bytes → Text
  pub method_name : Method → Text
  -- `i64::to_string` of a timestamp, given by its text.
  pub encode_descriptor : PeerDescriptor → Result WorkerError Text
  pub decode_descriptor : Text → Option PeerDescriptor
  pub decode_register : Bytes → Option RegisterRequest
  pub decode_discover : Request → Option DiscoverRequest
