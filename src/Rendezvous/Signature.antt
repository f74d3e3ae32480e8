-- ===== src/Rendezvous/Signature.antt =====
-- crates/peerline-rendezvous-model/src/lib.rs: the signature of a request under a shared token.
pub mod Exact
use Prim.Native.Nat.{bit_or, bit_xor}
use peerline.Base.{
  ℕ, Bool, true, false, [], ◌∷◌, ◌++◌, Option, none, some, ◌==◌, if◌then◌else◌, length, is_empty,
}
use peerline.Base.Text.{Text, Bytes, codes, utf8}
use peerline.Base.Int.{ℤ, int_text}
use peerline.Rendezvous.Library.{Library}

unfoldable pub request_path_and_query : Text → Option Text → Text
request_path_and_query path none = path
request_path_and_query path (some query) = if is_empty query then path else path ++ b'?' ∷ query

-- The bytes that the keyed hash runs over, in the order of the `update` calls.
unfoldable pub signed_bytes : ℤ → Text → Text → Bytes → Bytes
unfolding utf8 int_text
signed_bytes timestamp_ms method path_and_query body =
    utf8 (int_text timestamp_ms) ++ (10 ∷ utf8 method) ++ (10 ∷ utf8 path_and_query) ++ (10 ∷ body)

module _ (lib : Library) where
  unfoldable pub sign_peerline_request : Text → ℤ → Text → Text → Bytes → Text
  unfolding signed_bytes
  sign_peerline_request token timestamp_ms method path_and_query body = lib.encode_base64url (
      lib.keyed_hash (lib.hash (utf8 token)) (signed_bytes timestamp_ms method path_and_query body))

-- `zip` and `fold` of `constant_time_eq`.
unfoldable pub byte_diff : ℕ → Bytes → Bytes → ℕ
byte_diff diff [] right = diff
byte_diff diff (a ∷ left) [] = diff
byte_diff diff (a ∷ left) (b ∷ right) = byte_diff (bit_or diff (bit_xor a b)) left right

unfoldable pub constant_time_eq : Bytes → Bytes → Bool
unfolding byte_diff
constant_time_eq left right =
    if length left == length right then byte_diff 0 left right == 0 else false

module _ (lib : Library) where
  unfoldable pub verify_peerline_request_signature : Text → ℤ → Text → Text → Bytes → Text → Bool
  unfolding sign_peerline_request constant_time_eq
  verify_peerline_request_signature token timestamp_ms method path_and_query body signature =
      constant_time_eq
        (utf8 (sign_peerline_request lib token timestamp_ms method path_and_query body))
        (utf8 signature)
