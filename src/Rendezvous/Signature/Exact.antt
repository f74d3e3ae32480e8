-- ===== src/Rendezvous/Signature/Exact.antt =====
-- The signatures that `verify_peerline_request_signature` accepts.
use Prim.Native.Nat.{bit_or, bit_xor}
use peerline.Base.{ℕ, ◌≡◌, ◌↔◌, refl, true, [], ◌∷◌, arith, length}
use peerline.Base.Bits.{bit_or-zero, bit_xor-zero, bit_xor_self, bit_or_zeros}
use peerline.Base.Text.{Text, Bytes, utf8}
use peerline.Base.Int.{ℤ}
use peerline.Rendezvous.Library.{Library}
use peerline.Rendezvous.Signature.{
  byte_diff, constant_time_eq, sign_peerline_request, verify_peerline_request_signature,
}

byte_diff-zero :
    (diff : ℕ) (left right : Bytes)
    → length left ≡ length right
    → byte_diff diff left right ≡ 0
    → (diff ≡ 0) × (left ≡ right)
unfolding byte_diff
byte_diff-zero diff [] [] h e = (e, refl)
byte_diff-zero diff [] (b ∷ right) h e = absurd (omega arith)
byte_diff-zero diff (a ∷ left) [] h e = absurd (omega arith)
byte_diff-zero diff (a ∷ left) (b ∷ right) h e =
    let rest = byte_diff-zero (bit_or diff (bit_xor a b)) left right (omega arith) e in
    let parts = bit_or-zero diff (bit_xor a b) rest.0 in
    (parts.0, cc (bit_xor-zero a b parts.1, rest.1))

byte_diff_self : (s : Bytes) → byte_diff 0 s s ≡ 0
unfolding byte_diff
byte_diff_self [] = refl
byte_diff_self (a ∷ s) = rw (bit_xor_self a, bit_or_zeros) (byte_diff_self s)

-- The constant-time comparison decides equality.
pub constant_time_eq_iff :
    (left right : Bytes) → (constant_time_eq left right ≡ true) ↔ (left ≡ right)
unfolding constant_time_eq
constant_time_eq_iff left right = (
  λ h. (byte_diff-zero 0 left right (ground (arith, h)) (ground (arith, h))).1,
  λ e. rw e (ground (arith, byte_diff_self right)),
)

-- A signature is accepted exactly if its bytes are those of the signature that the token gives for the
-- same timestamp, method, path and body.
pub verify_peerline_request_signature_iff :
    (lib : Library) (token : Text) (timestamp : ℤ) (method path_and_query : Text) (body : Bytes)
    (signature : Text)
    → (verify_peerline_request_signature lib token timestamp method path_and_query body signature
        ≡ true)
      ↔ (utf8 (sign_peerline_request lib token timestamp method path_and_query body)
          ≡ utf8 signature)
unfolding verify_peerline_request_signature
verify_peerline_request_signature_iff lib token timestamp method path_and_query body signature =
    constant_time_eq_iff _ _
