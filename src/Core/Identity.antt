-- ===== src/Core/Identity.antt =====
-- crates/peerline-core/src/identity.rs: the names and codes that people type, and the key they make.
-- Argon2 and blake3 are parameters. Random names and the estimate of entropy are left out.
pub mod Normal
use peerline.Base.{
  ℕ, zero, suc, ◌+◌, ◌<◌, Bool, true, false, not, ◌||◌, List, [], ◌∷◌, ◌++◌, Option, none, some,
  Result, ok, err, ◌>>=◌, ltb, leb, ◌==◌, if◌then◌else◌, all, is_empty, take, filter_map,
}
use mathlib.Core.List.{reverse}
use peerline.Base.Text.{
  Text, Bytes, codes, utf8, byte_len, is_lower, is_digit, lowercase, trim, starts_with,
  contains_text,
}

pub data IdentityError : Type 0 where
  empty too_long invalid_character bad_hyphen : IdentityError

abbrev pub hyphen : Text
hyphen = codes "-"

-- `str::ends_with`.
unfoldable pub ends_with : Text → Text → Bool
ends_with suffix s = starts_with (reverse suffix) (reverse s)

unfoldable pub is_token_char : ℕ → Bool
is_token_char c = is_lower c || is_digit c || c == b'-'

unfoldable pub has_bad_hyphen : Text → Bool
unfolding ends_with
has_bad_hyphen s = starts_with hyphen s || ends_with hyphen s || contains_text (codes "--") s

-- The tests of `normalize_token`, on the text that was trimmed and put in lower case.
unfoldable pub check_token : Text → ℕ → Result IdentityError Text
unfolding has_bad_hyphen is_token_char
check_token trimmed max_len =
    if is_empty trimmed
    then err empty
    else if ltb max_len (byte_len trimmed)
    then err too_long
    else if has_bad_hyphen trimmed
    then err bad_hyphen
    else if not (all is_token_char trimmed)
    then err invalid_character
    else ok trimmed

unfoldable pub normalize_token : Text → ℕ → Result IdentityError Text
unfolding check_token
normalize_token value max_len = check_token (lowercase (trim value)) max_len

pub record NameCode : Type 0 where
  pub name : Text
  pub code : Text

-- `HumanName::parse` and `HumanCode::parse`, and a pair of both.
unfoldable pub parse_name : Text → Result IdentityError Text
unfolding normalize_token
parse_name value = normalize_token value 64

unfoldable pub parse_code : Text → Result IdentityError Text
unfolding normalize_token
parse_code value = normalize_token value 96

-- `argon` stretches a password with a salt; `blake3` hashes.
unfoldable pub lookup_key : (Bytes → Bytes) → (Bytes → Bytes → Bytes) → NameCode → Bytes
lookup_key blake3 argon pair = blake3 (
    utf8 (codes "peerline:dht:v1")
    ++ utf8 pair.name
    ++ argon (utf8 pair.code)
        (take 16 (blake3 (utf8 (codes "peerline:dht:salt:v1") ++ utf8 pair.name))))

-- `direct_port_candidates`: the ports from `start` on that are u16.
abbrev pub offsets : ℕ → ℕ → List ℕ
offsets n zero = []
offsets n (suc window) = n ∷ offsets (suc n) window

unfoldable pub direct_port_candidates : ℕ → ℕ → List ℕ
direct_port_candidates start window =
    filter_map (λ offset. if ltb (start + offset) 65536 then some (start + offset) else none)
      (offsets 0 window)
