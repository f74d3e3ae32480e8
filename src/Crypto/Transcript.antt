-- ===== src/Crypto/Transcript.antt =====
-- crates/peerline-crypto/src/transcript.rs: the parts of a transcript, and the bytes that are hashed.
pub mod Binding
use peerline.Base.{ℕ, List, [], ◌∷◌, ◌++◌, length}
use peerline.Base.Text.{Bytes}
use peerline.Base.Words.{le_bytes}

pub record Transcript : Type 0 where
  pub parts : List Bytes

abbrev pub new : Bytes → Transcript
new label = record { parts = label ∷ [] }

abbrev pub append : Transcript → Bytes → Bytes → Transcript
append t label value = record { parts = t.parts ++ label ∷ value ∷ [] }

-- What the hasher is given, part by part: the length as a u64, then the part.
unfoldable pub hasher_input : List Bytes → Bytes
hasher_input [] = []
hasher_input (part ∷ parts) = le_bytes 8 (length part) ++ (part ++ hasher_input parts)

unfoldable pub hash : (Bytes → Bytes) → Transcript → Bytes
unfolding hasher_input
hash blake3 t = blake3 (hasher_input t.parts)
