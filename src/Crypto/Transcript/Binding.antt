-- ===== src/Crypto/Transcript/Binding.antt =====
-- transcript.rs: the bytes that are hashed, compared with the parts.
use peerline.Base.{
  ℕ, zero, suc, ◌/◌, ◌<◌, ◌^◌, ◌≡◌, refl, sym, ◌∙◌, List, [], ◌∷◌, ◌++◌, arith, All, length,
}
use peerline.Base.Text.{Bytes}
use peerline.Base.Words.{le_bytes, le_bytes_injective, u64-Fits}
use peerline.Crypto.Transcript.{hasher_input}

-- Two lists that agree, and are split at the same length, agree in both parts.
split_same {ℓ} :
    {A : Type ℓ} (xs ys ss ts : List A)
    → length xs ≡ length ys
    → xs ++ ss ≡ ys ++ ts
    → (xs ≡ ys) × (ss ≡ ts)
split_same [] [] ss ts l h = (refl, h)
split_same [] (y ∷ ys) ss ts l h = absurd (omega (arith, l))
split_same (x ∷ xs) [] ss ts l h = absurd (omega (arith, l))
split_same (x ∷ xs) (y ∷ ys) ss ts l h =
    let (front, back) = split_same xs ys ss ts (omega (arith, l)) (cc) in (cc (front, h), back)

length-le_bytes : (w n : ℕ) → length (le_bytes w n) ≡ w
unfolding le_bytes
length-le_bytes zero n = refl
length-le_bytes (suc w) n = omega (arith, length-le_bytes w (n / 256))

some_bytes : (n : ℕ) (rest : Bytes) → le_bytes 8 n ++ rest ≡ [] → ⊥
unfolding le_bytes
some_bytes n rest e = cc

-- Transcripts whose parts are shorter than 2^64 bytes give the hasher the same bytes only if they have
-- the same parts.
pub hasher_input_injective :
    (ps qs : List Bytes)
    → All (λ p. length p < 2 ^ 64) ps
    → All (λ q. length q < 2 ^ 64) qs
    → hasher_input ps ≡ hasher_input qs
    → ps ≡ qs
unfolding hasher_input
hasher_input_injective [] [] hp hq e = refl
hasher_input_injective [] (q ∷ qs) hp hq e =
    absurd (some_bytes (length q) (q ++ hasher_input qs) (sym e))
hasher_input_injective (p ∷ ps) [] hp hq e = absurd (some_bytes (length p) (p ++ hasher_input ps) e)
hasher_input_injective (p ∷ ps) (q ∷ qs) hp hq e =
    let (lengths, rest) =
      split_same (le_bytes 8 (length p)) (le_bytes 8 (length q)) (p ++ hasher_input ps)
        (q ++ hasher_input qs) (length-le_bytes 8 (length p) ∙ sym (length-le_bytes 8 (length q)))
        e in
    let same =
      le_bytes_injective 8 (length p) (length q) (u64-Fits (length p) hp.0)
        (u64-Fits (length q) hq.0) lengths in
    let (part, parts) = split_same p q (hasher_input ps) (hasher_input qs) same rest in
    cc (part, hasher_input_injective ps qs hp.1 hq.1 parts)
