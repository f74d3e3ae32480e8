-- ===== src/Base/Words.antt =====
-- The bytes of a machine word, in both orders.
use peerline.Base.{ℕ, zero, suc, ◌/◌, ◌%◌, ◌<◌, ◌^◌, ◌≡◌, [], ◌∷◌, ◌++◌, arith}
use peerline.Base.Text.{Bytes}

-- `to_le_bytes` of a word of `w` bytes.
unfoldable pub le_bytes : ℕ → ℕ → Bytes
le_bytes zero n = []
le_bytes (suc w) n = n % 256 ∷ le_bytes w (n / 256)

-- `to_be_bytes`.
unfoldable pub be_bytes : ℕ → ℕ → Bytes
be_bytes zero n = []
be_bytes (suc w) n = be_bytes w (n / 256) ++ n % 256 ∷ []

-- The number has at most `w` digits in base 256.
abbrev pub Fits : ℕ → ℕ → Type 0
Fits zero n = n ≡ 0
Fits (suc w) n = Fits w (n / 256)

pub le_bytes_injective : (w m n : ℕ) → Fits w m → Fits w n → le_bytes w m ≡ le_bytes w n → m ≡ n
unfolding le_bytes
le_bytes_injective zero m n h k e = omega arith
le_bytes_injective (suc w) m n h k e =
    let low : m % 256 ≡ n % 256 = cc in
    omega (arith, low, le_bytes_injective w (m / 256) (n / 256) h k (cc))

pub u64-Fits : (n : ℕ) → n < 2 ^ 64 → Fits 8 n
u64-Fits n h = omega arith
