-- ===== src/Transfer/Run.antt =====
-- The steps of an unpacking: each ends well, or with an error and the destination as it is left.
use peerline.Base.{Result, ok, err}
use peerline.Transfer.Archive.{ArchiveError, Tree}

abbrev pub Failure : Type 0
Failure = ArchiveError × Tree

-- An error at a step leaves the destination as it was.
unfoldable pub leaving {ℓ} : {A : Type ℓ} → Tree → Result ArchiveError A → Result Failure A
leaving tree (ok a) = ok a
leaving tree (err e) = err (e, tree)

-- The operator `?`, kept shut so that a proof goes step by step.
infixl 5 ◌>>=◌ ◌>>◌
unfoldable pub ◌>>=◌ {ℓ κ} :
    {A : Type ℓ} {B : Type κ} → Result Failure A → (A → Result Failure B) → Result Failure B
ok a >>= next = next a
err e >>= next = err e

abbrev pub ◌>>◌ {ℓ} : {B : Type ℓ} → Result Failure (Unit {0}) → Result Failure B → Result Failure B
first >> second = first >>= λ u. second
