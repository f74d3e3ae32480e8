-- ===== src/Transfer/Names.antt =====
-- path.rs: the numbered names, compared with the paths of a destination.
use peerline.Base.{
  ℕ, suc, ◌≤◌, ◌≡◌, ◌≢◌, refl, sym, ◌∙◌, true, false, [], ◌∷◌, ◌++◌, Option, none, some, arith, ltb,
  if◌then◌else◌, length, text_eq, text_eq_sound, Bool-cases, inl, inr,
}
use mathlib.Core.List.{append_cancel_left, append_cancel_right}
use mathlib.Core.Option
use peerline.Base.Int.{decimal}
use peerline.Base.Int.Decimal.{decimal_injective}
use peerline.Base.Text.{Text, codes, last_part}
use peerline.Core.Path.{
  join_name, parent, stem_extension, is_separator, numbered, candidate, non_overwriting_path,
}
use peerline.Core.Path.Free.{first_free-found, non_overwriting_path-free}
use peerline.Transfer.Archive.{Tree, Node, node_at, exists}

-- The numbers without `n`, in their order.
abbrev over : ℕ → ℕ → ℕ
over n m = if ltb m n then m else suc m

over_injective : (n i j : ℕ) → over n i ≡ over n j → i ≡ j
over_injective n i j h = ground arith

over_other : (n m : ℕ) → n ≢ over n m
over_other n m h = ground arith

over-le : (n m : ℕ) → over n m ≤ suc m
over-le n m = ground arith

past_entry :
    (p q : Text) (node : Node) (tree : Tree)
    → text_eq p q ≡ false
    → exists tree q ≡ false
    → exists ((p, node) ∷ tree) q ≡ false
unfolding exists node_at
past_entry p q node tree h k = ground arith

distinct_name :
    (name : ℕ → Text)
    → ((i j : ℕ) → name i ≡ name j → i ≡ j)
    → (p : Text) (i j : ℕ) → i ≢ j
    → text_eq p (name i) ≡ true
    → text_eq p (name j) ≡ false
distinct_name name inj p i j other h = elim (Bool-cases (text_eq p (name j))) [
  | inl k ↦ absurd (other (inj i j (sym (text_eq_sound p (name i) h) ∙ text_eq_sound p (name j) k)))
  | inr k ↦ k
]

-- Of different names, one more than a tree has entries, one is free.
free_name :
    (tree : Tree) (name : ℕ → Text)
    → ((i j : ℕ) → name i ≡ name j → i ≡ j)
    → (n : ℕ) × (n ≤ length tree) × (exists tree (name n) ≡ false)
unfolding exists node_at
free_name [] name inj = (0, omega arith, refl)
free_name ((p, node) ∷ tree) name inj =
    let (n, few, free) = free_name tree name inj in
    elim (Bool-cases (text_eq p (name n))) [
      | inl same ↦
          let (m, few', free') =
            free_name tree (λ i. name (over n i))
              (λ i j e. over_injective n i j (inj (over n i) (over n j) e)) in
          (
            over n m,
            omega (arith, over-le n m, few'),
            past_entry p (name (over n m)) node tree
                (distinct_name name inj p n (over n m) (over_other n m) same) free',
          )
      | inr other ↦ (n, omega (arith, few), past_entry p (name n) node tree other free)
    ]

join_name_cancel : (parent a b : Text) → join_name parent a ≡ join_name parent b → a ≡ b
join_name_cancel [] a b h = h
join_name_cancel (c ∷ parent) a b h =
    append_cancel_left (b'/' ∷ []) a b (append_cancel_left (c ∷ parent) (b'/' ∷ a) (b'/' ∷ b) h)

opened : Text → ℕ → Text
opened stem index = stem ++ codes " (" ++ decimal index

opened_injective : (stem : Text) (i j : ℕ) → opened stem i ≡ opened stem j → i ≡ j
unfolding opened
opened_injective stem i j h =
    decimal_injective i j (append_cancel_left (stem ++ codes " (") (decimal i) (decimal j) h)

numbered_injective : (se : Text × Option Text) (i j : ℕ) → numbered se i ≡ numbered se j → i ≡ j
unfolding opened
numbered_injective (stem, none) i j h =
    opened_injective stem i j (append_cancel_right (opened stem i) (opened stem j) (codes ")") h)
numbered_injective (stem, some ext) i j h = opened_injective stem i j (
    append_cancel_right (opened stem i) (opened stem j) (codes ").")
      (append_cancel_right (opened stem i ++ codes ").") (opened stem j ++ codes ").") ext h))

candidate_injective : (path : Text) (i j : ℕ) → candidate path i ≡ candidate path j → i ≡ j
unfolding candidate
candidate_injective path i j h =
    numbered_injective (stem_extension (last_part is_separator path)) i j
      (join_name_cancel (Option.get_or (parent path) []) _ _ h)

found_path :
    (tree : Tree) (path : Text)
    → (p : Text) × (non_overwriting_path (exists tree) (suc (length tree)) path ≡ some p)
unfolding non_overwriting_path
found_path tree path = elim (Bool-cases (exists tree path)) [
  | inl e ↦
      let (n, few, free) =
        free_name tree (λ i. candidate path (suc i))
          (λ i j h. suc_same (candidate_injective path (suc i) (suc j) h)) in
      rw e (
        first_free-found (exists tree) (candidate path) (suc (length tree)) 1 (suc n) (omega arith)
          (omega (arith, few)) free)
  | inr e ↦ (path, rw e refl)
]
  where
    suc_same : {i j : ℕ} → suc i ≡ suc j → i ≡ j
    suc_same h = omega (arith, h)

-- Whatever paths the destination has, `non_overwriting_path` finds a path within its turns, one more
-- than the destination has entries, and one that is not taken.
pub non_overwriting_path-found :
    (tree : Tree) (path : Text)
    → (p : Text) × (non_overwriting_path (exists tree) (suc (length tree)) path ≡ some p)
      × (exists tree p ≡ false)
non_overwriting_path-found tree path =
    let (p, found) = found_path tree path in
    (p, found, non_overwriting_path-free (exists tree) (suc (length tree)) path found)
