-- ===== src/Transfer/Archive/Trees.antt =====
-- What making folders and files does to the paths of a destination.
use peerline.Base.{
  ◌≡◌, refl, subst, if◌then◌else◌, sym, ap, Bool, true, false, List, [], ◌∷◌, Option, none, some,
  arith, any, text_eq, text_eq_sound, Bool-cases, Option-cases, inl, inr,
}
use peerline.Base.Text.{Text, Bytes, split}
use peerline.Core.Path.{is_separator, parent}
use peerline.Transfer.Archive.{
  Node, folder, content, Tree, node_at, exists, is_content, prefixes, make_folder, make_folders,
  create_dir_all, create_parent, persist,
}

-- Whatever is in the first tree is in the second.
pub record Extends (before after : Tree) : Type 0 where
  pub kept : (p : Text) (n : Node) → node_at p before ≡ some n → node_at p after ≡ some n

pub Extends-refl : (t : Tree) → Extends t t
Extends-refl t = record { kept = λ p n h. h }

pub Extends-trans : {t u v : Tree} → Extends t u → Extends u v → Extends t v
Extends-trans h k = record { kept = λ p n e. k.kept p n (h.kept p n e) }

pub free_path : (t : Tree) (p : Text) → exists t p ≡ false → node_at p t ≡ none
unfolding exists
free_path t p h = elim (Option-cases (node_at p t)) [ inl e ↦ e | inr (n, e) ↦ ground arith ]

taken_path : {o o' : Option Node} {m : Node} → o ≡ o' → o ≡ none → o' ≡ some m → ⊥
taken_path h k e = cc

pub Extends-new : (t : Tree) (p : Text) (n : Node) → exists t p ≡ false → Extends t ((p, n) ∷ t)
unfolding node_at
Extends-new t p n h = record {
  kept = λ q m e. elim (Bool-cases (text_eq p q)) [
    | inl same ↦
        absurd (taken_path (ap (λ x. node_at x t) (text_eq_sound p q same)) (free_path t p h) e)
    | inr other ↦ rw other e
  ];
}

make_folder-Extends : (t : Tree) (p : Text) → Extends t (make_folder t p)
unfolding make_folder
make_folder-Extends t p = elim (Bool-cases (exists t p)) [
  | inl h ↦ rw h (Extends-refl t)
  | inr h ↦ rw h (Extends-new t p folder h)
]

make_folders-Extends : (t : Tree) (ps : List Text) → Extends t (make_folders t ps)
unfolding make_folders
make_folders-Extends t [] = Extends-refl t
make_folders-Extends t (p ∷ ps) =
    Extends-trans (make_folder-Extends t p) (make_folders-Extends (make_folder t p) ps)

else_some {ℓ} : {A : Type ℓ} (b : Bool) {x y : A} → (if b then none else some x) ≡ some y → x ≡ y
else_some true h = cc
else_some false h = cc

folders : Text → List Text
folders path = prefixes [] (split is_separator path)

create_dir_all_eq :
    (p : Text) (t : Tree) {t' : Tree}
    → create_dir_all p t ≡ some t'
    → make_folders t (folders p) ≡ t'
unfolding create_dir_all folders
create_dir_all_eq p t h = else_some (any (λ q. is_content (node_at q t)) (folders p)) h

pub create_dir_all-Extends :
    (p : Text) (t : Tree) {t' : Tree} → create_dir_all p t ≡ some t' → Extends t t'
create_dir_all-Extends p t h =
    subst (Extends t) (create_dir_all_eq p t h) (make_folders-Extends t (folders p))

-- No file comes with the folders.
make_folder-content :
    (t : Tree) (p q : Text) {b : Bytes}
    → node_at q (make_folder t p) ≡ some (content b)
    → node_at q t ≡ some (content b)
unfolding make_folder node_at
make_folder-content t p q h = ground arith

make_folders-content :
    (t : Tree) (ps : List Text) (q : Text) {b : Bytes}
    → node_at q (make_folders t ps) ≡ some (content b)
    → node_at q t ≡ some (content b)
unfolding make_folders
make_folders-content t [] q h = h
make_folders-content t (p ∷ ps) q h =
    make_folder-content t p q (make_folders-content (make_folder t p) ps q h)

create_dir_all-content :
    (p : Text) (t : Tree) {t' : Tree}
    → create_dir_all p t ≡ some t'
    → (q : Text) {b : Bytes} → node_at q t' ≡ some (content b)
    → node_at q t ≡ some (content b)
create_dir_all-content p t h q {b = b} k =
    make_folders-content t (folders p) q
      (subst (λ x. node_at q x ≡ some (content b)) (sym (create_dir_all_eq p t h)) k)

pub create_parent-Extends :
    (o : Option Text) (t : Tree) {t' : Tree} → create_parent o t ≡ some t' → Extends t t'
create_parent-Extends none t h = subst (Extends t) (cc) (Extends-refl t)
create_parent-Extends (some p) t h = create_dir_all-Extends p t h

pub create_parent-content :
    (o : Option Text) (t : Tree) {t' : Tree}
    → create_parent o t ≡ some t'
    → (q : Text) {b : Bytes} → node_at q t' ≡ some (content b)
    → node_at q t ≡ some (content b)
create_parent-content none t h q {b = b} k =
    subst (λ x. node_at q x ≡ some (content b)) (sym (cc)) k
create_parent-content (some p) t h q k = create_dir_all-content p t h q k

persist_new :
    (p : Text) (b : Bytes) (t : Tree) {t' : Tree}
    → node_at p t ≡ none
    → persist p b t ≡ some t'
    → (p, content b) ∷ t ≡ t'
unfolding persist
persist_new p b t e h = ground arith

persist_folder :
    (p : Text) (b : Bytes) (t : Tree) {t' : Tree}
    → node_at p t ≡ some folder
    → persist p b t ≡ some t'
    → ⊥
unfolding persist
persist_folder p b t e h = ground arith

-- A file that is put where no file is extends the tree.
pub persist-Extends :
    (p : Text) (b : Bytes) (t : Tree) {t' : Tree}
    → ((old : Bytes) → node_at p t ≡ some (content old) → ⊥)
    → persist p b t ≡ some t'
    → Extends t t'
unfolding exists
persist-Extends p b t free h = elim (Option-cases (node_at p t)) [
  | inl e ↦
      subst (Extends t) (persist_new p b t e h) (Extends-new t p (content b) (rw (e, exists) refl))
  | inr (folder, e) ↦ absurd (persist_folder p b t e h)
  | inr (content old, e) ↦ absurd (free old e)
]

-- The folders above a free path are made, and then a file there: nothing that was there changes.
pub placed-Extends :
    (p : Text) (b : Bytes) (t : Tree) {parents t' : Tree}
    → exists t p ≡ false
    → create_parent (parent p) t ≡ some parents
    → persist p b parents ≡ some t'
    → Extends parents t'
placed-Extends p b t {parents = parents} free made put =
    persist-Extends p b parents
      (λ old e. taken_path refl (free_path t p free) (create_parent-content (parent p) t made p e))
      put
