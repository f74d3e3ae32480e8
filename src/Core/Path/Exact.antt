-- ===== src/Core/Path/Exact.antt =====
-- The paths that `validate_relative_path` accepts, and their components.
use peerline.Base.{
  ℕ, ◌≡◌, refl, ap, subst, ◌↔◌, true, false, List, [], ◌∷◌, map, some, ok, arith, All, any,
  filter_map, is_empty, text_eq, text_eq_iff, Bool-cases, inl, inr,
}
use peerline.Base.Text.{Text, codes, split}
use peerline.Core.Path.{
  normal, component_of, components, relative_components, is_separator, is_absolute, is_noncanonical,
  has_noncanonical_segments, check_components, validate_relative_path,
}

-- A segment that is neither empty nor a dot or two.
abbrev pub IsProper : Text → Type 0
IsProper s = (s ≡ [] → ⊥) × (s ≡ codes "." → ⊥) × (s ≡ codes ".." → ⊥)

proper→ : (s : Text) → is_noncanonical s ≡ false → IsProper s
unfolding is_noncanonical text_eq
proper→ s h = (λ e. cc, λ e. cc, λ e. cc)

proper← : (s : Text) → IsProper s → is_noncanonical s ≡ false
unfolding is_noncanonical
proper← [] h = absurd (h.0 refl)
proper← (c ∷ s) h =
    ground (arith, h, text_eq_iff (c ∷ s) (codes "."), text_eq_iff (c ∷ s) (codes ".."))

All-IsProper : (ss : List Text) → any is_noncanonical ss ≡ false → All IsProper ss
unfolding any
All-IsProper [] h = tt
All-IsProper (s ∷ ss) h = (proper→ s (ground (arith, h)), All-IsProper ss (ground (arith, h)))

any-is_noncanonical : (ss : List Text) → All IsProper ss → any is_noncanonical ss ≡ false
unfolding any
any-is_noncanonical [] h = refl
any-is_noncanonical (s ∷ ss) h = ground (arith, proper← s h.0, any-is_noncanonical ss h.1)

component_of-IsProper : (s : Text) → IsProper s → component_of s ≡ some (normal s)
unfolding component_of
component_of-IsProper [] h = absurd (h.0 refl)
component_of-IsProper (c ∷ s) h =
    ground (arith, h, text_eq_iff (c ∷ s) (codes "."), text_eq_iff (c ∷ s) (codes ".."))

filter_map-component_of :
    (ss : List Text) → All IsProper ss → filter_map component_of ss ≡ map normal ss
unfolding filter_map
filter_map-component_of [] h = refl
filter_map-component_of (s ∷ ss) h =
    rw (component_of-IsProper s h.0, filter_map)
      (ap (◌∷◌ (normal s)) (filter_map-component_of ss h.1))

relative_components-IsProper :
    (ss : List Text) → All IsProper ss → relative_components ss ≡ map normal ss
unfolding relative_components
relative_components-IsProper [] h = refl
relative_components-IsProper (s ∷ ss) h = elim (Bool-cases (text_eq s (codes "."))) [
  | inl e ↦ absurd (h.0.1 ((text_eq_iff s (codes ".")).0 e))
  | inr e ↦ rw e (filter_map-component_of (s ∷ ss) h)
]

check_components-normal :
    (ss : List Text) → All IsProper ss → check_components (map normal ss) ≡ ok tt
unfolding check_components
check_components-normal [] h = refl
check_components-normal ([] ∷ ss) h = absurd (h.0.0 refl)
check_components-normal ((c ∷ s) ∷ ss) h = check_components-normal ss h.1

split_at :
    (c : ℕ) (s : Text)
    → is_separator c ≡ true
    → split is_separator (c ∷ s) ≡ [] ∷ split is_separator s
unfolding split
split_at c s e = rw e refl

not_absolute : (p : Text) → All IsProper (split is_separator p) → is_absolute p ≡ false
not_absolute [] h = refl
not_absolute (c ∷ s) h = elim (Bool-cases (is_separator c)) [
  | inl e ↦ absurd ((subst (All IsProper) (split_at c s e) h).0.0 refl)
  | inr e ↦ e
]

-- A path whose segments are proper has one component for each of them, a normal one.
pub components-IsProper :
    (p : Text)
    → All IsProper (split is_separator p)
    → components p ≡ map normal (split is_separator p)
unfolding components
components-IsProper p h =
    rw (not_absolute p h) (relative_components-IsProper (split is_separator p) h)

not_empty : (p : Text) → All IsProper (split is_separator p) → is_empty p ≡ false
unfolding split
not_empty [] h = absurd (h.0.0 refl)
not_empty (c ∷ s) h = refl

accepted : (p : Text) → All IsProper (split is_separator p) → validate_relative_path p ≡ ok tt
unfolding validate_relative_path has_noncanonical_segments
accepted p h =
    rw
      (
        not_empty p h,
        not_absolute p h,
        any-is_noncanonical (split is_separator p) h,
        relative_components-IsProper (split is_separator p) h,
      )
      (check_components-normal (split is_separator p) h)

canonical : (p : Text) → validate_relative_path p ≡ ok tt → has_noncanonical_segments p ≡ false
unfolding validate_relative_path
canonical p h = ground arith

-- `validate_relative_path` accepts exactly the paths all of whose segments between slashes are neither
-- empty nor a dot nor two dots.
pub validate_relative_path_iff :
    (p : Text) → (validate_relative_path p ≡ ok tt) ↔ All IsProper (split is_separator p)
unfolding has_noncanonical_segments
validate_relative_path_iff p =
    (λ h. All-IsProper (split is_separator p) (canonical p h), accepted p)
