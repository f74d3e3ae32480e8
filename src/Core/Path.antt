-- ===== src/Core/Path.antt =====
-- crates/peerline-core/src/path.rs: checks on relative paths, and names that are not taken. A path is
-- its text, on a platform where `/` alone separates and no path has a prefix.
pub mod Exact
pub mod Free
use peerline.Base.{
  ℕ, ◌+◌, zero, suc, Bool, true, false, ◌||◌, List, [], ◌∷◌, ◌++◌, Option, none, some, Result, ok,
  err, ◌>>=◌, ◌>>◌, ◌==◌, if◌then◌else◌, is_empty, any, filter_map, text_eq,
}
use mathlib.Core.List.{reverse}
use mathlib.Core.Option
use peerline.Base.Int.{decimal}
use peerline.Base.Text.{Text, codes, split, first_part, last_part}

pub data PathError : Type 0 where
  absolute parent_component empty prefix : PathError

-- `std::path::Component`.
pub data Component : Type 0 where
  root_dir cur_dir parent_dir : Component
  normal : Text → Component

abbrev pub is_separator : ℕ → Bool
is_separator c = c == b'/'

abbrev pub is_absolute : Text → Bool
is_absolute [] = false
is_absolute (c ∷ s) = is_separator c

-- The component that a segment is, past the first: an empty one and `.` are none.
unfoldable pub component_of : Text → Option Component
component_of s =
    if is_empty s || text_eq s (codes ".")
    then none
    else if text_eq s (codes "..")
    then some parent_dir
    else some (normal s)

-- `Path::components`, from the segments of a path that is not absolute.
unfoldable pub relative_components : List Text → List Component
unfolding component_of
relative_components [] = []
relative_components (s ∷ ss) =
    if text_eq s (codes ".")
    then cur_dir ∷ filter_map component_of ss
    else filter_map component_of (s ∷ ss)

-- `Path::components`.
unfoldable pub components : Text → List Component
unfolding relative_components component_of
components path =
    if is_absolute path
    then root_dir ∷ filter_map component_of (split is_separator path)
    else relative_components (split is_separator path)

unfoldable pub is_noncanonical : Text → Bool
is_noncanonical segment =
    is_empty segment || text_eq segment (codes ".") || text_eq segment (codes "..")

unfoldable pub has_noncanonical_segments : Text → Bool
unfolding is_noncanonical
has_noncanonical_segments path = any is_noncanonical (split is_separator path)

-- The `match` of `validate_relative_path` on one component.
abbrev pub check_component : Component → Result PathError (Unit {0})
check_component root_dir = err absolute
check_component cur_dir = err parent_component
check_component parent_dir = err parent_component
check_component (normal part) = if is_empty part then err empty else ok tt

unfoldable pub check_components : List Component → Result PathError (Unit {0})
check_components [] = ok tt
check_components (c ∷ cs) = check_component c >> check_components cs

unfoldable pub validate_relative_path : Text → Result PathError (Unit {0})
unfolding has_noncanonical_segments components check_components
validate_relative_path path =
    if is_empty path
    then err empty
    else if is_absolute path
    then err absolute
    else if has_noncanonical_segments path
    then err parent_component
    else check_components (components path)

-- The part before the last character that passes the test.
abbrev pub after_first : (ℕ → Bool) → Text → Option Text
after_first p [] = none
after_first p (c ∷ s) = if p c then some s else after_first p s

abbrev pub before_last : (ℕ → Bool) → Text → Option Text
before_last p s = Option.map reverse (after_first p (reverse s))

-- `Path::join` of one name, on a directory that may be the empty path.
abbrev pub join_name : Text → Text → Text
join_name [] name = name
join_name (c ∷ parent) name = (c ∷ parent) ++ (b'/' ∷ name)

-- `Path::parent`, of a path that has canonical segments; a single name has the empty parent.
unfoldable pub parent : Text → Option Text
parent path = before_last is_separator path

-- `Path::file_stem` and `Path::extension` of a file's name: a first dot starts no extension.
unfoldable pub stem_extension : Text → Text × Option Text
stem_extension name = elim (before_last (λ c. c == b'.') name) [
  | none ↦ (name, none)
  | some [] ↦ (name, none)
  | some (c ∷ stem) ↦ (c ∷ stem, some (last_part (λ c. c == b'.') name))
]

-- The name with a number: `stem (index).ext`, or `stem (index)`.
abbrev pub numbered : Text × Option Text → ℕ → Text
numbered (stem, none) index = stem ++ codes " (" ++ decimal index ++ codes ")"
numbered (stem, some ext) index = stem ++ codes " (" ++ decimal index ++ codes ")." ++ ext

unfoldable pub candidate : Text → ℕ → Text
unfolding stem_extension parent
candidate path index =
    join_name (Option.get_or (parent path) [])
      (numbered (stem_extension (last_part is_separator path)) index)

-- The loop of `non_overwriting_path`, for `fuel` turns. The index is an i32 in the source, whose range ends
-- after 2^31 - 1 names that are taken.
unfoldable pub first_free : (Text → Bool) → (ℕ → Text) → ℕ → ℕ → Option Text
first_free exists name zero index = none
first_free exists name (suc fuel) index =
    let rest = first_free exists name fuel (suc index) in
    if exists (name index) then rest else some (name index)

unfoldable pub non_overwriting_path : (Text → Bool) → ℕ → Text → Option Text
unfolding first_free candidate
non_overwriting_path exists fuel path =
    if exists path then first_free exists (candidate path) fuel 1 else some path
