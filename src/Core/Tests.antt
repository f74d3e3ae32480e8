-- ===== src/Core/Tests.antt =====
-- Examples of paths and names.
use peerline.Base.{◌≡◌, refl, text_eq, ◌↔◌, some, ok, err, all, any, filter_map, All}
use peerline.Base.Int.{decimal}
use peerline.Base.Text.{
  Text, codes, split, last_part, lowercase, trim, byte_len, starts_with, contains_text, is_lower,
  is_digit,
}
use peerline.Core.Identity.{normalize_token}
use peerline.Core.Identity.Normal.{normalize_token-normalize_token}
use peerline.Core.Path.{
  parent_component, is_separator, has_noncanonical_segments, components, check_components,
  validate_relative_path, non_overwriting_path, candidate, first_free,
}
use peerline.Core.Path.Exact.{IsProper, validate_relative_path_iff}

abbrev nested : Text
nested = codes "folder/file"

accepts_nested : validate_relative_path nested ≡ ok tt
unfolding validate_relative_path has_noncanonical_segments components check_components any split
    text_eq filter_map
accepts_nested = refl

rejects_dot : validate_relative_path (codes "folder/./file") ≡ err parent_component
unfolding validate_relative_path has_noncanonical_segments any split text_eq
rejects_dot = refl

keeps_both :
    non_overwriting_path (λ p. text_eq p (codes "b/a.txt")) 2 (codes "b/a.txt")
    ≡ some (codes "b/a (1).txt")
unfolding non_overwriting_path candidate first_free decimal text_eq last_part
keeps_both = refl

validate_relative_path_iff_example :
    (validate_relative_path nested ≡ ok tt) ↔ All IsProper (split is_separator nested)
validate_relative_path_iff_example = validate_relative_path_iff nested

normalizes : normalize_token (codes " River-42 ") 64 ≡ ok (codes "river-42")
unfolding normalize_token lowercase trim byte_len starts_with contains_text all is_lower is_digit
normalizes = refl

normalize_token-normalize_token_example :
    normalize_token (codes "river-42") 64 ≡ ok (codes "river-42")
normalize_token-normalize_token_example =
    normalize_token-normalize_token (codes " River-42 ") 64 normalizes
