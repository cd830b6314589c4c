-- ===== src/Validation.antt =====
-- src/runmantle/_validation.py: the guards that the value objects share.
use runmantle.Prelude.{
  String, ◌<>◌, Bool, false, not, List, [], ◌∷◌, Guard, ok, value_error, ◌>>◌, raise_if, contains,
  is_blank, ◌||◌,
}
use runmantle.Value.{DateTime}

unfoldable pub require_non_empty : String → String → Guard
require_non_empty value label =
    raise_if (is_blank value) (value_error (label <> " must not be empty"))

-- Each attribute by its value and its name.
unfoldable pub require_non_empty_attributes : String → List (String × String) → Guard
unfolding require_non_empty
require_non_empty_attributes prefix [] = ok tt
require_non_empty_attributes prefix ((value, attribute) ∷ rest) = do
  require_non_empty value (prefix <> " " <> attribute)
  require_non_empty_attributes prefix rest

-- `len(items) != len(set(items))`.
unfoldable pub has_duplicates : List String → Bool
has_duplicates [] = false
has_duplicates (x ∷ xs) = contains xs x || has_duplicates xs

unfoldable pub require_unique : List String → String → Guard
require_unique values message = raise_if (has_duplicates values) (value_error message)

unfoldable pub require_aware : DateTime → String → Guard
require_aware moment label = raise_if (not moment.aware) (value_error label)
