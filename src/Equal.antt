-- ===== src/Equal.antt =====
-- `reflect.DeepEqual`, for the types that the reconcilers compare. Maps are compared by their entries.
-- Go tells a nil slice or map from an empty one; the API server drops empty ones, and so does this.
use osko.Prelude.{
  Bool, true, false, not, ◌&&◌, Option, some, none, List, [], ◌∷◌, ◌==◌, String, if◌then◌else◌,
}
use osko.Map.{Map, lookup}

abbrev pub bools_equal : Bool → Bool → Bool
bools_equal a b = if a then b else not b

abbrev pub options_equal : {A : Type 0} → (A → A → Bool) → Option A → Option A → Bool
options_equal eq none none = true
options_equal eq (some a) (some b) = eq a b
options_equal eq _ _ = false

abbrev pub lists_equal : {A : Type 0} → (A → A → Bool) → List A → List A → Bool
lists_equal eq [] [] = true
lists_equal eq (a ∷ rest) (b ∷ others) = eq a b && lists_equal eq rest others
lists_equal eq _ _ = false

abbrev pub texts_equal : String → String → Bool
texts_equal s t = s == t

-- Each entry of the first map is in the second.
unfoldable pub within : Map String → Map String → Bool
within [] m = true
within ((key, value) ∷ rest) m =
    options_equal texts_equal (lookup key m) (some value) && within rest m

unfoldable pub maps_equal : Map String → Map String → Bool
maps_equal a b = within a b && within b a
