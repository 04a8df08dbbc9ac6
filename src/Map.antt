-- ===== src/Map.antt =====
-- Go's `map[string]V`, as the list of its entries in the order in which `range` gives them. That
-- order is not specified, so a theorem about a map speaks of what `lookup` finds, under
-- `NodupKeys`: a map has one entry for a key.
pub mod Laws
use osko.Prelude.{String, ◌≡◌, Option, none, some, List, [], ◌∷◌, map, ◌==◌, if◌then◌else◌, or_zero}

abbrev pub Map {ℓ} : Type ℓ → Type ℓ
Map V = List (String × V)

module _ {ℓ} {V : Type ℓ} where
  -- v, ok := m[k]
  unfoldable pub lookup : String → Map V → Option V
  lookup key [] = none
  lookup key ((own, value) ∷ rest) = if own == key then some value else lookup key rest

  -- m[k] = v
  unfoldable pub insert : String → V → Map V → Map V
  insert key value [] = (key, value) ∷ []
  insert key value ((own, old) ∷ rest) =
      let later = insert key value rest in
      if own == key then (key, value) ∷ rest else (own, old) ∷ later

  unfoldable pub keys : Map V → List String
  keys = map (λ (k, _). k)

  -- for k, v := range m { acc[k] = v }
  unfoldable pub insert_all : Map V → Map V → Map V
  insert_all acc [] = acc
  insert_all acc ((k, v) ∷ m) = insert_all (insert k v acc) m

  -- One entry for a key.
  abbrev pub NodupKeys : Map V → Type ℓ
  NodupKeys [] = Unit
  NodupKeys ((k, _) ∷ m) = (lookup k m ≡ none) × NodupKeys m

-- m[k] of a map[string]string, "" if the key is missing
unfoldable pub get : String → Map String → String
unfolding lookup
get k m = or_zero "" (lookup k m)
