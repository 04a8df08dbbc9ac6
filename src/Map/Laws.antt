-- ===== src/Map/Laws.antt =====
-- What the map operations do to `lookup`.
use osko.Prelude.{String, ◌≡◌, refl, some, [], ◌∷◌, arith, ◌==◌, eq_iff, if◌then◌else◌, or_else}
use osko.Map.{Map, lookup, insert, insert_all, NodupKeys}

module _ {ℓ} {V : Type ℓ} where
  pub lookup-insert :
      (key read : String) (value : V) (m : Map V)
      → lookup read (insert key value m) ≡ (if key == read then some value else lookup read m)
  unfolding lookup insert
  lookup-insert key read value [] = refl
  lookup-insert key read value ((own, old) ∷ rest) =
      ground
        (arith, lookup-insert key read value rest, eq_iff own key, eq_iff own read, eq_iff key read)

  pub lookup-cons :
      (j k : String) (v : V) (m : Map V)
      → lookup j ((k, v) ∷ m) ≡ (if k == j then some v else lookup j m)
  unfolding lookup
  lookup-cons j k v m = refl

  pub insert-NodupKeys : (k : String) (v : V) (m : Map V) → NodupKeys m → NodupKeys (insert k v m)
  unfolding lookup insert
  insert-NodupKeys k v [] h = (refl, tt)
  insert-NodupKeys k v ((i, w) ∷ m) (fresh, h) =
      ground (arith, eq_iff i k, eq_iff k i, insert-NodupKeys k v m h, lookup-insert k i v m)

  pub insert_all-NodupKeys : (acc m : Map V) → NodupKeys acc → NodupKeys (insert_all acc m)
  unfolding insert_all
  insert_all-NodupKeys acc [] h = h
  insert_all-NodupKeys acc ((k, v) ∷ m) h =
      insert_all-NodupKeys (insert k v acc) m (insert-NodupKeys k v acc h)

  -- An entry of the second map wins.
  pub lookup-insert_all :
      (acc m : Map V) (j : String)
      → NodupKeys m
      → lookup j (insert_all acc m) ≡ or_else (lookup j m) (lookup j acc)
  unfolding lookup insert_all
  lookup-insert_all acc [] j h = refl
  lookup-insert_all acc ((k, v) ∷ m) j (fresh, h) =
      rw (lookup-insert_all (insert k v acc) m j h, lookup-insert) (ground (arith, eq_iff k j))
