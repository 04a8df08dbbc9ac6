-- ===== src/Rules/Labels/Unique.antt =====
-- `uniqueStrings` keeps the first of each text.
use osko.Prelude.{
  length, ◌≤◌, String, ◌≡◌, refl, ap, Bool, true, false, not, ◌&&◌, ◌||◌, List, [], ◌∷◌, arith,
  ◌==◌, eq_iff, or_zero, Bool-cases, inl, inr,
}
use osko.Map.{Map, lookup, insert}
use osko.Map.Laws.{lookup-insert}
use osko.Rules.Labels.{unique_from, unique_strings}

abbrev pub contains : String → List String → Bool
contains v [] = false
contains v (x ∷ xs) = x == v || contains v xs

abbrev pub Distinct : List String → Type 0
Distinct [] = Unit
Distinct (x ∷ xs) = (contains x xs ≡ false) × Distinct xs

abbrev was_seen : Map Bool → String → Bool
was_seen seen v = or_zero false (lookup v seen)

was_seen-insert :
    (seen : Map Bool) (k v : String) → was_seen (insert k true seen) v ≡ (k == v || was_seen seen v)
was_seen-insert seen k v = rw lookup-insert (ground arith)

contains-unique_from :
    (seen : Map Bool) (l : List String) (v : String)
    → contains v (unique_from seen l) ≡ (not (was_seen seen v) && contains v l)
unfolding unique_from
contains-unique_from seen [] v = ground arith
contains-unique_from seen (x ∷ l) v = elim (Bool-cases (was_seen seen x)) [
  | inl old ↦ rw (old, unique_from) (ground (arith, contains-unique_from seen l v, eq_iff x v))
  | inr new ↦
      rw (new, unique_from)
        (ground (
          arith,
          contains-unique_from (insert x true seen) l v,
          was_seen-insert seen x v,
          eq_iff x v,
        ))
]

unique_from-Distinct : (seen : Map Bool) (l : List String) → Distinct (unique_from seen l)
unfolding unique_from
unique_from-Distinct seen [] = tt
unique_from-Distinct seen (x ∷ l) = elim (Bool-cases (was_seen seen x)) [
  | inl old ↦ rw (old, unique_from) (unique_from-Distinct seen l)
  | inr new ↦
      rw (new, unique_from)
        (
          ground (
            arith,
            contains-unique_from (insert x true seen) l x,
            was_seen-insert seen x x,
            eq_iff x x,
          ),
          unique_from-Distinct (insert x true seen) l,
        )
]

length-unique_from : (seen : Map Bool) (l : List String) → length (unique_from seen l) ≤ length l
unfolding unique_from
length-unique_from seen [] = omega arith
length-unique_from seen (x ∷ l) = elim (Bool-cases (was_seen seen x)) [
  | inl old ↦ rw (old, unique_from) (omega (arith, length-unique_from seen l))
  | inr new ↦ rw (new, unique_from) (omega (arith, length-unique_from (insert x true seen) l))
]

pub length-unique_strings : (l : List String) → length (unique_strings l) ≤ length l
unfolding unique_strings
length-unique_strings l = length-unique_from [] l

-- The result has no text twice, and the texts of the input, no more and no fewer.
pub unique_strings-Distinct :
    (l : List String)
    → Distinct (unique_strings l) × ((v : String) → contains v (unique_strings l) ≡ contains v l)
unfolding unique_strings lookup
unique_strings-Distinct l = (unique_from-Distinct [] l, λ v. contains-unique_from [] l v)

unique_from_of_Distinct :
    (seen : Map Bool) (l : List String)
    → Distinct l
    → ((v : String) → contains v l ≡ true → was_seen seen v ≡ false)
    → unique_from seen l ≡ l
unfolding unique_from
unique_from_of_Distinct seen [] h k = refl
unique_from_of_Distinct seen (x ∷ l) (fresh, h) k =
    rw (k x (ground (arith, eq_iff x x)), unique_from)
      (ap (◌∷◌ x) (
        unique_from_of_Distinct (insert x true seen) l h
          λ v m. ground (arith, was_seen-insert seen x v, k v, eq_iff x v)))

-- A list without repetitions is returned as it is.
pub unique_strings_of_Distinct : (l : List String) → Distinct l → unique_strings l ≡ l
unfolding unique_strings lookup
unique_strings_of_Distinct l h = unique_from_of_Distinct [] l h (λ v m. refl)
