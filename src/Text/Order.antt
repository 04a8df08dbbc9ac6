-- ===== src/Text/Order.antt =====
-- The order of texts by which `sort.Strings` sorts: UTF-8 keeps the order of the code points.
use Prim.Native.Char.{code}
use mathlib.Core.Path.{ap₂}
use mathlib.Core.List.{Perm, Permᴰ}
use osko.Prelude.{
  String, ◌≡◌, refl, ◌∙◌, inl, inr, Bool, true, false, List, [], ◌∷◌, arith, ltb, nat_eq,
  Bool-cases, if◌then◌else◌, ◌==◌, eq_iff,
}
use mathlib.Core.HLevel.{hedberg}
use mathlib.Core.Logic.{∥∥₁_elim}
use text.Mathlib.TextEquality.{Char-path}

-- s <= t
unfoldable pub str_leb : String → String → Bool
str_leb String.[] t = true
str_leb (String.◌∷◌ c s) String.[] = false
str_leb (String.◌∷◌ c s) (String.◌∷◌ d t) =
    let rest = str_leb s t in
    if ltb (code c) (code d) then true else if nat_eq (code c) (code d) then rest else false

pub str_leb_total : (s t : String) → str_leb s t ≡ false → str_leb t s ≡ true
unfolding str_leb
str_leb_total String.[] t h = cc
str_leb_total (String.◌∷◌ c s) String.[] h = refl
str_leb_total (String.◌∷◌ c s) (String.◌∷◌ d t) h = ground (arith, str_leb_total s t)

pub str_leb_trans : (s t u : String) → str_leb s t ≡ true → str_leb t u ≡ true → str_leb s u ≡ true
unfolding str_leb
str_leb_trans String.[] t u h k = refl
str_leb_trans (String.◌∷◌ c s) String.[] u h k = cc
str_leb_trans (String.◌∷◌ c s) (String.◌∷◌ d t) String.[] h k = cc
str_leb_trans (String.◌∷◌ c s) (String.◌∷◌ d t) (String.◌∷◌ e u) h k =
    ground (arith, str_leb_trans s t u)

pub str_leb_antisymm : (s t : String) → str_leb s t ≡ true → str_leb t s ≡ true → s ≡ t
unfolding str_leb
str_leb_antisymm String.[] String.[] h k = refl
str_leb_antisymm String.[] (String.◌∷◌ d t) h k = cc
str_leb_antisymm (String.◌∷◌ c s) String.[] h k = cc
str_leb_antisymm (String.◌∷◌ c s) (String.◌∷◌ d t) h k =
    ap₂ String.◌∷◌ (Char-path c d (ground arith))
      (str_leb_antisymm s t (ground arith) (ground arith))

place : String → List String → List String
place a [] = a ∷ []
place a (b ∷ l) = let rest = place a l in if str_leb a b then a ∷ b ∷ l else b ∷ rest

-- sort.Strings(l)
unfoldable pub sort : List String → List String
unfolding place
sort [] = []
sort (a ∷ l) = place a (sort l)

place_comm : (a b : String) (l : List String) → place a (place b l) ≡ place b (place a l)
unfolding place
place_comm a b [] = ground (arith, str_leb_total a b, str_leb_antisymm a b, str_leb_total b a)
place_comm a b (c ∷ l) = ground (
  arith,
  place_comm a b l,
  str_leb_total a b,
  str_leb_antisymm a b,
  str_leb_total b c,
  str_leb_total a c,
  str_leb_trans a b c,
  str_leb_trans b a c,
)

-- Lists in another order are sorted alike.
sort-permᴰ : {l m : List String} → Permᴰ l m → sort l ≡ sort m
unfolding sort
sort-permᴰ Permᴰ.nil = refl
sort-permᴰ (Permᴰ.cons {a = a} {l₂ = m} e p) = ap₂ place e (sort-permᴰ p)
sort-permᴰ (Permᴰ.swap {a = a} {b = b} {l = l} e f) =
    place_comm a b (sort l) ∙ ap₂ (λ x y. place x (place y (sort l))) f e
sort-permᴰ (Permᴰ.trans p q) = sort-permᴰ p ∙ sort-permᴰ q

str_discrete : Discrete String
str_discrete s t = elim (Bool-cases (s == t)) [
  | inl same ↦ yes ((eq_iff s t).0 same)
  | inr differ ↦ no (λ p. cc (differ, (eq_iff s t).1 p))
]

texts_set : IsSet (List String)
texts_set = hlevel (hedberg str_discrete)

pub sort-perm : {l m : List String} → Perm l m → sort l ≡ sort m
sort-perm p = ∥∥₁_elim p (texts_set _ _) sort-permᴰ
