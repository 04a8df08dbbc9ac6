-- ===== src/Text.antt =====
-- What the program uses of Go's `strings`, `sort` and `regexp`: comparison by characters,
-- `HasPrefix`, `TrimPrefix`, `Join`, `ToLower`, and the pattern `__.*?__`.
pub mod Order
use Prim.Native.Char.{code}
use mathlib.Core.Path.{ap₂}
use osko.Prelude.{
  ℕ, ◌+◌, String, ◌<>◌, ◌≡◌, refl, sym, ◌∙◌, Bool, true, false, ◌&&◌, List, [], ◌∷◌, arith, nat_eq,
  leb, ◌==◌, eq_iff, if◌then◌else◌,
}
use text.Mathlib.TextEquality.{Char-path}
use text.Mathlib.TextLemmas.{nil-append, cons-append, append_cancel_left}

abbrev pub codes : String → List ℕ
codes String.[] = []
codes (String.◌∷◌ c s) = code c ∷ codes s

abbrev pub codes_eq : List ℕ → List ℕ → Bool
codes_eq [] [] = true
codes_eq (a ∷ s) (b ∷ t) = nat_eq a b && codes_eq s t
codes_eq _ _ = false

-- strings.HasPrefix(s, prefix)
unfoldable pub has_prefix : String → String → Bool
has_prefix s String.[] = true
has_prefix String.[] (String.◌∷◌ d p) = false
has_prefix (String.◌∷◌ c s) (String.◌∷◌ d p) = nat_eq (code c) (code d) && has_prefix s p

-- What is left of `s` behind as many characters as the prefix has.
skip : String → String → String
skip s String.[] = s
skip String.[] (String.◌∷◌ d p) = String.[]
skip (String.◌∷◌ c s) (String.◌∷◌ d p) = skip s p

-- strings.TrimPrefix(s, prefix)
unfoldable pub trim_prefix : String → String → String
unfolding skip
trim_prefix s p = if has_prefix s p then skip s p else s

-- strings.Join(parts, sep)
unfoldable pub join : String → List String → String
join sep [] = ""
join sep (x ∷ []) = x
join sep (x ∷ y ∷ rest) = x <> (sep <> join sep (y ∷ rest))

-- `.*?__` : `__` follows before the end of the line.
closes : List ℕ → Bool
closes (c ∷ d ∷ rest) =
    let later = closes (d ∷ rest) in
    if nat_eq c b'_' && nat_eq d b'_' then true else if nat_eq c 10 then false else later
closes _ = false

-- `__.*?__` at some position of the text.
matches_from : List ℕ → Bool
matches_from (c ∷ d ∷ rest) =
    let later = matches_from (d ∷ rest) in
    if nat_eq c b'_' && nat_eq d b'_' && closes rest then true else later
matches_from _ = false

-- regexp.MustCompile("__.*?__").MatchString(s)
unfoldable pub matches_dunder : String → Bool
unfolding closes matches_from
matches_dunder s = matches_from (codes s)

-- The lower case of a character, as far as an ASCII text can tell. Outside ASCII only U+0130 and
-- U+212A have a lower case in ASCII.
lower : ℕ → ℕ
lower c =
    if leb b'A' c && leb c b'Z'
    then c + 32
    else if nat_eq c 0x130
    then b'i'
    else if nat_eq c 0x212a
    then b'k'
    else c

lower_codes : List ℕ → List ℕ
lower_codes [] = []
lower_codes (c ∷ s) = lower c ∷ lower_codes s

-- strings.ToLower(s) == t, for a text t in ASCII
unfoldable pub lower_is : String → String → Bool
unfolding lower lower_codes
lower_is s t = codes_eq (lower_codes (codes s)) (codes t)

has_prefix-skip : (s p : String) → has_prefix s p ≡ true → s ≡ p <> skip s p
unfolding has_prefix skip
has_prefix-skip s String.[] h = sym (nil-append s)
has_prefix-skip String.[] (String.◌∷◌ d p) h = cc
has_prefix-skip (String.◌∷◌ c s) (String.◌∷◌ d p) h =
    ap₂ String.◌∷◌ (Char-path c d (ground arith)) (has_prefix-skip s p (ground arith))
    ∙ sym (cons-append d p (skip s p))

-- A text with the prefix is the prefix and what `TrimPrefix` leaves.
pub append-trim_prefix : (s p : String) → has_prefix s p ≡ true → s ≡ p <> trim_prefix s p
unfolding trim_prefix
append-trim_prefix s p h = rw h (has_prefix-skip s p h)

has_prefix-append_self : (p s : String) → has_prefix (p <> s) p ≡ true
unfolding has_prefix
has_prefix-append_self String.[] s = refl
has_prefix-append_self (String.◌∷◌ c p) s =
    rw cons-append (ground (arith, has_prefix-append_self p s))

-- Trimming a key gives `j` exactly if the key is the prefix and `j`.
pub trim_prefix-eq :
    (k p j : String) → has_prefix k p ≡ true → (trim_prefix k p == j) ≡ (k == p <> j)
trim_prefix-eq k p j h = ground (
  arith,
  eq_iff (trim_prefix k p) j,
  eq_iff k (p <> j),
  append-trim_prefix k p h,
  append_cancel_left p (trim_prefix k p) j,
)

pub ne-append_of_not_prefix : (k p j : String) → has_prefix k p ≡ false → (k == p <> j) ≡ false
ne-append_of_not_prefix k p j h = ground (arith, eq_iff k (p <> j), has_prefix-append_self p j)

dunder_tests :
    (matches_dunder "__name__" ≡ true)
    × (matches_dunder "____" ≡ true)
    × (matches_dunder "__name_" ≡ false)
    × (matches_dunder "a__b" ≡ false)
unfolding matches_dunder
dunder_tests = (refl, refl, refl, refl)

lower_test : lower_is "PrometheuS" "prometheus" ≡ true
unfolding lower_is
lower_test = refl

trim_test : trim_prefix "label.osko.dev/team" "label.osko.dev/" ≡ "team"
unfolding trim_prefix has_prefix
trim_test = refl
