-- ===== src/Status/Laws.antt =====
-- What a list of conditions says after `updateCondition`.
use osko.Prelude.{
  ℕ, String, ◌≡◌, refl, ap, ◌⊎◌, Option, none, some, List, [], ◌∷◌, ◌++◌, arith, ◌==◌, eq_iff,
  eq_refl, if◌then◌else◌, Bool-cases, inl, inr, Option-cases, or_else,
}
use osko.Api.Meta.{Condition}
use osko.Status.{find_condition, other_conditions, replace_condition, update_condition}

-- No two conditions have one type.
abbrev pub OnePerType : List Condition → Type 0
OnePerType [] = Unit
OnePerType (c ∷ cs) = (find_condition c.type cs ≡ none) × OnePerType cs

find-append :
    (t : String) (cs : List Condition) (d : Condition)
    → find_condition t (cs ++ d ∷ [])
      ≡ or_else (find_condition t cs) (if d.type == t then some d else none)
unfolding find_condition
find-append t [] d = refl
find-append t (c ∷ cs) d = ground (arith, find-append t cs d)

find-other :
    (t u : String) (cs : List Condition)
    → find_condition t (other_conditions u cs) ≡ (if u == t then none else find_condition t cs)
unfolding find_condition other_conditions
find-other t u [] = ground arith
find-other t u (c ∷ cs) =
    ground (arith, find-other t u cs, eq_iff c.type t, eq_iff c.type u, eq_iff u t)

find-type :
    (t : String) (cs : List Condition) (c : Condition) → find_condition t cs ≡ some c → c.type ≡ t
unfolding find_condition
find-type t [] c h = cc
find-type t (b ∷ cs) c h = ground (arith, h, find-type t cs c, eq_iff b.type t)

find-replace :
    (now : ℕ) (cs : List Condition) (new : Condition) (t : String)
    → find_condition t (replace_condition now cs new) ≡ (
        if new.type == t
        then some (record new { last_transition_time = now })
        else find_condition t cs)
unfolding replace_condition
find-replace now cs new t = ground (
  arith,
  find-append t (other_conditions new.type cs) (record new { last_transition_time = now }),
  find-other t new.type cs,
)

-- The two ways that an update ends.
update-cases :
    (now : ℕ) (cs : List Condition) (new : Condition)
    → ((c : Condition) × (find_condition new.type cs ≡ some c)
        × (c.status ≡ new.status)
        × (update_condition now cs new ≡ cs))
      ⊎ (update_condition now cs new ≡ replace_condition now cs new)
unfolding update_condition
update-cases now cs new = elim (Option-cases (find_condition new.type cs)) [
  | inl absent ↦ inr (ground (arith, absent))
  | inr (c, found) ↦ elim (Bool-cases (c.status == new.status)) [
    | inl same ↦ inl (c, found, (eq_iff c.status new.status).0 same, ground (arith, found, same))
    | inr differ ↦ inr (ground (arith, found, differ))
  ]
]

-- The status that a list of conditions gives a type.
unfoldable pub status_of : String → List Condition → Option String
status_of t cs = elim (find_condition t cs) [ some c ↦ some c.status | none ↦ none ]

-- The update sets the status of its type, and leaves that of every other.
pub status_of-update_condition :
    (now : ℕ) (cs : List Condition) (new : Condition) (t : String)
    → status_of t (update_condition now cs new)
      ≡ (if new.type == t then some new.status else status_of t cs)
unfolding status_of
status_of-update_condition now cs new t = elim (update-cases now cs new) [
  | inl (c, found, same, kept) ↦ rw kept (
      ground (
        arith,
        found,
        same,
        eq_iff new.type t,
        ap (λ u. find_condition u cs) {x = new.type} {y = t},
      ))
  | inr replaced ↦ rw replaced (ground (arith, find-replace now cs new t))
]

other-OnePerType :
    (t : String) (cs : List Condition) → OnePerType cs → OnePerType (other_conditions t cs)
unfolding other_conditions
other-OnePerType t [] h = tt
other-OnePerType t (c ∷ cs) (fresh, h) =
    ground (arith, fresh, other-OnePerType t cs h, find-other c.type t cs)

append-OnePerType :
    (cs : List Condition) (d : Condition)
    → OnePerType cs
    → find_condition d.type cs ≡ none
    → OnePerType (cs ++ d ∷ [])
unfolding find_condition
append-OnePerType [] d h new = (refl, tt)
append-OnePerType (c ∷ cs) d (fresh, h) new = ground (
  arith,
  append-OnePerType cs d h,
  find-append c.type cs d,
  fresh,
  new,
  eq_iff c.type d.type,
  eq_iff d.type c.type,
)

replace-OnePerType :
    (now : ℕ) (cs : List Condition) (new : Condition)
    → OnePerType cs
    → OnePerType (replace_condition now cs new)
unfolding replace_condition
replace-OnePerType now cs new h =
    append-OnePerType (other_conditions new.type cs) (record new { last_transition_time = now })
      (other-OnePerType new.type cs h)
      (ground (arith, find-other new.type new.type cs, eq_refl new.type))

-- Where no two conditions have the same type, no two have it after the update.
pub update_condition-OnePerType :
    (now : ℕ) (cs : List Condition) (new : Condition)
    → OnePerType cs
    → OnePerType (update_condition now cs new)
update_condition-OnePerType now cs new h = elim (update-cases now cs new) [
  | inl (c, found, same, kept) ↦ rw kept h
  | inr replaced ↦ rw replaced (replace-OnePerType now cs new h)
]

settled :
    (now : ℕ) (cs : List Condition) (new c : Condition)
    → find_condition new.type cs ≡ some c
    → c.status ≡ new.status
    → update_condition now cs new ≡ cs
unfolding update_condition
settled now cs new c found same = ground (arith, found, eq_iff c.status new.status)

-- The same update again, at any later time, changes nothing: the transition time is the first's.
pub update_condition_idem :
    (now later : ℕ) (cs : List Condition) (new : Condition)
    → update_condition later (update_condition now cs new) new ≡ update_condition now cs new
update_condition_idem now later cs new = elim (update-cases now cs new) [
  | inl (c, found, same, kept) ↦ rw kept (settled later cs new c found same)
  | inr replaced ↦ rw replaced (
      settled later (replace_condition now cs new) new (record new { last_transition_time = now })
        (ground (arith, find-replace now cs new new.type, eq_refl new.type)) refl)
]
