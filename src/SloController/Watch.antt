-- ===== src/SloController/Watch.antt =====
-- The field index of the SLOs, and the SLOs that an event of an SLI asks to be reconciled.
use mathlib.Core.List.{Mem, mem-map, mem-singleton, not-mem-nil}
use mathlib.Core.Logic.{∥∥₁_map}
use mathlib.Core.HLevel.{hedberg}
use osko.Prelude.{
  Bool-cases, eq_iff, false≢true, ◌==◌, String, ◌≡◌, refl, sym, ap, ◌∙◌, Option, some, none, ◌⊎◌,
  inl, inr, List, [], ◌∷◌, map, ◌↔◌,
}
use osko.Errors.{ApiError}
use osko.Api.Meta.{ObjectMeta, NamespacedName}
use osko.Api.OpenSlo.{Slo}
use osko.SloController.Rule.{key_of}

-- The function that createIndices hands to the field indexer.
unfoldable pub indicator_index : Slo → List String
indicator_index slo = elim slo.spec.indicator_ref [ none ↦ [] | some ref ↦ ref ∷ [] ]

-- List of SLOs, by a value of the index and a namespace
abbrev pub ListSlos : Type 0 → Type 0
ListSlos S = String → String → S → (ApiError ⊎ List Slo) × S

requests : ApiError ⊎ List Slo → List NamespacedName
requests (inl e) = []
requests (inr items) = map key_of items

-- findObjectsForSli, of the metadata of an SLI
unfoldable pub find_objects_for_sli :
    {S : Type 0} → ListSlos S → ObjectMeta → S → List NamespacedName × S
unfolding requests
find_objects_for_sli list sli s = let (r, t) = list sli.name sli.namespace s in (requests r, t)

-- What List is documented to answer: the SLOs of a namespace that have the value in their index.
abbrev pub Selected : List Slo → String → String → List Slo → Type 0
Selected stored value namespace items =
    (slo : Slo)
    → Mem slo items
      ↔ (Mem slo stored × (slo.meta.namespace ≡ namespace) × Mem value (indicator_index slo))

-- An SLO of the store that names an SLI, in its namespace.
abbrev pub Names : List Slo → ObjectMeta → Slo → Type 0
Names stored sli slo =
    Mem slo stored × (slo.meta.namespace ≡ sli.namespace) × (slo.spec.indicator_ref ≡ some sli.name)

pub text_discrete : Discrete String
text_discrete s t = elim (Bool-cases (s == t)) [
  | inl e ↦ yes ((eq_iff s t).0 e)
  | inr e ↦ no (λ p. false≢true (sym e ∙ (eq_iff s t).1 p))
]

mem-indicator_index :
    (value : String) (slo : Slo)
    → Mem value (indicator_index slo) ↔ (slo.spec.indicator_ref ≡ some value)
mem-indicator_index value slo = by_ref slo.spec.indicator_ref refl
  where
    by_ref :
        (ref : Option String)
        → slo.spec.indicator_ref ≡ ref
        → Mem value (indicator_index slo) ↔ (slo.spec.indicator_ref ≡ some value)
    by_ref none e = unfold indicator_index in rw e (λ h. absurd (not-mem-nil h), λ p. cc)
    by_ref (some ref) e =
        unfold indicator_index in
        rw e (
          λ h. ap some (sym ((mem-singleton (hedberg text_discrete)).0 h)),
          λ p. (mem-singleton (hedberg text_discrete)).1 (cc),
        )

-- Where List answers as documented: an event of an SLI asks for the SLOs in the SLI's namespace
-- that name it, and for no others.
pub find_objects_for_sli-eq :
    {S : Type 0} (list : ListSlos S) (stored items : List Slo) (sli : ObjectMeta) (s t : S)
    → list sli.name sli.namespace s ≡ (inr items, t)
    → Selected stored sli.name sli.namespace items
    → (key : NamespacedName)
    → Mem key (find_objects_for_sli list sli s).0
      ↔ ∥ ((slo : Slo) × Names stored sli slo × (key_of slo ≡ key)) ∥₁
unfolding find_objects_for_sli
find_objects_for_sli-eq list stored items sli s t listed selected key = rw listed (
  λ h. ∥∥₁_map (mem-map.0 h) (λ (slo, here, e).
      let (there, same, named) = (selected slo).0 here in
      (slo, (there, same, (mem-indicator_index sli.name slo).0 named), e)),
  λ h. mem-map.1 (
      ∥∥₁_map h (λ (slo, (there, same, named), e).
        (slo, (selected slo).1 (there, same, (mem-indicator_index sli.name slo).1 named), e))),
)
