-- ===== src/Examples/Watches.antt =====
-- A List that answers with one SLO, for any name of an SLI.
use mathlib.Core.List.{Mem, Memᴰ, mem-cons_self}
use mathlib.Core.List.Memᴰ
use mathlib.Core.HLevel.{hedberg}
use mathlib.Core.Logic.{∥∥₁_elim}
use osko.Prelude.{◌≡◌, ap, inl, inr, [], ◌∷◌}
use osko.Api.OpenSlo.{Slo}
use osko.SloController.Watch.{ListSlos, Selected, text_discrete, indicator_index}
use osko.Examples.Slos.{kept}

abbrev pub list_kept : {S : Type 0} → ListSlos S
list_kept value namespace s = (inr (kept ∷ []), s)

pub selects_kept : Selected (kept ∷ []) "availability" "shop" (kept ∷ [])
unfolding indicator_index
selects_kept slo =
    (λ h. ∥∥₁_elim h (hlevel (hedberg text_discrete)) one, λ (here, same, named). here)
  where
    one :
        Memᴰ slo (kept ∷ [])
        → Mem slo (kept ∷ [])
          × (slo.meta.namespace ≡ "shop")
          × Mem "availability" (indicator_index slo)
    one m = elim (Memᴰ.cases_cons m) [
      | inl p ↦ (
        ∣ m ∣₁,
        ap (λ (s : Slo). s.meta.namespace) p,
        unfold indicator_index in rw p mem-cons_self,
      )
      | inr n ↦ absurd (Memᴰ.not-nil n)
    ]
