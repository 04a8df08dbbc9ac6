-- ===== src/SloController/Indicator/Tenancy.antt =====
-- The choice of an SLO's SLI stays in the SLO's namespace.
use osko.Prelude.{Option, some, none, ◌⊎◌, inl, inr, String, Bool, true, false}
use osko.Errors.{GoError}
use osko.Api.Meta.{ObjectMeta}
use osko.Api.OpenSlo.{Slo, Sli, Indicator}
use osko.Cluster.{Reply, found, failed, Operator}
use osko.Cluster.Steps.{is_not_found}
use osko.Cluster.Tenancy.{
  Keeps, Keeps-pure, Keeps-finish, Keeps-bind, Keeps-if, Keeps-event, Keeps-event_unguarded,
  Keeps-then, Keeps-tested, get-Keeps, create-Keeps, update-Keeps, Answered, Fits, moved, Any,
  Tenancy,
}
use osko.SloController.Fetch.Tenancy.{In, update_slo_status-Keeps}
use osko.SloController.Indicator.{
  created_sli, owned_sli, changed_sli, existing_sli, inline_sli_reply, create_or_update_inline_sli,
  not_ready, not_created, no_indicator, referenced_sli, inline_sli, choose_sli, get_sli,
  updated_sli, new_inline_sli,
}

module _ {O : Operator} {P : O.client.State → Type 0} {Here : String → Type 0}
    (T : Tenancy O P Here) where
  created_sli-Keeps :
      (slo : Slo) (name : String) (r : Reply Sli) → Keeps P Any (created_sli O slo name r)
  unfolding created_sli
  created_sli-Keeps slo name (failed e) = Keeps-pure _ tt
  created_sli-Keeps slo name (found sli) =
      Keeps-then (Keeps-event O.has_recorder _) (Keeps-pure _ tt)

  owned_sli-Keeps :
      (slo : Slo) (sli : Sli) (r : GoError ⊎ ObjectMeta)
      → Fits (λ m. Here m.namespace) r
      → Keeps P Any (owned_sli O slo sli r)
  unfolding owned_sli
  owned_sli-Keeps slo sli (inl e) h = Keeps-pure _ tt
  owned_sli-Keeps slo sli (inr m) here =
      Keeps-bind (create-Keeps T.slis (record sli { meta = m }) here)
        λ r h. created_sli-Keeps slo sli.meta.name r

  changed_sli-Keeps : (r : Reply Sli) → Keeps P Any (changed_sli O r)
  unfolding changed_sli
  changed_sli-Keeps (failed e) = Keeps-pure _ tt
  changed_sli-Keeps (found sli) = Keeps-pure _ tt

  existing_sli-Keeps :
      (sli : Sli) (changed : Bool)
      → Here sli.meta.namespace
      → Keeps P Any (existing_sli O (sli, changed))
  unfolding existing_sli
  existing_sli-Keeps sli false here = Keeps-pure _ tt
  existing_sli-Keeps sli true here =
      Keeps-bind (update-Keeps T.slis sli here) λ r h. changed_sli-Keeps r

  inline_sli_reply-Keeps :
      (slo : Slo) (ind : Indicator) (r : Reply Sli)
      → In T slo
      → Answered (λ (s : Sli). Here s.meta.namespace) r
      → Keeps P Any (inline_sli_reply O slo ind r)
  unfolding inline_sli_reply updated_sli new_inline_sli
  inline_sli_reply-Keeps slo ind (found sli) at here =
      existing_sli-Keeps (updated_sli ind sli).0 (updated_sli ind sli).1 here
  inline_sli_reply-Keeps slo ind (failed e) at h =
      Keeps-if (is_not_found e)
        (Keeps-bind
          (Keeps-tested (O.util.set_owner_reference slo.meta "SLO" (new_inline_sli slo ind).meta)
            λ m e. moved Here (T.set_owner_reference _ _ m _ e) at)
          λ r fits. owned_sli-Keeps slo (new_inline_sli slo ind) r fits)
        (Keeps-pure _ tt)

  inline-Keeps :
      (slo : Slo) (ind : Indicator) → In T slo → Keeps P Any (create_or_update_inline_sli O slo ind)
  unfolding create_or_update_inline_sli
  inline-Keeps slo ind here =
      Keeps-bind (get-Keeps T.slis _ here) λ r h. inline_sli_reply-Keeps slo ind r here h

  not_ready-Keeps : (r : Reply Slo) → Keeps P Any (not_ready O r)
  unfolding not_ready
  not_ready-Keeps (found slo) = Keeps-finish _
  not_ready-Keeps (failed e) = Keeps-finish _

  not_created-Keeps : (r : Reply Slo) → Keeps P Any (not_created O r)
  unfolding not_created
  not_created-Keeps (found slo) = Keeps-finish _
  not_created-Keeps (failed e) = Keeps-finish _

  no_indicator-Keeps : (slo : Slo) (r : Reply Slo) → Keeps P Any (no_indicator O slo r)
  unfolding no_indicator
  no_indicator-Keeps slo (found _) = Keeps-finish _
  no_indicator-Keeps slo (failed e) =
      Keeps-then (Keeps-event_unguarded O.has_recorder _) (Keeps-finish _)

  referenced_sli-Keeps :
      (slo : Slo) (r : Reply Sli) → In T slo → Keeps P Any (referenced_sli O slo r)
  unfolding referenced_sli
  referenced_sli-Keeps slo (found sli) here = Keeps-pure _ tt
  referenced_sli-Keeps slo (failed e) here =
      Keeps-if (is_not_found e)
        (Keeps-bind (update_slo_status-Keeps T slo _ _ _ here) λ r h. not_ready-Keeps r)
        (Keeps-finish _)

  inline_sli-Keeps : (slo : Slo) (r : GoError ⊎ Sli) → In T slo → Keeps P Any (inline_sli O slo r)
  unfolding inline_sli
  inline_sli-Keeps slo (inr sli) here = Keeps-pure _ tt
  inline_sli-Keeps slo (inl e) here =
      Keeps-bind (update_slo_status-Keeps T slo _ _ _ here) λ r h. not_created-Keeps r

  choose_sli-Keeps :
      (slo : Slo) (ref : Option String) (ind : Option Indicator)
      → In T slo
      → Keeps P Any (choose_sli O slo ref ind)
  unfolding choose_sli
  choose_sli-Keeps slo (some ref) ind here =
      Keeps-bind (get-Keeps T.slis _ here) λ r h. referenced_sli-Keeps slo r here
  choose_sli-Keeps slo none (some ind) here =
      Keeps-bind (inline-Keeps slo ind here) λ r h. inline_sli-Keeps slo r here
  choose_sli-Keeps slo none none here =
      Keeps-bind (update_slo_status-Keeps T slo _ _ _ here) λ r h. no_indicator-Keeps slo r

  pub get_sli-Keeps : (slo : Slo) → In T slo → Keeps P Any (get_sli O slo)
  unfolding get_sli
  get_sli-Keeps slo here = choose_sli-Keeps slo slo.spec.indicator_ref slo.spec.indicator here
