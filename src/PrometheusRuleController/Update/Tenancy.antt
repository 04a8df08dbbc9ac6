-- ===== src/PrometheusRuleController/Update/Tenancy.antt =====
-- The last steps of the reconciler of PrometheusRules write in the namespaces of the request and of
-- the SLO.
use osko.Prelude.{String, Option, some, none, refl, ◌⊎◌, inl, inr}
use osko.Errors.{ApiError, GoError}
use osko.Api.Meta.{NamespacedName}
use osko.Api.OpenSlo.{Slo, Sli}
use osko.Api.Monitoring.{PrometheusRule}
use osko.Cluster.{Reply, found, failed, Operator}
use osko.Cluster.Steps.{is_not_found}
use osko.Cluster.Tenancy.{
  Keeps, Keeps-pure, Keeps-finish, Keeps-bind, Keeps-if, Keeps-event_unguarded, Keeps-then,
  create-Keeps, Answered, Fits, Any, AttemptKeeps, Tenancy,
}
use osko.Cluster.Retry.{write_status, replace}
use osko.Cluster.Retry.Tenancy.{retry-Keeps, or_fail-Keeps, write_status-Keeps, replace-Keeps}
use osko.MimirController.Deletion.{rule_with_meta}
use osko.SloController.Rule.{key_of, ready_slo}
use osko.SloController.Fetch.Tenancy.{In, update_slo_status-Keeps}
use osko.SloController.Rule.Tenancy.{RuleIn, made_rule-Keeps}
use osko.PrometheusRuleController.Equal.{prometheus_rules_equal}
use osko.PrometheusRuleController.Update.{
  touch_slo, reported, report_failure, touched_rule, made_ready, created_reply, not_made, made_rule,
  make_rule, create_missing, closed, replace_rule, compare_rule, update_rule,
}

module _ {O : Operator} {P : O.client.State → Type 0} {Here : String → Type 0}
    (T : Tenancy O P Here) where
  -- A PrometheusRule and an SLO in such namespaces.
  abbrev pub BothIn : PrometheusRule × Slo → Type 0
  BothIn (rule, slo) = RuleIn T rule × In T slo

  touch_slo-Keeps : AttemptKeeps P (In T) (touch_slo O)
  unfolding touch_slo
  touch_slo-Keeps slo s here p =
      write_status-Keeps T.slos (λ t. t) (key_of slo) (λ t h. h) here slo s here p

  ready_slo-Keeps : AttemptKeeps P (In T) (λ s. write_status O.client.slos ready_slo (key_of s) s)
  ready_slo-Keeps slo s here p =
      write_status-Keeps T.slos ready_slo (key_of slo) (λ t h. h) here slo s here p

  reported-Keeps :
      {A : Type 0} {Q : A → Type 0} (e : ApiError) (r : Option ApiError × Slo)
      → Keeps P Q (reported O e r)
  unfolding reported
  reported-Keeps e (none, slo) = Keeps-finish _
  reported-Keeps e (some f, slo) = Keeps-finish _

  report_failure-Keeps :
      {A : Type 0} {Q : A → Type 0} (e : ApiError) (slo : Slo)
      → In T slo
      → Keeps P Q (report_failure O e slo)
  unfolding report_failure
  report_failure-Keeps e slo here =
      Keeps-bind (retry-Keeps T (In T) (touch_slo O) _ touch_slo-Keeps here)
        λ r h. reported-Keeps e r

  touched_rule-Keeps :
      (slo : Slo) (r : Option ApiError × PrometheusRule)
      → In T slo
      → RuleIn T r.1
      → Keeps P BothIn (touched_rule O slo r)
  unfolding touched_rule
  touched_rule-Keeps slo (none, rule) here there = Keeps-pure (rule, slo) (there, here)
  touched_rule-Keeps slo (some e, rule) here there = report_failure-Keeps e slo here

  made_ready-Keeps :
      (rule : PrometheusRule) (r : Option ApiError × Slo)
      → RuleIn T rule
      → In T r.1
      → Keeps P BothIn (made_ready O rule r)
  unfolding made_ready
  made_ready-Keeps rule (none, slo) there here = Keeps-pure (rule, slo) (there, here)
  made_ready-Keeps rule (some e, slo) there here = Keeps-finish _

  created_reply-Keeps :
      (req : NamespacedName) (sent : PrometheusRule) (slo : Slo) (r : Reply PrometheusRule)
      → Here req.namespace
      → RuleIn T sent
      → In T slo
      → Answered (RuleIn T) r
      → Keeps P BothIn (created_reply O req sent slo r)
  unfolding created_reply
  created_reply-Keeps req sent slo (failed e) asked there here h =
      Keeps-then (Keeps-event_unguarded O.has_recorder _) (
        Keeps-bind
          (retry-Keeps T (RuleIn T) (write_status O.client.prometheus_rules (λ m. m) req) sent
            (write_status-Keeps T.prometheus_rules (λ m. m) req (λ m k. k) asked) there)
          λ r k. touched_rule-Keeps slo r here k)
  created_reply-Keeps req sent slo (found rule) asked there here h =
      Keeps-then (Keeps-event_unguarded O.has_recorder _) (
        Keeps-bind (retry-Keeps T (In T) _ slo ready_slo-Keeps here)
          λ r k. made_ready-Keeps rule r h k)

  not_made-Keeps : (r : Reply Slo) → Keeps P BothIn (not_made O r)
  unfolding not_made
  not_made-Keeps (found slo) = Keeps-finish _
  not_made-Keeps (failed e) = Keeps-finish _

  new_rule-Keeps :
      (req : NamespacedName) (slo : Slo) (b : GoError ⊎ PrometheusRule)
      → Here req.namespace
      → In T slo
      → Fits (RuleIn T) b
      → Keeps P BothIn (made_rule O req slo b)
  unfolding made_rule
  new_rule-Keeps req slo (inl e) asked here h =
      Keeps-bind (update_slo_status-Keeps T slo _ _ _ here) λ r k. not_made-Keeps r
  new_rule-Keeps req slo (inr rule) asked here there =
      Keeps-bind (create-Keeps T.prometheus_rules rule there)
        λ r k. created_reply-Keeps req rule slo r asked there here k

  make_rule-Keeps :
      (req : NamespacedName) (slo : Slo) (sli : Sli)
      → Here req.namespace
      → In T slo
      → Keeps P BothIn (make_rule O req slo sli)
  unfolding make_rule
  make_rule-Keeps req slo sli asked here =
      Keeps-bind (made_rule-Keeps T slo sli here) λ b fits. new_rule-Keeps req slo b asked here fits

  pub create_missing-Keeps :
      (req : NamespacedName) (err : Option ApiError) (rule : PrometheusRule) (slo : Slo) (sli : Sli)
      → Here req.namespace
      → RuleIn T rule
      → In T slo
      → Keeps P BothIn (create_missing O req err rule slo sli)
  unfolding create_missing
  create_missing-Keeps req none rule slo sli asked there here = Keeps-pure (rule, slo) (there, here)
  create_missing-Keeps req (some e) rule slo sli asked there here =
      Keeps-if (is_not_found e) (make_rule-Keeps req slo sli asked here)
        (Keeps-pure (rule, slo) (there, here))

  closed-Keeps : (r : Option ApiError × Slo) → In T r.1 → Keeps P Any (closed O r)
  unfolding closed
  closed-Keeps (none, slo) here = Keeps-finish _
  closed-Keeps (some e, slo) here = report_failure-Keeps e slo here

  replace_rule-Keeps :
      (req : NamespacedName) (rule new : PrometheusRule) (slo : Slo)
      → Here req.namespace
      → RuleIn T rule
      → RuleIn T new
      → In T slo
      → Keeps P Any (replace_rule O req rule new slo)
  unfolding replace_rule
  replace_rule-Keeps req rule new slo asked there fresh here =
      Keeps-bind
        (retry-Keeps T _ (replace O.client.prometheus_rules (λ m. m.meta) rule_with_meta req)
          (rule, new) (replace-Keeps T.prometheus_rules rule_with_meta (λ a m. refl) req asked)
          (there, fresh))
        λ r h. Keeps-bind (or_fail-Keeps {Q = Any} r tt) λ _ _.
          Keeps-bind (retry-Keeps T (In T) (touch_slo O) slo touch_slo-Keeps here)
            λ s k. closed-Keeps s k

  compare_rule-Keeps :
      (req : NamespacedName) (rule : PrometheusRule) (slo : Slo) (b : GoError ⊎ PrometheusRule)
      → Here req.namespace
      → RuleIn T rule
      → In T slo
      → Fits (RuleIn T) b
      → Keeps P Any (compare_rule O req rule slo b)
  unfolding compare_rule
  compare_rule-Keeps req rule slo (inl e) asked there here h = Keeps-finish _
  compare_rule-Keeps req rule slo (inr new) asked there here fresh =
      Keeps-if (prometheus_rules_equal rule new) (Keeps-finish _)
        (replace_rule-Keeps req rule new slo asked there fresh here)

  pub update_rule-Keeps :
      (req : NamespacedName) (both : PrometheusRule × Slo) (sli : Sli)
      → Here req.namespace
      → BothIn both
      → Keeps P Any (update_rule O req both sli)
  unfolding update_rule
  update_rule-Keeps req (rule, slo) sli asked (there, here) =
      Keeps-bind (made_rule-Keeps T slo sli here)
        λ b fits. compare_rule-Keeps req rule slo b asked there here fits
