-- ===== src/Program/Watches/Laws.antt =====
-- Which reconcilers an event reaches.
use mathlib.Core.List.{Mem, append-nil}
use osko.Prelude.{◌⊎◌, inl, inr, ◌≢◌, ◌≡◌, ◌↔◌, refl, ap, ◌∙◌, List, [], ◌∷◌, ◌++◌, All, inr}
use osko.Errors.{ok}
use osko.Api.Meta.{ObjectMeta, NamespacedName}
use osko.Api.OpenSlo.{Slo}
use osko.SloController.Rule.{key_of}
use osko.SloController.Watch.{
  ListSlos, Selected, Names, find_objects_for_sli, find_objects_for_sli-eq,
}
use osko.Program.{Parts}
use osko.Program.Watches.Owners.{Uncontrolled, AddsNoController, owners-create_alert_manager_config}
use osko.SloController.Alerting.{create_alert_manager_config}
use osko.Api.Osko.{Datasource, AlertManagerConfig}
use osko.Program.Watches.{
  Kind, slo_kind, sli_kind, prometheus_rule_kind, mimir_rule_kind, alert_manager_config_kind,
  Object, Source, for_kind, owns, watches_by, Handlers, Documented, asked, slo_sources,
}

module _ {S : Type 0} {H : Handlers S} (documented : Documented H) where
  abbrev Silent : Kind → Object → S → Source S → Type 0
  Silent k o s source = H.enqueue k source o s ≡ ([], s)

  asked-Silent :
      (k : Kind) (sources rest : List (Source S)) (o : Object) (s : S)
      → All (Silent k o s) sources
      → asked H k (sources ++ rest) o s ≡ asked H k rest o s
  unfolding asked
  asked-Silent k [] rest o s silent = refl
  asked-Silent k (source ∷ sources) rest o s (here, later) =
      rw here (asked-Silent k sources rest o s later)

  asked-last :
      (k : Kind) (source : Source S) (o : Object) (s : S)
      → asked H k (source ∷ []) o s ≡ H.enqueue k source o s
  unfolding asked
  asked-last k source o s =
      ap (λ (keys : List NamespacedName). (keys, (H.enqueue k source o s).1))
        (append-nil (H.enqueue k source o s).0)

module _ (G : Parts) (list_slos : ListSlos G.client.State) {H : Handlers G.client.State}
    (documented : Documented H) where
  -- Where no controller owns an object that is no SLO, all that its event asks the SLO reconciler
  -- for comes from the events of SLIs.
  asked-Uncontrolled :
      (o : Object) (s : G.client.State)
      → o.kind ≢ slo_kind
      → Uncontrolled o.meta
      → asked H slo_kind (slo_sources G list_slos) o s
        ≡ H.enqueue slo_kind (watches_by sli_kind (find_objects_for_sli list_slos)) o s
  asked-Uncontrolled o s other free =
      asked-Silent documented slo_kind
        (for_kind slo_kind
          ∷ owns prometheus_rule_kind
          ∷ owns mimir_rule_kind
          ∷ owns sli_kind
          ∷ owns alert_manager_config_kind
          ∷ [])
        (watches_by sli_kind (find_objects_for_sli list_slos) ∷ []) o s
        (
          documented.of_other slo_kind _ o s other,
          (silent _, (silent _, (silent _, (silent _, tt)))),
        )
      ∙ asked-last documented slo_kind _ o s
    where
      silent : (owned : Kind) → H.enqueue slo_kind (owns owned) o s ≡ ([], s)
      silent owned = documented.of_uncontrolled slo_kind owned o s free

  -- Where the handlers and SetOwnerReference are as documented: no event of an AlertManagerConfig
  -- asks the SLO reconciler, which has made it and set the SLO as its owner, for anything, while its
  -- owner references are those with which it was created, or those that were set then, although the
  -- reconciler is told that it owns it.
  pub asked_of_config :
      AddsNoController G.util
      → (slo : Slo) (ds : Datasource) (amc : AlertManagerConfig) (created owned m : ObjectMeta)
        (s : G.client.State)
      → create_alert_manager_config slo ds ≡ ok amc
      → created.owner_references ≡ amc.meta.owner_references
      → G.util.set_owner_reference slo.meta "SLO" created ≡ ok owned
      → (m.owner_references ≡ created.owner_references)
        ⊎ (m.owner_references ≡ owned.owner_references)
      → asked H slo_kind
          (slo_sources G list_slos)
          (record { kind = alert_manager_config_kind; meta = m })
          s
        ≡ ([], s)
  asked_of_config adds slo ds amc created owned m s made same set stands =
      let o : Object = record { kind = alert_manager_config_kind; meta = m } in
      let bare : Uncontrolled created =
        rw (same, owners-create_alert_manager_config slo ds amc made) tt in
      let free : Uncontrolled m = elim stands [
        | inl e ↦ rw e bare
        | inr e ↦ rw e (adds slo.meta created owned bare set)
      ] in
      asked-Uncontrolled o s (λ e. cc) free ∙ documented.of_other slo_kind _ o s (λ e. cc)

  -- Where the handlers are as documented and List too: an event of an SLI that no other object
  -- controls asks the SLO reconciler for the SLOs of its namespace that name it, and for no others.
  pub mem-asked_of_sli :
      (stored items : List Slo) (sli : ObjectMeta) (s t : G.client.State)
      → Uncontrolled sli
      → list_slos sli.name sli.namespace s ≡ (inr items, t)
      → Selected stored sli.name sli.namespace items
      → (key : NamespacedName)
      → Mem key
          (asked H slo_kind (slo_sources G list_slos) (record { kind = sli_kind; meta = sli }) s).0
        ↔ ∥ ((slo : Slo) × Names stored sli slo × (key_of slo ≡ key)) ∥₁
  mem-asked_of_sli stored items sli s t free listed selected key =
      let o : Object = record { kind = sli_kind; meta = sli } in
      rw
        (asked-Uncontrolled o s (λ e. cc) free
          ∙ documented.of_map slo_kind (find_objects_for_sli list_slos) o s)
        (find_objects_for_sli-eq list_slos stored items sli s t listed selected key)
