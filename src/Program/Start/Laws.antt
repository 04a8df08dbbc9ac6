-- ===== src/Program/Start/Laws.antt =====
-- When `main` gets to its end.
use osko.Prelude.{String, ◌≡◌, refl, ap, ◌∙◌, ◌↔◌, Option, some, none, List, [], ◌∷◌}
use osko.Errors.{GoError}
use osko.MimirController.Laws.{Served, all_served, served}
use osko.Program.Start.{
  Flags, Ask, get_config, new_manager, index_slos, build, add_healthz_check, add_readyz_check,
  start, Manager, Exit, ended, manager_options, Task, ask, checked, go_on, ◌>>◌, create, set_up,
  main,
}

-- All that `main` is to ask of controller-runtime, in its order, written out. The reconciler of
-- PrometheusRules has no recorder, and that of MimirRules alone has a period.
abbrev pub asks : {D : Type 0} → Flags → D → List (Ask D)
asks flags period =
    get_config
    ∷ new_manager (record {
      metrics_bind_address = flags.metrics_addr;
      health_probe_bind_address = flags.probe_addr;
      leader_election = flags.enable_leader_election;
      leader_election_id = "ea6aa475.osko";
    })
    ∷ build (record {
      name = "Datasource";
      recorder = some "datasource-controller";
      requeue_after_period = none;
    })
    ∷ index_slos
    ∷ build (record { name = "SLO"; recorder = some "slo-controller"; requeue_after_period = none })
    ∷ build (record { name = "SLI"; recorder = none; requeue_after_period = none })
    ∷ build (record { name = "PrometheusRule"; recorder = none; requeue_after_period = none })
    ∷ build (record { name = "AlertPolicy"; recorder = none; requeue_after_period = none })
    ∷ build (record { name = "AlertCondition"; recorder = none; requeue_after_period = none })
    ∷ build
        (record { name = "AlertNotificationTarget"; recorder = none; requeue_after_period = none })
    ∷ build (record {
      name = "MimirRule";
      recorder = some "mimirrule-controller";
      requeue_after_period = some period;
    })
    ∷ build (record {
      name = "AlertManagerConfig";
      recorder = some "alertmanagerconfig-controller";
      requeue_after_period = none;
    })
    ∷ add_healthz_check "healthz"
    ∷ add_readyz_check "readyz"
    ∷ start
    ∷ []

module _ {D : Type 0} (M : Manager D) where
  -- A task that goes on exactly where the requests are all answered without an error.
  abbrev Asks : Task M → List (Ask D) → Type 0
  Asks k list = (s t : M.State) → (k s ≡ (none, t)) ↔ Served M.answer list s t

  Asks-last : (message : String) (a : Ask D) → Asks (ask M message a) (a ∷ [])
  Asks-last message a s t = (forth (M.answer a s) refl, back)
    where
      answered :
          (u : M.State)
          → M.answer a s ≡ (none, u)
          → ask M message a s ≡ (none, t)
          → M.answer a s ≡ (none, t)
      answered u e h =
          unfold ask checked in e ∙ ap (λ (p : Option String × M.State). (none, p.1)) (rw e at h)

      forth :
          (r : Option GoError × M.State)
          → M.answer a s ≡ r
          → ask M message a s ≡ (none, t)
          → Served M.answer (a ∷ []) s t
      forth (none, u) e h = served (answered u e h) all_served
      forth (some g, u) e h = absurd (unfold ask checked in cc (rw e at h))

      back : Served M.answer (a ∷ []) s t → ask M message a s ≡ (none, t)
      back (served e all_served) = unfold ask checked in rw e refl

  Asks-then :
      (message : String) (a : Ask D) (k : Task M) (list : List (Ask D))
      → Asks k list
      → Asks (◌>>◌ M (ask M message a) k) (a ∷ list)
  Asks-then message a k list later s t = (forth (M.answer a s) refl, back)
    where
      forth :
          (r : Option GoError × M.State)
          → M.answer a s ≡ r
          → ◌>>◌ M (ask M message a) k s ≡ (none, t)
          → Served M.answer (a ∷ list) s t
      forth (none, u) e h = served e ((later u t).0 (unfold ◌>>◌ go_on ask checked in rw e at h))
      forth (some g, u) e h = absurd (unfold ◌>>◌ go_on ask checked in cc (rw e at h))

      back : Served M.answer (a ∷ list) s t → ◌>>◌ M (ask M message a) k s ≡ (none, t)
      back (served e rest) = unfold ◌>>◌ go_on ask checked in rw e ((later _ t).1 rest)

  set_up-Asks : (flags : Flags) (period : D) → Asks (set_up M flags period) (asks flags period)
  unfolding set_up create manager_options
  set_up-Asks flags period = Asks-then _ _ _ _ (
      Asks-then _ _ _ _ (
        Asks-then _ _ _ _ (
          Asks-then _ _ _ _ (
            Asks-then _ _ _ _ (
              Asks-then _ _ _ _ (
                Asks-then _ _ _ _ (
                  Asks-then _ _ _ _ (
                    Asks-then _ _ _ _ (
                      Asks-then _ _ _ _ (
                        Asks-then _ _ _ _ (
                          Asks-then _ _ _ _
                            (Asks-then _ _ _ _ (Asks-then _ _ _ _ (Asks-last _ _))))))))))))))

  -- The program comes to its end, with the state `t`, exactly where the configuration of the cluster
  -- is found, the manager is made, the index of the SLOs, each of the nine reconcilers and both
  -- checks are set up, and the manager has run, one after another and each without an error. The
  -- reconciler of PrometheusRules is set up without a recorder, and that of MimirRules with the
  -- given period.
  pub main-eq-ended_iff :
      (flags : Flags) (period : D) (s t : M.State)
      → (main M flags period s ≡ (ended, t)) ↔ Served M.answer (asks flags period) s t
  unfolding main
  main-eq-ended_iff flags period s t = (forth (set_up M flags period s) refl, back)
    where
      forth :
          (r : Option String × M.State)
          → set_up M flags period s ≡ r
          → main M flags period s ≡ (ended, t)
          → Served M.answer (asks flags period) s t
      forth (none, u) e h =
          (set_up-Asks flags period s t).0
            (e ∙ ap (λ (p : Exit × M.State). (none, p.1)) (rw e at h))
      forth (some m, u) e h = absurd (cc (rw e at h))

      back : Served M.answer (asks flags period) s t → main M flags period s ≡ (ended, t)
      back all = rw ((set_up-Asks flags period s t).1 all) refl
