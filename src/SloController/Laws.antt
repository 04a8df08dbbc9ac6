-- ===== src/SloController/Laws.antt =====
-- The paths of `Reconcile`, with what they leave in the server.
use osko.Prelude.{◌≡◌, true, false, some, none, arith, ℕ, if◌then◌else◌}
use osko.Errors.{ApiError, api}
use osko.Api.Meta.{NamespacedName}
use osko.Api.OpenSlo.{Slo}
use osko.Cluster.{
  Reply, found, failed, Operator, Outcome, returned, returned_error, plain, done, requeue,
}
use osko.Cluster.Steps.{World, stop, is_not_found}
use osko.SloController.Fetch.{get_slo, handle_deletion, ensure_finalizer, slo_finalizer}
use osko.SloController.{reconcile}

-- What a call of Update that must end the call returns.
abbrev pub after_update : {D : Type 0} → Outcome D → Reply Slo → Outcome D
after_update o (found slo) = o
after_update o (failed e) = returned_error (plain (api e))

module _ (O : Operator) (req : NamespacedName) (w : World O.client.State) where
  -- Where the Get of the SLO answers NotFound, the call ends without an error, and has done nothing
  -- else.
  reconcile_gone :
      (m : ApiError) (s : O.client.State)
      → O.client.slos.get req w.cluster ≡ (failed m, s)
      → is_not_found m ≡ true
      → reconcile O req w ≡ (stop (returned done), record w { cluster = s })
  unfolding reconcile get_slo
  reconcile_gone m s h gone = ground (arith, h, gone)

  -- Where the SLO is found, is not being deleted and lacks the finalizer, the call writes the SLO
  -- with the finalizer, and does nothing else. It asks to be called again, or returns the error of
  -- the write.
  reconcile_adds_finalizer :
      (slo : Slo) (s : O.client.State)
      → O.client.slos.get req w.cluster ≡ (found slo, s)
      → slo.meta.deletion_timestamp ≡ none
      → O.util.contains_finalizer slo.meta slo_finalizer ≡ false
      → let r =
          O.client.slos.update
            (record slo { meta = O.util.add_finalizer slo.meta slo_finalizer })
            s in
        reconcile O req w ≡ (stop (after_update (returned requeue) r.0), record w { cluster = r.1 })
  unfolding reconcile get_slo handle_deletion ensure_finalizer
  reconcile_adds_finalizer slo s h live bare = ground (arith, h, live, bare)

  -- Where the SLO is found and is being deleted, the call takes the finalizer off, if it is there,
  -- and does nothing else. It ends without an error, or with that of the write.
  pub reconcile_deletion :
      (slo : Slo) (s : O.client.State) (t : ℕ)
      → O.client.slos.get req w.cluster ≡ (found slo, s)
      → slo.meta.deletion_timestamp ≡ some t
      → let r =
          O.client.slos.update
            (record slo { meta = O.util.remove_finalizer slo.meta slo_finalizer })
            s in
        reconcile O req w ≡ (
          if O.util.contains_finalizer slo.meta slo_finalizer
          then (stop (after_update (returned done) r.0), record w { cluster = r.1 })
          else (stop (returned done), record w { cluster = s }))
  unfolding reconcile get_slo handle_deletion
  reconcile_deletion slo s t h dying = ground (arith, h, dying)
