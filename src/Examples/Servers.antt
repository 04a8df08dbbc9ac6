-- ===== src/Examples/Servers.antt =====
-- Kinds of resource that a sample server does not hold, and the helpers of a sample operator.
use osko.Prelude.{String, Bool, false, List, [], ◌∷◌, ◌++◌, ◌==◌, ◌||◌, if◌then◌else◌}
use osko.Errors.{not_found, ok}
use osko.Cluster.{found, failed, Access, Controllerutil}

-- A kind of which the server has no object, and which it lets be created.
abbrev pub absent : (S A : Type 0) → Access S A
absent S A = record {
  get = λ key s. (failed (not_found "not found"), s);
  create = λ a s. (found a, s);
  update = λ a s. (found a, s);
  update_status = λ a s. (found a, s);
}

abbrev has_finalizer : List String → String → Bool
has_finalizer [] f = false
has_finalizer (g ∷ gs) f = g == f || has_finalizer gs f

abbrev without : List String → String → List String
without [] f = []
without (g ∷ gs) f = let rest = without gs f in if g == f then rest else g ∷ rest

abbrev pub helpers : Controllerutil
helpers = record {
  contains_finalizer = λ m f. has_finalizer m.finalizers f;
  add_finalizer = λ m f. record m { finalizers = m.finalizers ++ f ∷ [] };
  remove_finalizer = λ m f. record m { finalizers = without m.finalizers f };
  set_owner_reference = λ owner kind m. ok m;
}
