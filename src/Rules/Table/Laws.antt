-- ===== src/Rules/Table/Laws.antt =====
-- Reading a table that a loop over windows has filled.
use osko.Prelude.{
  String, ◌≡◌, refl, ap, Bool, true, ◌&&◌, some, List, [], ◌∷◌, map, arith, ◌==◌, eq_iff,
  if◌then◌else◌,
}
use osko.Map.{Map, lookup, insert}
use osko.Map.Laws.{lookup-insert}
use osko.Api.Monitoring.{Rule}
use osko.Rules.Labels.{MonitoringRuleSet}
use osko.Rules.Labels.Unique.{contains, unique_strings-Distinct}
use osko.Rules.Table.{rules_by_type, windows_of, fixed_windows, is_alerting_window}

module _ {ℓ} {V : Type ℓ} (f : String → V) where
  -- A loop that writes the value `f w` at each `w`.
  unfoldable pub insert_each : Map V → List String → Map V
  insert_each m [] = m
  insert_each m (w ∷ ws) = insert_each (insert w (f w) m) ws

  pub lookup-insert_each :
      (m : Map V) (ws : List String) (v : String)
      → lookup v (insert_each m ws) ≡ (if contains v ws then some (f v) else lookup v m)
  unfolding insert_each
  lookup-insert_each m [] v = refl
  lookup-insert_each m (w ∷ ws) v =
      ground
        (arith, lookup-insert_each (insert w (f w) m) ws v, lookup-insert w v (f w) m, eq_iff w v)

module _ (f : String → Rule) where
  rules_by_type-map :
      (nested : Map Rule) (ws : List String)
      → ((v : String) → contains v ws ≡ true → lookup v nested ≡ some (f v))
      → rules_by_type nested ws ≡ map f ws
  unfolding rules_by_type
  rules_by_type-map nested [] h = refl
  rules_by_type-map nested (w ∷ ws) h =
      rw (h w (ground (arith, eq_iff w w)), rules_by_type)
        (ap (◌∷◌ (f w)) (rules_by_type-map nested ws (λ v m. h v (ground arith))))

  -- What the loop wrote for each window is what the group lists, in the order of the windows.
  pub rules_by_type-insert_each :
      (m : Map Rule) (ws : List String) → rules_by_type (insert_each f m ws) ws ≡ map f ws
  rules_by_type-insert_each m ws =
      rules_by_type-map (insert_each f m ws) ws λ v m'. rw (lookup-insert_each, m') refl

-- The windows for which `p` holds.
unfoldable pub select : (String → Bool) → List String → List String
select p [] = []
select p (w ∷ ws) = let rest = select p ws in if p w then w ∷ rest else rest

pub contains-select :
    (p : String → Bool) (ws : List String) (v : String)
    → contains v (select p ws) ≡ (p v && contains v ws)
unfolding select
contains-select p [] v = ground arith
contains-select p (w ∷ ws) v = ground (arith, contains-select p ws v, eq_iff w v)

==_comm : (a b : String) → (a == b) ≡ (b == a)
==_comm a b = ground (arith, eq_iff a b, eq_iff b a)

is_alerting_window-eq : (v : String) → is_alerting_window v ≡ contains v fixed_windows
unfolding is_alerting_window
is_alerting_window-eq v =
    rw
      (
        ==_comm "5m" v,
        ==_comm "30m" v,
        ==_comm "1h" v,
        ==_comm "2h" v,
        ==_comm "6h" v,
        ==_comm "24h" v,
        ==_comm "3d" v,
      )
      (ground arith)

contains-windows_of :
    (mrs : MonitoringRuleSet) (v : String)
    → contains v fixed_windows ≡ true
    → contains v (windows_of mrs) ≡ true
unfolding windows_of
contains-windows_of mrs v h = rw ((unique_strings-Distinct _).1 v, h) (ground arith)

-- The windows whose burn rates the alerts use.
abbrev pub alerting_windows : MonitoringRuleSet → List String
alerting_windows mrs = select is_alerting_window (windows_of mrs)

pub contains-alerting_windows :
    (mrs : MonitoringRuleSet) (v : String)
    → contains v fixed_windows ≡ true
    → contains v (alerting_windows mrs) ≡ true
contains-alerting_windows mrs v h =
    rw (contains-select, is_alerting_window-eq, h, contains-windows_of mrs v h) refl
