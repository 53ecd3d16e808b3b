-- ===== src/App/Check.antt =====
-- core/core.cc: `App::check`.
pub mod Materialize
pub mod Accepts
pub mod Graphs
mod Tests
use task_bench.Base.{Bool, true, false, not, List, [], ◌∷◌, ◌&&◌, ◌||◌}
use task_bench.Base.Int.{ℤ, pos, ◌+ℤ◌, ◌-ℤ◌, leb_ℤ, ltb_ℤ, eqb_ℤ}
use task_bench.Base.Outcome.{Outcome, ok, ◌>>=◌, ◌>>◌, check_that, abort_if}
use task_bench.Base.Loops.{for_below, for_each}
use task_bench.Platform.{Platform}
use task_bench.Graph.{
  TaskGraph, DependenceType, spread, trivial, needs_period, offset_at_timestep, width_at_timestep,
  dependence_set_at_timestep, max_dependence_sets, checked_div,
}
use task_bench.Graph.Deps.{Interval, dependencies, reverse_dependencies}
use task_bench.App.{App}

-- `materialized_deps`: the points with a dependence of theirs, the last one first.
abbrev pub Materialized : Type 0
Materialized = List Interval

-- materialized_deps[point].count(dp) != 0
unfoldable pub has_dep : ℤ → ℤ → Materialized → Bool
has_dep point dp [] = false
has_dep point dp ((p, d) ∷ rest) = eqb_ℤ p point && eqb_ℤ d dp || has_dep point dp rest

is_spread : DependenceType → Bool
is_spread spread = true
is_spread trivial = false
is_spread _ = false

-- `assert(count(dp) == 0)` and the insertion.
unfoldable pub insert_dep : ℤ → ℤ → Materialized → Outcome Materialized
insert_dep point dp m = check_that (not (has_dep point dp m)) >> ok ((point, dp) ∷ m)

module _ {D : Type 0} ⦃fl : Platform D⦄ where
  unfoldable pub materialize_point : TaskGraph D → ℤ → ℤ → Materialized → Outcome Materialized
  materialize_point g dset point m = do
    deps ← dependencies g dset point
    for_each deps (λ dep m'. for_below dep.0 (dep.1 +ℤ pos 1) (insert_dep point) m') m

  unfoldable pub materialize : TaskGraph D → ℤ → Outcome Materialized
  materialize g dset = for_below (pos 0) g.max_width (materialize_point g dset) []

  unfoldable pub check_reverse_point : TaskGraph D → ℤ → Materialized → ℤ → Outcome (Unit {0})
  check_reverse_point g dset m point = do
    rdeps ← reverse_dependencies g dset point
    for_each rdeps
        (λ rdep s. for_below rdep.0 (rdep.1 +ℤ pos 1) (λ rdp _. check_that (has_dep rdp point m)) s)
        tt

  unfoldable pub check_set : TaskGraph D → ℤ → Outcome (Unit {0})
  check_set g dset = do
    m ← materialize g dset
    for_below (pos 0) g.max_width (λ point _. check_reverse_point g dset m point) tt

  unfoldable pub check_row : TaskGraph D → ℤ → Outcome (Unit {0})
  check_row g t =
      let offset = offset_at_timestep g t in
      let width = width_at_timestep g t in
      do
        check_that (leb_ℤ (pos 0) offset)
        check_that (leb_ℤ (pos 0) width)
        check_that (leb_ℤ (offset +ℤ width) g.max_width)
        dset ← dependence_set_at_timestep g t
        check_that (leb_ℤ (pos 0) dset && leb_ℤ dset (max_dependence_sets g))

  unfoldable pub check_graph : TaskGraph D → Outcome (Unit {0})
  unfolding is_spread
  check_graph g = do
    abort_if (needs_period g.dependence && eqb_ℤ g.period (pos 0))
    abort_if (not (needs_period g.dependence) && not (eqb_ℤ g.period (pos 0)))
    widest ← checked_div (g.max_width +ℤ g.radix -ℤ pos 1) g.radix
    abort_if (is_spread g.dependence && ltb_ℤ widest g.period)
    for_below (pos 0) g.timesteps (λ t _. check_row g t) tt
    for_below (pos 0) (max_dependence_sets g) (λ dset _. check_set g dset) tt

  unfoldable pub check : App D → Outcome (Unit {0})
  check app = for_each app.graphs (λ g _. check_graph g) tt
