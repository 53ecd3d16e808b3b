-- ===== src/App/Check/Graphs.antt =====
-- `App::check`: the graphs that it accepts as a whole.
use task_bench.Base.{◌≡◌, refl, true, false, arith, le→leb}
use task_bench.Base.Int.{ℤ, pos, ◌≤ℤ◌, ◌<ℤ◌, eqb_ℤ, leb_ℤ}
use task_bench.Base.Outcome.{ok}
use task_bench.Base.Loops.{for_below_inv}
use task_bench.Platform.{Platform}
use task_bench.Graph.{
  TaskGraph, DependenceType, needs_period, max_dependence_sets, spread, random_nearest,
  random_spread, stencil_1d_periodic, trivial,
}
use task_bench.Graph.Shape.{row_bounds, dependence_set_bounds}
use task_bench.Graph.Sound.{IsSound}
use task_bench.Graph.Deps.Once.{Distinct, count-le-one}
use task_bench.App.Check.{check_row, check_set, check_graph, is_spread}
use task_bench.App.Check.Accepts.{check_set-accepts}

needs_no_period : (t : DependenceType) → Distinct t → needs_period t ≡ false
unfolding needs_period
needs_no_period stencil_1d_periodic d = absurd d
needs_no_period spread d = absurd d
needs_no_period random_nearest d = absurd d
needs_no_period random_spread d = absurd d
needs_no_period _ d = refl

is_no_spread : (t : DependenceType) → Distinct t → is_spread t ≡ false
unfolding is_spread
is_no_spread spread d = absurd d
is_no_spread trivial d = refl
is_no_spread _ d = refl

nonzero : (n : ℤ) → pos 0 <ℤ n → eqb_ℤ n (pos 0) ≡ false
nonzero n h = ground arith

zeroth : (n : ℤ) → n ≡ pos 0 → eqb_ℤ n (pos 0) ≡ true
zeroth n e = ground arith

module _ {D : Type 0} ⦃fl : Platform D⦄ (g : TaskGraph D) (sound : IsSound g) where
  check_row-Returns : (t : ℤ) → pos 0 ≤ℤ t → t <ℤ g.timesteps → check_row g t ≡ ok tt
  unfolding check_row
  check_row-Returns t ht hT =
      let (low, some_points, high) = row_bounds g t ht hT sound.0 in
      let (dset, set, above, below) = dependence_set_bounds g t ht sound.1 in
      rw
        (
          le→leb _ _ low,
          weak _ some_points,
          le→leb _ _ high,
          set,
          le→leb _ _ above,
          most dset _ below,
        )
        refl
    where
      weak : (n : ℤ) → pos 0 <ℤ n → leb_ℤ (pos 0) n ≡ true
      weak n h = ground arith

      most : (a b : ℤ) → a <ℤ b → leb_ℤ a b ≡ true
      most a b h = ground arith

  -- `check` accepts every sound graph with a radix above zero, a number of timesteps that is not
  -- negative, no period, and a pattern that names no point twice at any width, which are all but
  -- the periodic stencil, spread and the random ones.
  pub check_graph-accepts :
      pos 0 <ℤ g.radix
      → pos 0 ≤ℤ g.timesteps
      → g.period ≡ pos 0
      → Distinct g.dependence
      → check_graph g ≡ ok tt
  unfolding check_graph
  check_graph-accepts hr hT no_period d =
      let (_, rows, _) =
        for_below_inv (λ _ _. Unit {0}) (λ t _. check_row g t) (pos 0) g.timesteps tt hT
          (λ t _ low high _. (tt, check_row-Returns t low high, tt)) tt in
      let (_, sets, _) =
        for_below_inv (λ _ _. Unit {0}) (λ dset _. check_set g dset) (pos 0) (max_dependence_sets g)
          tt (omega (arith, sound.1))
          (λ dset _ low high _. (
            tt,
            check_set-accepts g dset (sound.2 dset low high) low (omega arith)
                (omega (arith, sound.0)) (λ p b deps inside call. count-le-one g dset p b d call),
            tt,
          ))
          tt in
      rw
        (
          needs_no_period g.dependence d,
          zeroth g.period no_period,
          nonzero g.radix hr,
          is_no_spread g.dependence d,
          rows,
          sets,
        )
        refl
