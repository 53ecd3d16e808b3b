-- ===== src/Graph/Sound.antt =====
-- The graphs whose dependencies are defined at every timestep.
use task_bench.Base.Int.{ℤ, pos, ◌+ℤ◌, ◌≤ℤ◌, ◌<ℤ◌, int_laws}
use task_bench.Platform.{Platform}
use task_bench.Graph.{TaskGraph, max_dependence_sets, offset_at_timestep, width_at_timestep}
use task_bench.Graph.Shape.{row_bounds}
use task_bench.Graph.Deps.Buffer.{Ready}
use task_bench.Graph.Deps.Mirror.{InRow}

-- A width above zero, at least one dependence set, and a pattern that is ready for each of them.
abbrev pub IsSound : {D : Type 0} ⦃fl : Platform D⦄ → TaskGraph D → Type 0
IsSound g =
    (pos 0 <ℤ g.max_width)
    × (pos 0 <ℤ max_dependence_sets g)
    × ((dset : ℤ) → pos 0 ≤ℤ dset → dset <ℤ max_dependence_sets g → Ready g.dependence g dset)

-- A point of the row of a timestep.
pub point-InRow :
    {D : Type 0} ⦃fl : Platform D⦄ (g : TaskGraph D) (timestep p : ℤ)
    → pos 0 <ℤ g.max_width
    → pos 0 ≤ℤ timestep
    → timestep <ℤ g.timesteps
    → offset_at_timestep g timestep ≤ℤ p
    → p <ℤ offset_at_timestep g timestep +ℤ width_at_timestep g timestep
    → InRow g p
point-InRow g timestep p hw ht hT h k =
    let (low, _, high) = row_bounds g timestep ht hT hw in omega int_laws
