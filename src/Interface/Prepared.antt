-- ===== src/Interface/Prepared.antt =====
-- A task whose scratch memory the interface prepares itself.
use task_bench.Base.{
  ℕ, zero, suc, ◌≡◌, refl, ◌/◌, ◌%◌, ◌≤◌, ◌<◌, List, replicate, arith, ◌==◌, true,
}
use task_bench.Base.Int.{ℤ, pos, ◌+ℤ◌, ◌≤ℤ◌, ◌<ℤ◌}
use task_bench.Base.Outcome.{ok}
use task_bench.Platform.{Platform}
use task_bench.Graph.{TaskGraph, offset_at_timestep, width_at_timestep, dependence_set_at_timestep}
use task_bench.Graph.Sound.{IsSound}
use task_bench.Graph.Deps.{Interval, dependencies}
use task_bench.Kernels.Execute.{Work, execute}
use task_bench.Task.{magic_value, prepare_scratch, written}
use task_bench.Task.Validate.{gather}
use task_bench.Task.Accepts.{execute_point-gather}
use task_bench.Interface.{first_word, task_graph_execute_point_scratch_auto}

prepared :
    (bytes : ℕ)
    → bytes % 8 ≡ 0
    → (words : List ℕ) × (prepare_scratch bytes ≡ ok words)
      × (0 < bytes → first_word words ≡ magic_value)
unfolding prepare_scratch
prepared bytes h = (
  replicate (bytes / 8) magic_value,
  rw (zero_test (bytes % 8) h) refl,
  λ some_bytes. first (bytes / 8) (omega (arith, h, some_bytes)),
)
  where
    zero_test : (m : ℕ) → m ≡ 0 → (m == 0) ≡ true
    zero_test m e = ground arith

    first : (m : ℕ) → 0 < m → first_word (replicate m magic_value) ≡ magic_value
    first zero l = absurd (omega arith)
    first (suc m) l = refl

-- In a sound graph, at a point of the row of a timestep of the run: if every task of the row before
-- leaves what `execute_point` writes, in buffers of at least sixteen bytes, the output buffer has at
-- least sixteen bytes, the graph's scratch memory is a multiple of eight bytes, and the kernel returns
-- on the scratch memory that is allocated, then the call that prepares its own scratch memory accepts
-- the outputs of the dependences as its inputs, and leaves its timestep and point in the output.
pub scratch_auto_accepts :
    {D : Type 0} ⦃fl : Platform D⦄ (g : TaskGraph D) (timestep point : ℤ) (size : ℤ → ℕ)
    (output_bytes base : ℕ) (work : Work)
    → IsSound g
    → ((dep : ℤ) → 16 ≤ size dep)
    → pos 0 ≤ℤ timestep
    → timestep <ℤ g.timesteps
    → offset_at_timestep g timestep ≤ℤ point
    → point <ℤ offset_at_timestep g timestep +ℤ width_at_timestep g timestep
    → 16 ≤ output_bytes
    → g.scratch_bytes_per_task % 8 ≡ 0
    → execute g.kernel g.graph_index timestep point
        (record { base = base; bytes = g.scratch_bytes_per_task })
      ≡ ok work
    → (dset : ℤ) × (deps : List Interval) × (dependence_set_at_timestep g timestep ≡ ok dset)
      × (dependencies g dset point ≡ ok deps)
      × (task_graph_execute_point_scratch_auto g timestep point output_bytes
            (gather g timestep size deps)
            base
            g.scratch_bytes_per_task
          ≡ ok (written timestep point output_bytes, work))
unfolding task_graph_execute_point_scratch_auto
scratch_auto_accepts g timestep point size output_bytes base work sound large ht hT low high room
      words run =
    let (filled, fill, magic) = prepared g.scratch_bytes_per_task words in
    let (dset, deps, set, call, done) =
      execute_point-gather g timestep point size output_bytes
        (record { base = base; bytes = g.scratch_bytes_per_task }) (first_word filled) work sound
        large ht hT low high room refl magic run in
    (dset, deps, set, call, rw fill done)
