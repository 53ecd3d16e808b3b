-- ===== src/Task/Accepts.antt =====
-- `execute_point` at a task whose inputs are what its dependences wrote.
use task_bench.Base.{
  ℕ, ◌≡◌, refl, ap, ◌∙◌, ◌≤◌, ◌<◌, true, Bool-cases, inl, inr, List, length, get_elem?, arith, ltb,
  ltb→lt, le→leb, lt→ltb, ◌==◌,
}
use task_bench.Base.Int.{ℤ, pos, ◌+ℤ◌, ◌≤ℤ◌, ◌<ℤ◌}
use task_bench.Base.Outcome.{ok}
use task_bench.Platform.{Platform}
use task_bench.Graph.{TaskGraph, offset_at_timestep, width_at_timestep, dependence_set_at_timestep}
use task_bench.Graph.Shape.{dependence_set_bounds}
use task_bench.Graph.Sound.{IsSound, point-InRow}
use task_bench.Graph.Deps.{Interval, dependencies}
use task_bench.Graph.Deps.Buffer.{dependencies_fit}
use task_bench.Kernels.Execute.{Scratch, Work, execute}
use task_bench.Task.{check_inputs, check_scratch, magic_value, written, execute_point}
use task_bench.Task.Validate.{gather, check_spans-gather}

check_scratch-magic :
    (scratch : Scratch) (size first_word : ℕ)
    → scratch.bytes ≡ size
    → (0 < scratch.bytes → first_word ≡ magic_value)
    → check_scratch size scratch first_word ≡ ok tt
unfolding check_scratch
check_scratch-magic scratch size first_word same magic = elim (Bool-cases (ltb 0 scratch.bytes)) [
  | inl some_bytes ↦
      rw
        (
          size_test scratch.bytes size same,
          some_bytes,
          size_test first_word magic_value (magic (ltb→lt _ _ some_bytes)),
        )
        refl
  | inr no_bytes ↦ rw (size_test scratch.bytes size same, no_bytes) refl
]
  where
    size_test : (a b : ℕ) → a ≡ b → (a == b) ≡ true
    size_test a b e = ground arith

module _ {D : Type 0} ⦃fl : Platform D⦄ (g : TaskGraph D) (timestep point : ℤ) (size : ℤ → ℕ) where
  check_inputs-gather :
      (dset : ℤ) (deps : List Interval)
      → ((dep : ℤ) → 16 ≤ size dep)
      → dependence_set_at_timestep g timestep ≡ ok dset
      → dependencies g dset point ≡ ok deps
      → check_inputs g timestep point (gather g timestep size deps)
        ≡ ok (length (gather g timestep size deps))
  unfolding check_inputs
  check_inputs-gather dset deps large set call =
      rw (set, call)
        (check_spans-gather g timestep size large (gather g timestep size deps) deps 0
            ((λ k. ap (get_elem? (gather g timestep size deps)) (omega arith)), omega arith)
          ∙ ap ok (omega arith))

  -- In a sound graph, at a point of the row of a timestep of the run: if every task of the row
  -- before leaves what `execute_point` writes, in buffers of at least sixteen bytes, the output
  -- buffer has at least sixteen bytes, the scratch memory is the one that is prepared, and the
  -- kernel returns, then `execute_point` accepts the outputs of its dependences as its inputs, and
  -- leaves its own timestep and point in its output.
  pub execute_point-gather :
      (output_bytes : ℕ) (scratch : Scratch) (first_word : ℕ) (work : Work)
      → IsSound g
      → ((dep : ℤ) → 16 ≤ size dep)
      → pos 0 ≤ℤ timestep
      → timestep <ℤ g.timesteps
      → offset_at_timestep g timestep ≤ℤ point
      → point <ℤ offset_at_timestep g timestep +ℤ width_at_timestep g timestep
      → 16 ≤ output_bytes
      → scratch.bytes ≡ g.scratch_bytes_per_task
      → (0 < scratch.bytes → first_word ≡ magic_value)
      → execute g.kernel g.graph_index timestep point scratch ≡ ok work
      → (dset : ℤ) × (deps : List Interval) × (dependence_set_at_timestep g timestep ≡ ok dset)
        × (dependencies g dset point ≡ ok deps)
        × (execute_point g timestep point output_bytes
              (gather g timestep size deps)
              scratch
              first_word
            ≡ ok (written timestep point output_bytes, work))
  unfolding execute_point
  execute_point-gather output_bytes scratch first_word work sound large ht hT low high room same
        magic run =
      let (dset, set, above, below) = dependence_set_bounds g timestep ht sound.1 in
      let inside = point-InRow g timestep point sound.0 ht hT low high in
      let (deps, _, call, _, _, _) =
        dependencies_fit g dset point inside (sound.2 dset above below) in
      (
        dset,
        deps,
        set,
        call,
        rw
            (
              le→leb _ _ ht,
              lt→ltb _ _ hT,
              le→leb _ _ low,
              lt→ltb _ _ high,
              check_inputs-gather dset deps large set call,
              le→leb _ _ room,
              check_scratch-magic scratch g.scratch_bytes_per_task first_word same magic,
              run,
            )
            refl,
      )
