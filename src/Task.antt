-- ===== src/Task.antt =====
-- core/core.cc: `TaskGraph::execute_point` and `prepare_scratch`, the body of a task.
pub mod Validate
pub mod Accepts
pub mod Detects
mod Tests
use task_bench.Base.{
  ℕ, zero, suc, ◌/◌, ◌%◌, ◌≡◌, Bool, Option, none, some, List, [], ◌∷◌, ◌&&◌, if◌then◌else◌,
  get_elem?, replicate, leb, ltb, ◌==◌, length,
}
use task_bench.Base.Int.{ℤ, pos, ◌+ℤ◌, ◌-ℤ◌, leb_ℤ, ltb_ℤ, eqb_ℤ}
use task_bench.Base.Outcome.{Outcome, ok, fault, assertion, out_of_bounds, ◌>>=◌, ◌>>◌, check_that}
use task_bench.Base.Loops.{for_below, for_each}
use task_bench.Platform.{Platform}
use task_bench.Graph.{TaskGraph, offset_at_timestep, width_at_timestep, dependence_set_at_timestep}
use task_bench.Graph.Deps.{Interval, dependencies}
use task_bench.Kernels.Execute.{Scratch, Work, execute}

-- An input: the size that is passed with it, and the pairs that its memory holds.
pub record Input : Type 0 where
  pub bytes : ℕ
  pub pairs : List Interval

-- Reading past the memory is out of bounds.
abbrev pub at_index {ℓ} : {A : Type ℓ} → Option A → Outcome A
at_index none = fault out_of_bounds
at_index (some a) = ok a

-- The loop over an input's pairs, of which `n` are left from position `i` on.
unfoldable pub check_pairs : ℕ → ℕ → List Interval → ℤ → ℤ → Outcome (Unit {0})
check_pairs zero i pairs timestep dep = ok tt
check_pairs (suc n) i pairs timestep dep = do
  pair ← at_index (get_elem? pairs i)
  check_that (eqb_ℤ pair.0 (timestep -ℤ pos 1))
  check_that (eqb_ℤ pair.1 dep)
  check_pairs n (suc i) pairs timestep dep

-- The input of index `idx` against the dependence it comes from; the index of the next.
unfoldable pub check_input : ℤ → List Input → ℤ → ℕ → Outcome ℕ
check_input timestep inputs dep idx = do
  check_that (ltb idx (length inputs))
  input ← at_index (get_elem? inputs idx)
  check_that (leb 16 input.bytes)
  check_pairs (input.bytes / 16) 0 input.pairs timestep dep
  ok (suc idx)

-- last_offset <= dep && dep < last_offset + last_width
unfoldable pub in_last_row : {D : Type 0} → TaskGraph D → ℤ → ℤ → Bool
in_last_row g timestep dep =
    let last_offset = offset_at_timestep g (timestep -ℤ pos 1) in
    leb_ℤ last_offset dep && ltb_ℤ dep (last_offset +ℤ width_at_timestep g (timestep -ℤ pos 1))

-- `assert(scratch_bytes == scratch_bytes_per_task)` and the magic value; `first_word` is the first
-- word of the scratch memory.
abbrev pub magic_value : ℕ
magic_value = 1548385419

unfoldable pub check_scratch : ℕ → Scratch → ℕ → Outcome (Unit {0})
check_scratch scratch_bytes_per_task scratch first_word = do
  check_that (scratch.bytes == scratch_bytes_per_task)
  check_that (if ltb 0 scratch.bytes then first_word == magic_value else leb 0 0)

-- The words of the scratch memory that is prepared.
unfoldable pub prepare_scratch : ℕ → Outcome (List ℕ)
prepare_scratch scratch_bytes = do
  check_that (scratch_bytes % 8 == 0)
  ok (replicate (scratch_bytes / 8) magic_value)

-- The pairs that a task leaves in its output.
unfoldable pub written : ℤ → ℤ → ℕ → List Interval
written timestep point output_bytes = replicate (output_bytes / 16) (timestep, point)

module _ {D : Type 0} ⦃fl : Platform D⦄ where
  unfoldable pub check_dep : TaskGraph D → ℤ → List Input → ℤ → ℕ → Outcome ℕ
  check_dep g timestep inputs dep idx =
      if in_last_row g timestep dep then check_input timestep inputs dep idx else ok idx

  -- `Validate input`: how many inputs were read.
  unfoldable pub check_inputs : TaskGraph D → ℤ → ℤ → List Input → Outcome ℕ
  check_inputs g timestep point inputs = do
    dset ← dependence_set_at_timestep g timestep
    deps ← dependencies g dset point
    for_each deps (λ span idx. for_below span.0 (span.1 +ℤ pos 1) (check_dep g timestep inputs) idx)
        0

  -- The output that is left, and the work of the kernel. `first_word` is the first word of the
  -- scratch memory.
  unfoldable pub execute_point :
      TaskGraph D → ℤ → ℤ → ℕ → List Input → Scratch → ℕ → Outcome (List Interval × Work)
  execute_point g timestep point output_bytes inputs scratch first_word = do
    check_that (leb_ℤ (pos 0) timestep && ltb_ℤ timestep g.timesteps)
    let offset = offset_at_timestep g timestep
    check_that (leb_ℤ offset point && ltb_ℤ point (offset +ℤ width_at_timestep g timestep))
    _ ← check_inputs g timestep point inputs
    check_that (leb 16 output_bytes)
    check_scratch g.scratch_bytes_per_task scratch first_word
    work ← execute g.kernel g.graph_index timestep point scratch
    ok (written timestep point output_bytes, work)
