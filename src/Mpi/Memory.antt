-- ===== src/Mpi/Memory.antt =====
-- mpi/nonblock.cc: the scratch memory of a rank, prepared at once and cut into that of its points.
use task_bench.Base.{ℕ, ◌+◌, ◌*◌, List}
use task_bench.Base.Int.{ℤ, pos, pos_part, ◌+ℤ◌, ◌-ℤ◌}
use task_bench.Base.Outcome.{Outcome}
use task_bench.Graph.{TaskGraph}
use task_bench.Kernels.Execute.{Scratch}
use task_bench.Task.{prepare_scratch}
use task_bench.Mpi.Ranks.{first_point, last_point}

module _ {D : Type 0} (g : TaskGraph D) (n_ranks rank : ℤ) where
  -- The number of the rank's points, and a point's number among them.
  abbrev pub n_points : ℕ
  n_points =
      pos_part
        (last_point n_ranks g.max_width rank -ℤ first_point n_ranks g.max_width rank +ℤ pos 1)

  abbrev pub point_index : ℤ → ℕ
  point_index point = pos_part (point -ℤ first_point n_ranks g.max_width rank)

  -- The words of the rank's memory.
  unfoldable pub prepare_rank : Outcome (List ℕ)
  prepare_rank = prepare_scratch (g.scratch_bytes_per_task * n_points)

  -- scratch_ptr + scratch_bytes * point_index
  unfoldable pub point_scratch : ℕ → ℤ → Scratch
  point_scratch scratch_ptr point = record {
    base = scratch_ptr + g.scratch_bytes_per_task * point_index point;
    bytes = g.scratch_bytes_per_task;
  }
