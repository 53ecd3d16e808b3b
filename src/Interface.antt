-- ===== src/Interface.antt =====
-- core/core_c.cc: the interface for C, which hands out the core's lists of intervals by a pointer.
pub mod Handles
pub mod Prepared
mod Tests
use task_bench.Base.{
  ℕ, suc, Bool, List, [], ◌∷◌, Option, none, some, length, get_elem?, if◌then◌else◌, ◌==◌,
}
use task_bench.Base.Int.{ℤ, pos, negsuc}
use task_bench.Base.Outcome.{Outcome, ok, fault, undefined, out_of_bounds, ◌>>=◌}
use task_bench.Platform.{Platform}
use task_bench.Graph.{TaskGraph}
use task_bench.Graph.Deps.{Interval, dependencies, reverse_dependencies}
use task_bench.Kernels.Execute.{Scratch, Work}
use task_bench.Task.{Input, execute_point, prepare_scratch}

-- The vectors that are allocated, by their addresses, of which `next` is the first that was not
-- handed out yet.
pub record Store : Type 0 where
  pub next : ℕ
  pub live : ℕ → Option (List Interval)

abbrev pub set : ℕ → Option (List Interval) → Store → Store
set l vector s = record s { live = λ k. if k == l then vector else s.live k }

unfoldable pub wrap_consume : List Interval → Store → ℕ × Store
wrap_consume d s = (s.next, record (set s.next (some d) s) { next = suc s.next })

-- A pointer to a vector that was deleted, or never allocated, is undefined behaviour to follow.
abbrev pub found : Option (List Interval) → Outcome (List Interval)
found none = fault undefined
found (some d) = ok d

unfoldable pub unwrap : ℕ → Store → Outcome (List Interval)
unwrap l s = found (s.live l)

-- (*i)[index]
abbrev pub element : Option Interval → Outcome Interval
element none = fault out_of_bounds
element (some x) = ok x

abbrev pub at : List Interval → ℤ → Outcome Interval
at d (negsuc index) = fault out_of_bounds
at d (pos index) = element (get_elem? d index)

unfoldable pub interval_list_num_intervals : ℕ → Store → Outcome ℤ
interval_list_num_intervals l s = unwrap l s >>= λ d. ok (pos (length d))

unfoldable pub interval_list_interval : ℕ → ℤ → Store → Outcome Interval
interval_list_interval l index s = unwrap l s >>= λ d. at d index

unfoldable pub interval_list_destroy : ℕ → Store → Outcome Store
interval_list_destroy l s = unwrap l s >>= λ d. ok (set l none s)

-- The first word of a vector, where there is one.
abbrev pub first_word : List ℕ → ℕ
first_word [] = 0
first_word (word ∷ rest) = word

module _ {D : Type 0} ⦃fl : Platform D⦄ (g : TaskGraph D) where
  unfoldable pub task_graph_dependencies : ℤ → ℤ → Store → Outcome (ℕ × Store)
  task_graph_dependencies dset point s = dependencies g dset point >>= λ d. ok (wrap_consume d s)

  unfoldable pub task_graph_reverse_dependencies : ℤ → ℤ → Store → Outcome (ℕ × Store)
  task_graph_reverse_dependencies dset point s =
      reverse_dependencies g dset point >>= λ d. ok (wrap_consume d s)

  -- The scratch memory is a vector at `base`.
  unfoldable pub task_graph_execute_point_scratch_auto :
      ℤ → ℤ → ℕ → List Input → ℕ → ℕ → Outcome (List Interval × Work)
  task_graph_execute_point_scratch_auto timestep point output_bytes inputs base scratch_bytes = do
    words ← prepare_scratch scratch_bytes
    execute_point g timestep point output_bytes inputs
        (record { base = base; bytes = scratch_bytes }) (first_word words)
