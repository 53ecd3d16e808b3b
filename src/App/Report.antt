-- ===== src/App/Report.antt =====
-- core/core.cc: `report_timing`, as the totals that it prints.
pub mod Partition
pub mod Counts
use task_bench.Base.{ℕ, ◌≡◌, Bool, true, false, if◌then◌else◌, List}
use task_bench.Base.Int.{ℤ, pos, negsuc, ◌+ℤ◌, ◌-ℤ◌, ◌*ℤ◌, ◌/ℤ◌, ltb_ℤ, min_ℤ, max_ℤ}
use task_bench.Base.Outcome.{Outcome, ok, ◌>>=◌}
use task_bench.Base.Loops.{for_below, for_each}
use task_bench.Platform.{Platform}
use task_bench.Graph.{TaskGraph, offset_at_timestep, width_at_timestep, dependence_set_at_timestep}
use task_bench.Graph.Deps.{Interval, dependencies}
use task_bench.Cost.{count_flops, count_bytes}
use task_bench.App.{App}

unfoldable pub clamp : ℤ → ℤ → ℤ → ℤ → Interval
clamp start stop min_value max_value =
    if ltb_ℤ stop min_value
    then (min_value, min_value -ℤ pos 1)
    else if ltb_ℤ max_value start
    then (max_value, max_value -ℤ pos 1)
    else (max_ℤ start min_value, min_ℤ stop max_value)

-- last - first + 1
abbrev pub size_of : Interval → ℤ
size_of (first, last) = last -ℤ first +ℤ pos 1

-- The counters that a graph runs up.
pub record Tally : Type 0 where
  pub num_tasks : ℤ
  pub num_deps : ℤ
  pub local_deps : ℤ
  pub nonlocal_deps : ℤ

-- The points of the node that holds a point: node_first and node_last. The row is not empty where
-- this is computed, so its width is above zero.
unfoldable pub node_span : ℤ → ℤ → ℤ → Interval
node_span nodes max_width p =
    if ltb_ℤ (pos 0) nodes
    then (let point_node = p *ℤ nodes /ℤ max_width in
        (point_node *ℤ max_width /ℤ nodes, (point_node +ℤ pos 1) *ℤ max_width /ℤ nodes -ℤ pos 1))
    else (pos 0, negsuc 0)

-- The body of the innermost loop. `last` is the row of the timestep before, as an interval.
unfoldable pub tally_dep : ℤ → ℤ → Interval → Interval → Interval → Tally → Tally
tally_dep nodes max_width span last dep c =
    let clamped = clamp dep.0 dep.1 last.0 last.1 in
    let initial = clamp clamped.0 clamped.1 (pos 0) (span.0 -ℤ pos 1) in
    let local = clamp clamped.0 clamped.1 span.0 span.1 in
    let final = clamp clamped.0 clamped.1 (span.1 +ℤ pos 1) (max_width -ℤ pos 1) in
    let counted = record c { num_deps = c.num_deps +ℤ size_of clamped } in
    if ltb_ℤ (pos 0) nodes
    then record counted {
      nonlocal_deps = c.nonlocal_deps +ℤ size_of initial +ℤ size_of final;
      local_deps = c.local_deps +ℤ size_of local;
    }
    else counted

-- What is printed, but for the times that are measured.
pub record Totals : Type 0 where
  pub total_num_tasks : ℤ
  pub total_num_deps : ℤ
  pub total_local_deps : ℤ
  pub total_nonlocal_deps : ℤ
  pub flops : ℤ
  pub bytes : ℤ
  pub local_transfer : ℤ
  pub nonlocal_transfer : ℤ

abbrev pub no_totals : Totals
no_totals = record {
  total_num_tasks = pos 0;
  total_num_deps = pos 0;
  total_local_deps = pos 0;
  total_nonlocal_deps = pos 0;
  flops = pos 0;
  bytes = pos 0;
  local_transfer = pos 0;
  nonlocal_transfer = pos 0;
}

abbrev pub no_tally : Tally
no_tally = record { num_tasks = pos 0; num_deps = pos 0; local_deps = pos 0; nonlocal_deps = pos 0 }

module _ {D : Type 0} ⦃fl : Platform D⦄ where
  unfoldable pub tally_point : ℤ → TaskGraph D → ℤ → Interval → ℤ → Tally → Outcome Tally
  tally_point nodes g dset last p c = do
    deps ← dependencies g dset p
    for_each deps
        (λ dep c'. ok (tally_dep nodes g.max_width (node_span nodes g.max_width p) last dep c')) c

  -- The row before a timestep, from last_offset to last_offset + last_width - 1.
  unfoldable pub last_row : TaskGraph D → ℤ → Interval
  last_row g t =
      let last_offset = offset_at_timestep g (t -ℤ pos 1) in
      (last_offset, last_offset +ℤ width_at_timestep g (t -ℤ pos 1) -ℤ pos 1)

  unfoldable pub tally_row : ℤ → TaskGraph D → ℤ → Tally → Outcome Tally
  tally_row nodes g t c =
      let offset = offset_at_timestep g t in
      let width = width_at_timestep g t in
      do
        dset ← dependence_set_at_timestep g t
        for_below offset (offset +ℤ width) (λ p c'. tally_point nodes g dset (last_row g t) p c')
            (record c { num_tasks = c.num_tasks +ℤ width })

  unfoldable pub tally_graph : ℤ → TaskGraph D → Outcome Tally
  tally_graph nodes g = for_below (pos 0) g.timesteps (λ t c. tally_row nodes g t c) no_tally

  unfoldable pub add_graph : ℤ → TaskGraph D → Totals → Outcome Totals
  add_graph nodes g s = do
    c ← tally_graph nodes g
    more_flops ← count_flops g
    more_bytes ← count_bytes g
    ok (record {
      total_num_tasks = s.total_num_tasks +ℤ c.num_tasks;
      total_num_deps = s.total_num_deps +ℤ c.num_deps;
      total_local_deps = s.total_local_deps +ℤ c.local_deps;
      total_nonlocal_deps = s.total_nonlocal_deps +ℤ c.nonlocal_deps;
      flops = s.flops +ℤ more_flops;
      bytes = s.bytes +ℤ more_bytes;
      local_transfer = s.local_transfer +ℤ c.local_deps *ℤ pos g.output_bytes_per_task;
      nonlocal_transfer = s.nonlocal_transfer +ℤ c.nonlocal_deps *ℤ pos g.output_bytes_per_task;
    })

  unfoldable pub report_timing : App D → Outcome Totals
  report_timing app = for_each app.graphs (λ g s. add_graph app.nodes g s) no_totals
