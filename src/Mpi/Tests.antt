-- ===== src/Mpi/Tests.antt =====
-- The ranks of a small run.
use task_bench.Base.{
  ℕ, suc, ◌^◌, ◌%◌, ◌*◌, ◌+◌, Bool, ◌/◌, ◌≡◌, refl, sym, ap, ◌∙◌, true, false, List, [], ◌∷◌, ◌++◌,
  Option, none, some, if◌then◌else◌, arith, subst,
}
use task_bench.Base.Int.{ℤ, pos, eqb_ℤ, max_ℤ, min_ℤ, ◌≤ℤ◌, ◌<ℤ◌, ◌+ℤ◌, ◌-ℤ◌, ◌*ℤ◌, ◌/ℤ◌}
use task_bench.Base.Outcome.{Outcome, fault, ok, ok-injective}
use task_bench.Base.Loops.{Returns, for_range, for_each}
use task_bench.Platform.Sample.{sample_platform}
use task_bench.Graph.{
  Kernel, KernelType, DistType, DependenceType, TaskGraph, offset_at_timestep, width_at_timestep,
  dependence_set_at_timestep, max_dependence_sets,
}
use task_bench.Graph.Deps.{
  dependencies, reverse_dependencies, num_dependencies, num_reverse_dependencies, fill_dependencies,
  fill_reverse_dependencies,
}
use task_bench.Kernels.Copy.{copy, move_if, prolog_of, aligned_of}
use task_bench.Kernels.Execute.{Scratch, execute}
use task_bench.Task.{
  magic_value, Input, in_last_row, execute_point, check_inputs, check_dep, check_input, check_pairs,
  check_scratch, written,
}
use task_bench.Mpi.Rank.Bytes.{word_at, word_from, run_move, run_moves}
use task_bench.Mpi.Ranks.{
  Tables, tag_of, make_tables, assign_rank, assign_point, first_point, last_point, put,
}
use task_bench.Mpi.Ranks.Owner.{Owned, make_tables-Owned}
use task_bench.Mpi.Network.{Key, same_key, Network}
use task_bench.Mpi.Rank.Executes.{RunsTasks}
use task_bench.Mpi.World.{World, post, run, start_world, Reach, start, later, Continues, here, next}
use task_bench.Mpi.World.Runs.{run_finishes, run_takes_all}
use task_bench.Mpi.Rank.{
  in_row, named_points, points_from, wait_sends, resolve_points, resolve, points_done, all_done,
  receive_slots, send_list, send_all, max_deps, post_point, key_of, post_rank, wait_receives,
  execute_rank,
}
use task_bench.Mpi.Rank.Keys.{AllOwned, same_key-points}
use task_bench.Mpi.Rank.Matching.{count_sends, count_receives, sends-receives}
use task_bench.Graph.Sound.{IsSound}

-- The messages by their envelopes, the oldest first.
abbrev Mailboxes : Type 0
Mailboxes = Key → List Input

abbrev take_first : Key → Mailboxes → List Input → Option (Input × Mailboxes)
take_first k s [] = none
take_first k s (x ∷ rest) = some (x, λ j. if same_key k j then rest else s j)

abbrev mailboxes : Network Mailboxes
mailboxes = record {
  pending = λ s k. s k;
  isend = λ k x s j. if same_key k j then s j ++ x ∷ [] else s j;
  irecv = λ k s. take_first k s (s k);
  send_done = λ k started s. started;
  sends_complete = λ k s. refl;
  pending-isend = λ k j x s. refl;
  irecv_waits = λ k s e. ap (take_first k s) e;
  irecv_first =
      λ k x rest s e. ((λ j. if same_key k j then rest else s j), ap (take_first k s) e, λ j. refl);
}

abbrev no_mail : Mailboxes
no_mail k = []

abbrev kernel : Kernel ℤ
kernel = record {
  kernel_type = KernelType.compute_bound;
  iterations = pos 7;
  samples = pos 4;
  imbalance = pos 0;
  fraction_mem = pos 0;
  dist = record { dist_type = DistType.uniform; max = pos 3; std = pos 0; a = pos 0; b = pos 0 };
}

abbrev graph : TaskGraph ℤ
graph = record {
  graph_index = pos 0;
  timesteps = pos 2;
  max_width = pos 3;
  dependence = DependenceType.stencil_1d;
  radix = pos 3;
  period = pos 0;
  fraction_connected = pos 256;
  kernel = kernel;
  output_bytes_per_task = 16;
  scratch_bytes_per_task = 8;
  nb_fields = pos 2;
  output_bytes_size = none;
  output_case = pos 0;
  onormal_mu = pos 2048;
  onormal_std = pos 2048;
  ogamma_alpha = pos 2048;
  ogamma_beta = pos 2048;
}

abbrev scratch : ℤ → Scratch
scratch p =
    if eqb_ℤ p (pos 2) then record { base = 72; bytes = 8 } else record { base = 64; bytes = 8 }

-- Memory in which every word is the magic value.
abbrev memory : ℤ → ℕ → ℕ
memory rank address = magic_value / 256 ^ (address % 8) % 256

-- The points 0 and 1, 2 of the ranks 0 and 1.
abbrev tables : Tables
tables = record {
  rank_by_point = put (pos 2) (pos 1) (put (pos 1) (pos 1) (put (pos 0) (pos 0) (λ p. pos 0)));
  tag_bits_by_point = put (pos 2) (pos 1) (put (pos 1) (pos 0) (put (pos 0) (pos 0) (λ p. pos 0)));
}

tables_run : make_tables (pos 2) (pos 3) ≡ ok tables
unfolding make_tables assign_rank assign_point first_point last_point for_range ◌+ℤ◌ ◌-ℤ◌ ◌*ℤ◌ ◌/ℤ◌
tables_run = refl

runs : RunsTasks graph tables scratch memory
unfolding execute word_from run_moves
runs = record {
  room = omega arith;
  sizes = λ p. size (eqb_ℤ p (pos 2));
  marked = λ rank p hp own h. mark rank (eqb_ℤ p (pos 2));
  kernel_returns =
      λ timestep p h k hp. (record { rounds = 7; moves = [] }, refl, λ q hq own some_bytes m. refl);
}
  where
    place : Bool → Scratch
    place b = if b then record { base = 72; bytes = 8 } else record { base = 64; bytes = 8 }

    size : (b : Bool) → (place b).bytes ≡ 8
    size true = refl
    size false = refl

    mark : (rank : ℤ) (b : Bool) → word_at (memory rank) (place b).base ≡ magic_value
    mark rank true = refl
    mark rank false = refl

abbrev Reached : World Mailboxes → Type 0
Reached w = Reach mailboxes graph (pos 2) tables scratch memory no_mail w

abbrev IsEnd : World Mailboxes → Type 0
IsEnd w = (rank : ℤ) → pos 0 ≤ℤ rank → rank <ℤ pos 2 → w.clock rank ≡ 2

graph-IsSound : IsSound graph
unfolding max_dependence_sets
graph-IsSound = (omega arith, omega arith, λ dset low high. tt)

few_points : pos 3 ≤ℤ pos 2 *ℤ pos 128
unfolding ◌*ℤ◌
few_points = omega arith

abbrev value : {A : Type 0} → Outcome A → A → A
value (ok a) b = a
value (fault stop) b = b

abbrev value? : {A : Type 0} → Option A → A → A
value? (some a) b = a
value? none b = b

-- The world in which a rank has posted, or has ended its wait and executed.
abbrev post_in : ℤ → World Mailboxes → World Mailboxes
post_in rank w =
    let end =
      value
        (post_rank mailboxes graph (pos 2) tables rank (pos (w.clock rank)) w.outputs
          (w.requests, w.state))
        (w.requests, w.state) in
    record w { state = end.1; requests = end.0; posted = put rank true w.posted }

abbrev wait_in : ℤ → World Mailboxes → (ℤ → List Input) × Mailboxes
wait_in rank w =
    value? (wait_receives mailboxes graph (pos 2) rank w.requests w.state) ((λ p. []), w.state)

abbrev run_in : ℤ → World Mailboxes → World Mailboxes
run_in rank w =
    let end =
      value
        (execute_rank graph (pos 2) rank scratch (pos (w.clock rank)) (wait_in rank w).0
          (w.outputs, w.memory rank))
        (w.outputs, w.memory rank) in
    record w {
      state = (wait_in rank w).1;
      outputs = end.0;
      memory = put rank end.1 w.memory;
      posted = put rank false w.posted;
      clock = put rank (suc (w.clock rank)) w.clock;
    }

-- Rank 1 posts and executes at timestep 0, where nothing is received or sent, then rank 0 does, and
-- both post at timestep 1.
abbrev world1 : World Mailboxes
world1 = post_in (pos 1) (start_world graph memory no_mail)

abbrev world2 : World Mailboxes
world2 = run_in (pos 1) world1

abbrev world3 : World Mailboxes
world3 = post_in (pos 0) world2

abbrev world4 : World Mailboxes
world4 = run_in (pos 0) world3

abbrev world5 : World Mailboxes
world5 = post_in (pos 0) world4

abbrev posted_world : World Mailboxes
posted_world = post_in (pos 1) world5

posted_world-Reached : Reached posted_world
unfolding post_rank post_point max_deps for_range first_point last_point max_dependence_sets
    dependencies reverse_dependencies num_dependencies num_reverse_dependencies fill_dependencies
    fill_reverse_dependencies dependence_set_at_timestep offset_at_timestep width_at_timestep
    points_from receive_slots send_list send_all in_last_row max_ℤ min_ℤ ◌+ℤ◌ ◌-ℤ◌ ◌*ℤ◌ ◌/ℤ◌
    wait_receives wait_sends resolve_points resolve points_done all_done execute_rank execute_point
    check_inputs check_dep check_input check_pairs check_scratch for_each execute written word_from
    run_moves tag_of
posted_world-Reached =
    later
      (later
        (later
          (later
            (later (later start (post (pos 1) (omega arith) (omega arith) (omega arith) refl refl))
              (run (pos 1) (omega arith) (omega arith) refl refl refl refl))
            (post (pos 0) (omega arith) (omega arith) (omega arith) refl refl))
          (run (pos 0) (omega arith) (omega arith) refl refl refl refl))
        (post (pos 0) (omega arith) (omega arith) (omega arith) refl refl))
      (post (pos 1) (omega arith) (omega arith) (omega arith) refl refl)

-- The end of a run, and that it is reached.
finished :
    (end : World Mailboxes) × Continues mailboxes graph (pos 2) tables scratch posted_world end
    × IsEnd end
finished =
    run_finishes mailboxes graph graph-IsSound (omega arith) (pos 2) (omega arith) few_points tables
      tables_run scratch memory runs no_mail (λ k. refl) posted_world posted_world-Reached

go_on :
    {w w' : World Mailboxes}
    → Reached w
    → Continues mailboxes graph (pos 2) tables scratch w w'
    → Reached w'
go_on reached here = reached
go_on reached (next step more) = go_on (later reached step) more

finished-Reached : Reached finished.0
finished-Reached = go_on posted_world-Reached finished.1

set_of_wait : dependence_set_at_timestep graph (pos 1) ≡ ok (pos 0)
unfolding dependence_set_at_timestep max_dependence_sets ◌+ℤ◌ ◌-ℤ◌
set_of_wait = refl

deps_of_wait : dependencies graph (pos 0) (pos 1) ≡ ok ((pos 0, pos 2) ∷ [])
unfolding dependencies num_dependencies fill_dependencies max_ℤ min_ℤ ◌+ℤ◌ ◌-ℤ◌
deps_of_wait = refl

run_takes_all_example :
    mailboxes.pending finished.0.state (key_of graph (pos 2) tables (pos 0) (pos 1)) ≡ []
run_takes_all_example =
    run_takes_all mailboxes graph graph-IsSound (omega arith) (pos 2) (omega arith) few_points
      tables tables_run scratch memory runs no_mail (λ k. refl) finished.0 finished-Reached
      finished.2 (pos 0) (pos 1) (omega arith, omega arith) (omega arith, omega arith)

make_tables-Owned_example : Returns (make_tables (pos 2) (pos 3)) (λ made.
    (p : ℤ)
    → pos 0 ≤ℤ p
    → p <ℤ pos 3
    → Owned (pos 2) (pos 3) (omega arith) (omega arith) (pos 2) made p)
make_tables-Owned_example = make_tables-Owned (pos 2) (pos 3) (omega arith) (omega arith) few_points

-- The tables that are made name the rank of each point.
tables_owned : AllOwned graph (pos 2) (omega arith) tables
tables_owned hw =
    let (made, call, all) = make_tables-Owned (pos 2) (pos 3) (omega arith) hw few_points in
    subst
      (λ t. (p : ℤ) → pos 0 ≤ℤ p → p <ℤ pos 3 → Owned (pos 2) (pos 3) (omega arith) hw (pos 2) t p)
      (ok-injective (sym call ∙ tables_run)) all

rdeps_of_send : reverse_dependencies graph (pos 0) (pos 0) ≡ ok ((pos 0, pos 1) ∷ [])
unfolding reverse_dependencies num_reverse_dependencies fill_reverse_dependencies max_ℤ min_ℤ ◌+ℤ◌
    ◌-ℤ◌
rdeps_of_send = refl

-- Point 0 of rank 0 sends one message to point 1 of rank 1.
sends-receives_example :
    count_sends (key_of graph (pos 2) tables (pos 0) (pos 1)) (
      if in_last_row graph (pos 1) (pos 0)
      then send_list graph
          (pos 2)
          tables
          (pos 0)
          (pos 1)
          (pos 0)
          (named_points ((pos 0, pos 1) ∷ []))
      else [])
    ≡ count_receives (key_of graph (pos 2) tables (pos 0) (pos 1)) (
        if in_row graph (pos 1) (pos 1)
        then receive_slots graph
            (pos 2)
            tables
            (pos 1)
            (pos 1)
            (λ p. record { bytes = 16; pairs = [] })
            (pos 1)
            (named_points ((pos 0, pos 2) ∷ []))
        else [])
sends-receives_example =
    sends-receives graph graph-IsSound (omega arith) (pos 2) tables (omega arith) tables_owned
      (pos 1) (omega arith) (omega arith) (pos 0) (pos 1) (pos 0) ((pos 0, pos 2) ∷ [])
      ((pos 0, pos 1) ∷ []) (λ p. record { bytes = 16; pairs = [] }) (omega arith, omega arith)
      (omega arith, omega arith) set_of_wait deps_of_wait rdeps_of_send

same_key-points_example :
    same_key
      (key_of graph (pos 2) tables (pos 0) (pos 1))
      (key_of graph (pos 2) tables (pos 0) (pos 2))
    ≡ false
same_key-points_example =
    same_key-points graph (pos 2) tables (omega arith) (omega arith) tables_owned (pos 0) (pos 1)
      (pos 0) (pos 2) (omega arith, omega arith) (omega arith, omega arith)
      (omega arith, omega arith) (omega arith, omega arith)

-- The copies of the memory kernel, on 1032 bytes at 24 behind a multiple of 32, write over the upper
-- half of the first word.
overwritten_word :
    word_at (run_moves (value (copy 7192 1032) []) (memory (pos 0))) 7192
    ≡ magic_value * 2 ^ 32 + magic_value
unfolding copy move_if prolog_of aligned_of run_moves run_move word_from
overwritten_word = refl
