-- ===== src/Mpi/Rank.antt =====
-- mpi/nonblock.cc: what a rank does in a timestep. It posts its receives and sends, waits for all of
-- them, and executes its points. A graph's dependencies are cached before the timesteps, which
-- changes no result, and are computed where they are used here.
pub mod Bytes
pub mod Keys
pub mod Points
pub mod Sends
pub mod Receives
pub mod Due
pub mod Most
pub mod Slots
pub mod Posts
pub mod Posted
pub mod Waits
pub mod Executes
pub mod WaitLoop
pub mod Waited
pub mod Matching
pub mod SendsDone
use task_bench.Base.{
  ℕ, zero, suc, ◌+◌, Bool, true, List, [], ◌∷◌, ◌++◌, Option, none, some, ◌&&◌, not, if◌then◌else◌,
  length, leb,
}
use task_bench.Base.Int.{ℤ, pos, ◌+ℤ◌, ◌-ℤ◌, leb_ℤ, ltb_ℤ, max_ℤ, min_ℤ}
use task_bench.Base.Outcome.{Outcome, ok, fault, out_of_bounds, ◌>>=◌}
use task_bench.Base.Loops.{for_below, for_each}
use task_bench.Platform.{Platform}
use task_bench.Graph.{
  TaskGraph, offset_at_timestep, width_at_timestep, dependence_set_at_timestep, max_dependence_sets,
}
use task_bench.Graph.Deps.{Interval, dependencies, reverse_dependencies, rounds}
use task_bench.Kernels.Execute.{Scratch}
use task_bench.Task.{Input, in_last_row, execute_point}
use task_bench.Mpi.Rank.Bytes.{word_at, run_moves}
use task_bench.Mpi.Ranks.{first_point, last_point, Tables, tag_of, put}
use task_bench.Mpi.Network.{Key, Network}

-- The points of the two nested loops over intervals, in their order.
unfoldable pub points_from : ℕ → ℤ → List ℤ
points_from zero i = []
points_from (suc n) i = i ∷ points_from n (i +ℤ pos 1)

abbrev pub named_points : List Interval → List ℤ
named_points [] = []
named_points (span ∷ rest) = points_from (rounds span.0 span.1) span.0 ++ named_points rest

-- An input: copied from an output of the same rank, or to be received.
pub data Slot : Type 0 where
  copied : Input → Slot
  requested : Key → Slot

-- offset <= p && p < offset + width
abbrev pub in_row : {D : Type 0} → TaskGraph D → ℤ → ℤ → Bool
in_row g timestep p =
    let offset = offset_at_timestep g timestep in
    leb_ℤ offset p && ltb_ℤ p (offset +ℤ width_at_timestep g timestep)

-- interval.second - interval.first + 1, summed up
abbrev pub sum_sizes : List Interval → ℤ
sum_sizes [] = pos 0
sum_sizes (span ∷ rest) = span.1 -ℤ span.0 +ℤ pos 1 +ℤ sum_sizes rest

module _ {D : Type 0} (g : TaskGraph D) (n_ranks : ℤ) (tables : Tables) where
  -- The message from the point `from` to the point `to`.
  abbrev pub key_of : ℤ → ℤ → Key
  key_of from to = record {
    source = tables.rank_by_point from;
    dest = tables.rank_by_point to;
    tag = tag_of (tables.tag_bits_by_point from) (tables.tag_bits_by_point to);
  }

  -- first_point <= p && p <= last_point
  abbrev pub is_own : ℤ → ℤ → Bool
  is_own rank p =
      leb_ℤ (first_point n_ranks g.max_width rank) p
      && leb_ℤ p (last_point n_ranks g.max_width rank)

  module _ (rank timestep : ℤ) (outputs : ℤ → Input) (point : ℤ) where
    -- Receive: the envelope has the ranks of both points, of which `point`'s is this rank.
    unfoldable pub receive_slots : List ℤ → List Slot
    receive_slots [] = []
    receive_slots (dep ∷ rest) =
        let more = receive_slots rest in
        if in_last_row g timestep dep
        then (if is_own rank dep
            then copied (outputs dep) ∷ more
            else requested (record (key_of dep point) { dest = rank }) ∷ more)
        else more

  -- Send, of the output of `point`.
  unfoldable pub send_list : ℤ → ℤ → ℤ → List ℤ → List Key
  send_list rank timestep point [] = []
  send_list rank timestep point (dep ∷ rest) =
      let more = send_list rank timestep point rest in
      if in_row g timestep dep && not (is_own rank dep)
      then record (key_of point dep) { source = rank } ∷ more
      else more

-- The requests of a point.
pub record Requests : Type 0 where
  pub slots : List Slot
  pub sends : List Key

module _ {S : Type 0} (net : Network S) where
  unfoldable pub send_all : List Key → Input → S → S
  send_all [] output s = s
  send_all (key ∷ rest) output s = send_all rest output (net.isend key output s)

  -- Of MPI_Waitall: the sends of a point, and of the points of a rank in turn. `started` is whether
  -- a rank has started its receives of the timestep.
  unfoldable pub all_done : (ℤ → Bool) → List Key → S → Bool
  all_done started [] s = true
  all_done started (key ∷ rest) s =
      let more = all_done started rest s in net.send_done key (started key.dest) s && more

  unfoldable pub points_done : (ℤ → Bool) → (ℤ → List Key) → ℕ → ℤ → S → Bool
  points_done started sends zero i s = true
  points_done started sends (suc n) i s =
      let more = points_done started sends n (i +ℤ pos 1) s in all_done started (sends i) s && more

  -- Of MPI_Waitall: the receives of a point, which are `none` while one of them has no message.
  unfoldable pub resolve : List Slot → S → Option (List Input × S)
  resolve [] s = some ([], s)
  resolve (copied input ∷ rest) s = elim (resolve rest s) [
    | none ↦ none
    | some (inputs, t) ↦ some (input ∷ inputs, t)
  ]
  resolve (requested key ∷ rest) s = elim (net.irecv key s) [
    | none ↦ none
    | some (input, t) ↦ elim (resolve rest t) [
      | none ↦ none
      | some (inputs, u) ↦ some (input ∷ inputs, u)
    ]
  ]

  -- The points of a rank in turn, of which `n` are left from `i` on.
  unfoldable pub resolve_points :
      (ℤ → List Slot) → ℕ → ℤ → (ℤ → List Input) → S → Option ((ℤ → List Input) × S)
  resolve_points requests zero i inputs s = some (inputs, s)
  resolve_points requests (suc n) i inputs s = elim (resolve (requests i) s) [
    | none ↦ none
    | some (here, t) ↦ resolve_points requests n (i +ℤ pos 1) (put i here inputs) t
  ]

module _ {D : Type 0} ⦃fl : Platform D⦄ (g : TaskGraph D) (n_ranks rank : ℤ) where
  -- The most dependencies that a point of the rank has, over all dependence sets.
  unfoldable pub max_deps : Outcome ℤ
  max_deps =
      for_below (pos 0) (max_dependence_sets g)
        (λ dset most.
          for_below (first_point n_ranks g.max_width rank)
            (last_point n_ranks g.max_width rank +ℤ pos 1)
            (λ point most'. do deps ← dependencies g dset point; ok (max_ℤ most' (sum_sizes deps)))
            most)
        (pos 0)

  -- The loop that executes. `scratch` is where the scratch memory of each point is, in the memory of
  -- the rank, which the kernels write to.
  unfoldable pub execute_rank :
      (ℤ → Scratch) → ℤ → (ℤ → List Input) → (ℤ → Input) × (ℕ → ℕ) → Outcome ((ℤ → Input) × (ℕ → ℕ))
  execute_rank scratch timestep inputs state =
      let offset = offset_at_timestep g timestep in
      for_below (max_ℤ (first_point n_ranks g.max_width rank) offset)
        (min_ℤ (last_point n_ranks g.max_width rank)
            (offset +ℤ width_at_timestep g timestep -ℤ pos 1)
          +ℤ pos 1)
        (λ point (outputs, memory). do
          (pairs, work) ←
              execute_point g timestep point (outputs point).bytes (inputs point) (scratch point)
                (word_at memory (scratch point).base)
          ok (
            put point (record { bytes = (outputs point).bytes; pairs = pairs }) outputs,
            run_moves work.moves memory,
          ))
        state

module _ {D : Type 0} {S : Type 0} (net : Network S) (g : TaskGraph D) (n_ranks rank : ℤ) where
  -- MPI_Waitall waits for all receives and for all sends.
  unfoldable pub wait_receives : (ℤ → Requests) → S → Option ((ℤ → List Input) × S)
  wait_receives requests s =
      resolve_points net (λ point. (requests point).slots)
        (rounds (first_point n_ranks g.max_width rank) (last_point n_ranks g.max_width rank))
        (first_point n_ranks g.max_width rank) (λ point. []) s

  unfoldable pub wait_sends : (ℤ → Bool) → (ℤ → Requests) → S → Bool
  wait_sends started requests s =
      points_done net started (λ point. (requests point).sends)
        (rounds (first_point n_ranks g.max_width rank) (last_point n_ranks g.max_width rank))
        (first_point n_ranks g.max_width rank) s

module _ {D : Type 0} ⦃fl : Platform D⦄ {S : Type 0} (net : Network S) (g : TaskGraph D)
    (n_ranks : ℤ) (tables : Tables) (rank : ℤ) where
  -- The body of the loop that posts, at one point. There are buffers for `most` inputs.
  unfoldable pub post_point :
      ℤ → (ℤ → Input) → ℤ → ℤ → (ℤ → Requests) × S → Outcome ((ℤ → Requests) × S)
  post_point timestep outputs most point (requests, s) = do
    dset ← dependence_set_at_timestep g timestep
    deps ← dependencies g dset point
    rdeps ← reverse_dependencies g dset point
    let slots =
        if in_row g timestep point
        then receive_slots g n_ranks tables rank timestep outputs point (named_points deps)
        else []
    let sends =
        if in_last_row g timestep point
        then send_list g n_ranks tables rank timestep point (named_points rdeps)
        else []
    if leb_ℤ (pos (length slots)) most
        then ok (
          put point (record { slots = slots; sends = sends }) requests,
          send_all net sends (outputs point) s,
        )
        else fault out_of_bounds

  unfoldable pub post_rank : ℤ → (ℤ → Input) → (ℤ → Requests) × S → Outcome ((ℤ → Requests) × S)
  post_rank timestep outputs s = do
    most ← max_deps g n_ranks rank
    for_below (first_point n_ranks g.max_width rank) (last_point n_ranks g.max_width rank +ℤ pos 1)
        (λ point s'. post_point timestep outputs most point s') s
