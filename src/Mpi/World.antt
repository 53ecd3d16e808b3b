-- ===== src/Mpi/World.antt =====
-- mpi/nonblock.cc: the ranks of a run, each at a timestep of its own, in any interleaving.
pub mod Channels
pub mod Invariant
pub mod Reachable
pub mod Progress
pub mod Length
pub mod Runs
use task_bench.Base.{
  ℕ, suc, ◌≡◌, Bool, true, false, List, [], replicate, ◌/◌, Option, some, ltb, ◌==◌, if◌then◌else◌,
}
use task_bench.Base.Int.{ℤ, pos, ◌≤ℤ◌, ◌<ℤ◌}
use task_bench.Base.Outcome.{ok}
use task_bench.Platform.{Platform}
use task_bench.Graph.{TaskGraph}
use task_bench.Kernels.Execute.{Scratch}
use task_bench.Task.{Input}
use task_bench.Mpi.Ranks.{Tables, put}
use task_bench.Mpi.Network.{Network}
use task_bench.Mpi.Rank.{Requests, post_rank, wait_receives, wait_sends, execute_rank}

-- `clock` is the timestep of a rank, `posted` whether it has posted its messages, and `memory` the
-- bytes of its scratch memory. A point's output and its requests are written by its own rank only.
pub record World (S : Type 0) : Type 0 where
  pub state : S
  pub clock : ℤ → ℕ
  pub posted : ℤ → Bool
  pub requests : ℤ → Requests
  pub outputs : ℤ → Input
  pub memory : ℤ → ℕ → ℕ

-- Whether a rank has started its receives of a timestep.
abbrev pub has_started : {S : Type 0} → World S → ℕ → ℤ → Bool
has_started w timestep rank =
    if ltb timestep (w.clock rank)
    then true
    else (if timestep == w.clock rank then w.posted rank else false)

module _ {D : Type 0} {S : Type 0} (g : TaskGraph D) where
  -- The buffers are made with the size of an output, and filled with zeros.
  abbrev pub start_world : (ℤ → ℕ → ℕ) → S → World S
  start_world memory s = record {
    state = s;
    clock = λ rank. 0;
    posted = λ rank. false;
    requests = λ point. record { slots = []; sends = [] };
    outputs = λ point. record {
      bytes = g.output_bytes_per_task;
      pairs = replicate (g.output_bytes_per_task / 16) (pos 0, pos 0);
    };
    memory = memory;
  }

module _ {D : Type 0} ⦃fl : Platform D⦄ {S : Type 0} (net : Network S) (g : TaskGraph D)
    (n_ranks : ℤ) (tables : Tables) (scratch : ℤ → Scratch) where
  -- A rank posts the messages of its timestep, or the wait for its receives and its sends ends and it
  -- executes.
  pub data Step (w : World S) : World S → Type 0 where
    post :
        (rank : ℤ) {requests : ℤ → Requests} {state : S}
        → pos 0 ≤ℤ rank
        → rank <ℤ n_ranks
        → pos (w.clock rank) <ℤ g.timesteps
        → w.posted rank ≡ false
        → post_rank net g n_ranks tables rank (pos (w.clock rank)) w.outputs (w.requests, w.state)
          ≡ ok (requests, state)
        → Step w (record w { state = state; requests = requests; posted = put rank true w.posted })
    run :
        (rank : ℤ) {inputs : ℤ → List Input} {state : S} {outputs : ℤ → Input} {memory : ℕ → ℕ}
        → pos 0 ≤ℤ rank
        → rank <ℤ n_ranks
        → w.posted rank ≡ true
        → wait_receives net g n_ranks rank w.requests w.state ≡ some (inputs, state)
        → wait_sends net g n_ranks rank (has_started w (w.clock rank)) w.requests w.state ≡ true
        → execute_rank g n_ranks rank scratch (pos (w.clock rank)) inputs (w.outputs, w.memory rank)
          ≡ ok (outputs, memory)
        → Step w (record w {
          state = state;
          outputs = outputs;
          memory = put rank memory w.memory;
          posted = put rank false w.posted;
          clock = put rank (suc (w.clock rank)) w.clock;
        })

  pub data Reach (memory : ℤ → ℕ → ℕ) (s : S) : World S → Type 0 where
    start : Reach memory s (start_world g memory s)
    later : {w w' : World S} → Reach memory s w → Step w w' → Reach memory s w'

  -- The runs that go on from a world.
  pub data Continues : World S → World S → Type 0 where
    here : {w : World S} → Continues w w
    next : {w w' w'' : World S} → Step w w' → Continues w' w'' → Continues w w''
