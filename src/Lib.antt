-- ===== src/Lib.antt =====
-- Task Bench: the core library that every executor of the benchmark links (core/).
--
-- A task graph is a grid of timesteps and points. At each timestep a row of points is active
-- (offset and width), each point depends on points of the row before through one of twelve patterns,
-- and a pattern may change over time by its dependence set. An executor asks the core for the
-- dependences of each task, passes it the outputs of these, and calls `execute_point`, which
-- validates the inputs, writes the output and runs a kernel. `App` reads a command line into graphs,
-- validates them, and reports how many tasks, dependences, operations and bytes a run has had.
--
-- The files, and the code that each models:
--   Base        helpers: signed integers with C's division (Base/Int), how a piece of C++ ends
--               (Base/Outcome: a value, an assertion, abort(), undefined behaviour, a write out of
--               bounds), counted loops and their rules (Base/Loops)
--   Platform    what is not in the repository: `double` and <cmath>, SipHash, <random>, atol
--   Random      core/core_random.c
--   Graph       core/core_c.h (task_graph_t, kernel_t), and of core/core.cc offset_at_timestep,
--               width_at_timestep, max_dependence_sets, timestep_period, dependence_set_at_timestep
--   Graph/Deps  core/core.cc: dependencies, reverse_dependencies, num_dependencies,
--               num_reverse_dependencies; a buffer is the list of the intervals written to it
--   Kernels     core/core_kernel.cc: select_imbalance_iterations and select_dist_iterations
--               (Kernels/Select), copy (Kernels/Copy), the sampling loops of the memory kernels
--               (Kernels/Memory), the kernels and Kernel::execute (Kernels/Execute)
--   Task        core/core.cc: execute_point, prepare_scratch
--   Cost        core/core.cc: count_flops_per_task, count_bytes_per_task, count_flops, count_bytes
--   App         core/core.h: App; core/core.cc: the tables of names (App/Names), App::App
--               (App/Parse, and with its last call App/Construct), allocate_bytes (App/Output),
--               App::check (App/Check) and App::report_timing (App/Report)
--   Interface   core/core_c.cc: the lists of intervals that C programs hold by a pointer, as a store
--               of the vectors that are allocated, and the task that prepares its scratch memory
--   Mpi         mpi/nonblock.cc: the spans of the ranks, their tables and tags (Mpi/Ranks), their
--               scratch memory (Mpi/Memory), what the code takes from MPI (Mpi/Network), what a rank
--               does in a timestep (Mpi/Rank), and the ranks of a run in any interleaving (Mpi/World)
--
-- MPI is a parameter: Network has MPI_Isend, the completion of an MPI_Irecv and that of a send on a
-- state of the communicator, and as laws the standard's rules that messages with the same source,
-- destination and tag do not overtake each other, and that a send completes once its receive is
-- started; whether it completes before is left open. A step of World is the posting loop of one rank
-- in one timestep, or the end of its MPI_Waitall, for its receives and its sends, with the loop that
-- executes its tasks; the ranks take their steps in any order. The bytes of each rank's scratch memory
-- are part of World: a task reads its first word there, and the copies of its kernel change it. Where
-- the scratch memory of each point is, and what it holds when the timesteps begin, are parameters.
-- A run is that of one graph. The dependences that the executor caches are computed where they are used.
--
-- A `long` is an integer of any size: its overflow is undefined behaviour in C++. A `size_t` has
-- its wrap-around written out where the code depends on it (Kernels/Copy, Cost, App/Output), and an
-- `int` that a number is narrowed to has its 32 bits (Kernels/Execute, App/Output). The loops are
-- structural over the number of their rounds, but for the body of the memory kernel's loop and the
-- parser's loop: the first has the number of iterations as fuel, which its theorem shows to be
-- enough, and the second the number of the arguments, since each round takes at least one.
--
-- Not modelled: the values of the floating-point kernels, which their caller drops, the BLAS and AVX
-- branches, DEBUG_CORE, the text that is printed, the functions of core/core_c.cc that only call one
-- method, the clock and the barriers of mpi/nonblock.cc, mpi/bulk_synchronous.cc, and the other
-- executors. SipHash (core/siphash.c) is a copy of another project's code, and a parameter here.
pub mod Base
pub mod Platform
pub mod Random
pub mod Graph
pub mod Kernels
pub mod Cost
pub mod Task
pub mod Interface
pub mod Mpi
pub mod App
