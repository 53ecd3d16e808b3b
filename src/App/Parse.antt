-- ===== src/App/Parse.antt =====
-- core/core.cc: `App::App`, up to its call of `check`.
pub mod State
pub mod Flags
pub mod Valid
use Prim.Native.String.{String}
use mathlib.Core.List.{map}
use task_bench.Base.{
  ℕ, zero, suc, Bool, true, false, ◌&&◌, not, List, [], ◌∷◌, ◌++◌, length, if◌then◌else◌,
}
use task_bench.Base.Int.{ℤ, pos, ltb_ℤ, leb_ℤ, eqb_ℤ}
use task_bench.Base.Outcome.{Outcome, ok, fault, ◌>>=◌, ◌>>◌, abort_if}
use task_bench.Base.Loops.{for_each}
use task_bench.Platform.{Platform}
use task_bench.Graph.{
  TaskGraph, Kernel, KernelType, DistType, uniform, normal, gamma, cauchy, dist_imbalance, empty,
}
use task_bench.App.{App}
use task_bench.App.Output.{allocate_bytes}
use State.{Parser, Action, on, default_graph, default_period}
use Flags.{all_flags}

module _ {D : Type 0} ⦃fl : Platform D⦄ where
  -- The body of the loop, at one argument.
  unfoldable pub parse_argument : Parser D → Outcome (Parser D)
  parse_argument s = for_each all_flags (λ f t. on f.0 f.1 t) s

  unfoldable pub parse_rest : List String → Parser D → Action D → Outcome (Parser D)
  parse_rest [] s next = ok s
  parse_rest (a ∷ r) s next = parse_argument (record s { current = a; rest = r }) >>= next

  -- The loop takes at least one argument a round.
  unfoldable pub parse_loop : ℕ → Parser D → Outcome (Parser D)
  parse_loop zero s = ok s
  parse_loop (suc n) s = parse_rest s.rest s (parse_loop n)

  abbrev pub start : List String → Parser D
  start args = record {
    current = "";
    rest = args;
    graph = default_graph 0;
    app = record { graphs = []; nodes = pos 0; verbose = pos 0; enable_graph_validation = true };
  }

  unfoldable pub parse_args : List String → Outcome (Parser D)
  parse_args args = parse_loop (length args) (start args)

  -- What the distribution of a kernel with DIST_IMBALANCE wants of its parameters.
  refused : DistType → Kernel D → Bool
  refused uniform k = ltb_ℤ k.dist.max k.iterations
  refused gamma k = leb_ℤ k.dist.a (pos 0)
  refused normal k = leb_ℤ k.dist.std (pos 0)
  refused cauchy k = fl.less_eq k.dist.b (fl.of_long (pos 0))

  unfoldable pub check_distribution : KernelType → Kernel D → Outcome (Unit {0})
  unfolding refused
  check_distribution dist_imbalance k = abort_if (refused k.dist.dist_type k)
  check_distribution empty k = ok tt
  check_distribution _ k = ok tt

  unfoldable pub default_fields : TaskGraph D → TaskGraph D
  default_fields g = if eqb_ℤ g.nb_fields (pos 0) then record g { nb_fields = g.timesteps } else g

  -- The last graph is checked, allocated and pushed.
  unfoldable pub finish : Parser D → Outcome (App D)
  finish s = do
    check_distribution s.graph.kernel.kernel_type s.graph.kernel
    let graph = allocate_bytes (default_period s.graph)
    ok (record (s.app) { graphs = map default_fields (s.app.graphs ++ (graph ∷ [])) })

  -- The application that the arguments behind the program's name describe.
  unfoldable pub parse_app : List String → Outcome (App D)
  parse_app args = parse_args args >>= λ s. finish s
