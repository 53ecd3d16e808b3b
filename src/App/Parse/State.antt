-- ===== src/App/Parse/State.antt =====
-- core/core.cc: the parser's state, and the forms of its flags. The state is passed through every
-- `if` of the loop's body in turn, with the argument that `argv[i]` stands at.
use Prim.Native.String.{String}
use text.Mathlib.Text.{◌==◌ as str_eq}
use task_bench.Base.{ℕ, Bool, Option, some, none, List, [], ◌∷◌, if◌then◌else◌}
use task_bench.Base.Int.{pos, negsuc, ltb_ℤ}
use task_bench.Base.Outcome.{Outcome, ok, fault, aborted, ◌>>=◌, ◌>>◌, abort_if}
use task_bench.Platform.{Platform}
use task_bench.Graph.{TaskGraph, Kernel, trivial, empty, uniform, needs_period}
use task_bench.App.{App}
use task_bench.App.Names.{find_name}

-- `current` is argv[i], and `rest` what follows it.
pub record Parser (D : Type 0) : Type 0 where
  pub current : String
  pub rest : List String
  pub graph : TaskGraph D
  pub app : App D

-- What is left out of the initialiser of the kernel is zero.
unfoldable pub default_graph : {D : Type 0} ⦃fl : Platform D⦄ → ℕ → TaskGraph D
default_graph ⦃fl⦄ graph_index = record {
  graph_index = pos graph_index;
  timesteps = pos 4;
  max_width = pos 4;
  dependence = trivial;
  radix = pos 3;
  period = negsuc 0;
  fraction_connected = fl.quarter;
  kernel = record {
    kernel_type = empty;
    iterations = pos 0;
    samples = pos 16;
    imbalance = fl.of_long (pos 0);
    fraction_mem = fl.of_long (pos 0);
    dist = record {
      dist_type = uniform;
      max = pos 0;
      std = pos 0;
      a = pos 0;
      b = fl.of_long (pos 0);
    };
  };
  output_bytes_per_task = 16;
  scratch_bytes_per_task = 0;
  nb_fields = pos 0;
  output_bytes_size = none;
  output_case = pos 0;
  onormal_mu = fl.of_long (pos 2);
  onormal_std = fl.of_long (pos 2);
  ogamma_alpha = fl.of_long (pos 2);
  ogamma_beta = fl.of_long (pos 2);
}

-- if (graph.period < 0) graph.period = needs_period(graph.dependence) ? 3 : 0;
unfoldable pub default_period : {D : Type 0} → TaskGraph D → TaskGraph D
default_period g =
    if ltb_ℤ g.period (pos 0)
    then record g { period = if needs_period g.dependence then pos 3 else pos 0 }
    else g

abbrev pub Action : Type 0 → Type 0
Action D = Parser D → Outcome (Parser D)

module _ {D : Type 0} where
  unfoldable pub take_next : List String → Action D
  take_next [] s = fault aborted
  take_next (a ∷ r) s = ok (record s { current = a; rest = r })

  -- needs_argument(i, argc, flag); argv[++i]
  unfoldable pub next_argument : Action D
  next_argument s = take_next s.rest s

  -- if (!strcmp(argv[i], flag)) action
  unfoldable pub on : String → Action D → Action D
  on flag action s = if str_eq s.current flag then action s else ok s

  -- A flag whose argument is read as a value, refused where `bad` holds, and stored.
  unfoldable pub value_flag :
      {V : Type 0} → (String → V) → (V → Bool) → (V → Parser D → Parser D) → Action D
  value_flag read bad store s = next_argument s >>= λ s'.
      let value = read s'.current in abort_if (bad value) >> ok (store value s')

  unfoldable pub store_found : {V : Type 0} → Option V → (V → Parser D → Parser D) → Action D
  store_found none store s = fault aborted
  store_found (some v) store s = ok (store v s)

  -- A flag whose argument is the name of a value.
  unfoldable pub name_flag : {V : Type 0} → List (String × V) → (V → Parser D → Parser D) → Action D
  unfolding store_found
  name_flag names store s =
      next_argument s >>= λ s'. store_found (find_name s'.current names) store s'

  abbrev pub set_graph : (TaskGraph D → TaskGraph D) → Parser D → Parser D
  set_graph f s = record s { graph = f s.graph }

  abbrev pub set_kernel : (Kernel D → Kernel D) → Parser D → Parser D
  set_kernel f s = record s { graph = record (s.graph) { kernel = f s.graph.kernel } }
