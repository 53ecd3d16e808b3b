-- ===== src/App/Parse/Flags.antt =====
-- core/core.cc: the flags, in the order in which the loop's body tests for them.
use Prim.Native.String.{String}
use task_bench.Base.{Bool, false, ◌||◌, List, [], ◌∷◌, ◌++◌, length, ltb}
use task_bench.Base.Int.{ℤ, pos, pos_part, ◌+ℤ◌, ltb_ℤ, leb_ℤ}
use task_bench.Base.Outcome.{ok, fault, exited}
use task_bench.Platform.{Platform}
use task_bench.Random.{word_of_long}
use task_bench.App.Names.{dtype_by_name, ktype_by_name, disttype_by_name}
use task_bench.App.Parse.State.{
  Parser, Action, value_flag, name_flag, set_graph, set_kernel, default_graph, default_period,
}

-- value < 0, and value <= 0
abbrev pub below_zero : ℤ → Bool
below_zero v = ltb_ℤ v (pos 0)

abbrev pub not_above_zero : ℤ → Bool
not_above_zero v = leb_ℤ v (pos 0)

module _ {D : Type 0} ⦃fl : Platform D⦄ where
  -- value < 0 || value > top
  abbrev pub outside_of : ℤ → D → Bool
  outside_of top v = fl.less v (fl.of_long (pos 0)) || fl.less (fl.of_long top) v

  -- `-h` to `-skip-graph-validation`
  unfoldable pub general_flags : List (String × Action D)
  general_flags =
      ("-h", λ (s : Parser D). fault exited)
      ∷ (
        "-nodes",
        value_flag fl.atol not_above_zero (λ v s. record s { app = record (s.app) { nodes = v } }),
      )
      ∷ ("-v", λ s. ok (record s { app = record (s.app) { verbose = s.app.verbose +ℤ pos 1 } }))
      ∷ ("-vv", λ s. ok (record s { app = record (s.app) { verbose = s.app.verbose +ℤ pos 2 } }))
      ∷ (
        "-skip-graph-validation",
        λ s. ok (record s { app = record (s.app) { enable_graph_validation = false } }),
      )
      ∷ []

  -- `-steps` to `-fraction`
  unfoldable pub graph_flags : List (String × Action D)
  graph_flags =
      (
        "-steps",
        value_flag fl.atol not_above_zero
            (λ v (s : Parser D). set_graph (λ g. record g { timesteps = v }) s),
      )
      ∷ (
        "-width",
        value_flag fl.atol not_above_zero (λ v s. set_graph (λ g. record g { max_width = v }) s),
      )
      ∷ ("-type", name_flag dtype_by_name (λ v s. set_graph (λ g. record g { dependence = v }) s))
      ∷ (
        "-dist",
        name_flag disttype_by_name
            (λ v s. set_kernel (λ k. record k { dist = record (k.dist) { dist_type = v } }) s),
      )
      ∷ ("-radix", value_flag fl.atol below_zero (λ v s. set_graph (λ g. record g { radix = v }) s))
      ∷ (
        "-period",
        value_flag fl.atol below_zero (λ v s. set_graph (λ g. record g { period = v }) s),
      )
      ∷ (
        "-fraction",
        value_flag fl.atof (outside_of (pos 1))
            (λ v s. set_graph (λ g. record g { fraction_connected = v }) s),
      )
      ∷ []

  -- `-kernel` to `-field`. The argument of `-output` is compared as an unsigned number.
  unfoldable pub kernel_flags : List (String × Action D)
  kernel_flags =
      (
        "-kernel",
        name_flag ktype_by_name
            (λ v (s : Parser D). set_kernel (λ k. record k { kernel_type = v }) s),
      )
      ∷ (
        "-iter",
        value_flag fl.atol below_zero (λ v s. set_kernel (λ k. record k { iterations = v }) s),
      )
      ∷ (
        "-output",
        value_flag fl.atol (λ v. ltb (word_of_long v) 16)
            (λ v s. set_graph (λ g. record g { output_bytes_per_task = word_of_long v }) s),
      )
      ∷ (
        "-scratch",
        value_flag fl.atol below_zero
            (λ v s. set_graph (λ g. record g { scratch_bytes_per_task = pos_part v }) s),
      )
      ∷ (
        "-sample",
        value_flag fl.atoi below_zero (λ v s. set_kernel (λ k. record k { samples = v }) s),
      )
      ∷ (
        "-imbalance",
        value_flag fl.atof (outside_of (pos 2))
            (λ v s. set_kernel (λ k. record k { imbalance = v }) s),
      )
      ∷ (
        "-mem-fraction",
        value_flag fl.atof (outside_of (pos 1))
            (λ v s. set_kernel (λ k. record k { fraction_mem = v }) s),
      )
      ∷ (
        "-field",
        value_flag fl.atoi not_above_zero (λ v s. set_graph (λ g. record g { nb_fields = v }) s),
      )
      ∷ []

  -- `-output-case` to `-output-gamma-b`
  unfoldable pub output_flags : List (String × Action D)
  output_flags =
      (
        "-output-case",
        value_flag fl.atoi below_zero
            (λ v (s : Parser D). set_graph (λ g. record g { output_case = v }) s),
      )
      ∷ (
        "-output-mean",
        value_flag fl.atoi below_zero
            (λ v s. set_graph (λ g. record g { onormal_mu = fl.of_long v }) s),
      )
      ∷ (
        "-output-std",
        value_flag fl.atoi below_zero
            (λ v s. set_graph (λ g. record g { onormal_std = fl.of_long v }) s),
      )
      ∷ (
        "-output-gamma-a",
        value_flag fl.atoi below_zero
            (λ v s. set_graph (λ g. record g { ogamma_alpha = fl.of_long v }) s),
      )
      ∷ (
        "-output-gamma-b",
        value_flag fl.atoi below_zero
            (λ v s. set_graph (λ g. record g { ogamma_beta = fl.of_long v }) s),
      )
      ∷ []

  -- `-and`: the graph is done, and the next one begins.
  unfoldable pub push_graph : Parser D → Parser D
  push_graph s =
      let graphs = s.app.graphs ++ (default_period s.graph ∷ []) in
      record s { app = record (s.app) { graphs = graphs }; graph = default_graph (length graphs) }

  -- `-and` to `-dist-alpha`
  unfoldable pub dist_flags : List (String × Action D)
  dist_flags =
      ("-and", λ (s : Parser D). ok (push_graph s))
      ∷ (
        "-dist-max",
        value_flag fl.atol not_above_zero
            (λ v s. set_kernel (λ k. record k { dist = record (k.dist) { max = v } }) s),
      )
      ∷ (
        "-dist-std",
        value_flag fl.atol not_above_zero
            (λ v s. set_kernel (λ k. record k { dist = record (k.dist) { std = v } }) s),
      )
      ∷ (
        "-dist-beta",
        value_flag fl.atof (λ v. fl.less_eq v (fl.of_long (pos 0)))
            (λ v s. set_kernel (λ k. record k { dist = record (k.dist) { b = v } }) s),
      )
      ∷ (
        "-dist-alpha",
        value_flag fl.atol not_above_zero
            (λ v s. set_kernel (λ k. record k { dist = record (k.dist) { a = v } }) s),
      )
      ∷ []

  unfoldable pub all_flags : List (String × Action D)
  all_flags = general_flags ++ (graph_flags ++ (kernel_flags ++ (output_flags ++ dist_flags)))
