-- ===== src/App/Parse/Valid.antt =====
-- core/core.cc: what the parser guarantees of the graphs that it returns.
pub mod Actions
use Prim.Native.String.{String}
use text.Mathlib.Text.{◌==◌ as str_eq}
use mathlib.Core.List.{map}
use task_bench.Base.{
  ℕ, zero, suc, ◌≤◌, ◌≡◌, Bool, false, List, [], ◌∷◌, ◌++◌, Option, some, none, length, arith,
  Bool-cases, inl, inr, ltb, subst,
}
use task_bench.Base.Int.{ℤ, pos, ltb_ℤ, eqb_ℤ, ◌≤ℤ◌, ◌<ℤ◌}
use task_bench.Base.Outcome.{Fault, ok, fault, >>=-eq-ok, ok-injective}
use task_bench.Base.Loops.{for_each}
use task_bench.Platform.{Platform}
use task_bench.Random.{word_of_long}
use task_bench.Graph.{TaskGraph}
use task_bench.App.{App}
use task_bench.App.Names.{find_name}
use task_bench.App.Output.{allocate_bytes}
use task_bench.App.Parse.State.{
  Parser, Action, on, take_next, next_argument, value_flag, name_flag, store_found, default_graph,
  default_period,
}
use task_bench.App.Parse.Flags.{
  all_flags, general_flags, graph_flags, kernel_flags, output_flags, dist_flags, push_graph,
  below_zero, not_above_zero,
}
use task_bench.App.Parse.{
  parse_argument, parse_rest, parse_loop, parse_args, start, check_distribution, default_fields,
  finish, parse_app,
}
pub use Actions.{IsParsed, AllParsed}
use Actions.{
  AllParsed-append, value_flag-Keeps, name_flag-Keeps, update-Keeps, AllKeep-append, for_each-Keeps,
  not_fault, IsValid, Keeps, AllKeep,
}

above : (v : ℤ) → not_above_zero v ≡ false → pos 0 <ℤ v
above v h = ground arith

at_least : (v : ℤ) → below_zero v ≡ false → pos 0 ≤ℤ v
at_least v h = ground arith

enough : (v : ℤ) → ltb (word_of_long v) 16 ≡ false → 16 ≤ word_of_long v
enough v h = ground arith

default_period-IsParsed : {D : Type 0} (g : TaskGraph D) → IsParsed g → IsParsed (default_period g)
unfolding default_period
default_period-IsParsed g p = elim (Bool-cases (ltb_ℤ g.period (pos 0))) [
  | inl e ↦ rw e p
  | inr e ↦ rw e p
]

default_fields-IsParsed :
    {D : Type 0} ⦃fl : Platform D⦄ (g : TaskGraph D) → IsParsed g → IsParsed (default_fields g)
unfolding default_fields
default_fields-IsParsed g p = elim (Bool-cases (eqb_ℤ g.nb_fields (pos 0))) [
  | inl e ↦ rw e p
  | inr e ↦ rw e p
]

module _ (D : Type 0) ⦃fl : Platform D⦄ where
  general_flags-AllKeep : AllKeep {D = D} general_flags
  unfolding general_flags
  general_flags-AllKeep = (
    λ s t h e. not_fault e,
    (
      value_flag-Keeps _ _ _ (λ v s good h. h),
      (update-Keeps _ (λ s h. h), (update-Keeps _ (λ s h. h), (update-Keeps _ (λ s h. h), tt))),
    ),
  )

  graph_flags-AllKeep : AllKeep {D = D} graph_flags
  unfolding graph_flags
  graph_flags-AllKeep = (
    value_flag-Keeps _ _ _ (λ v s good (p, gs). ((above v good, p.1, p.2, p.3, p.4, p.5), gs)),
    (
      value_flag-Keeps _ _ _ (λ v s good (p, gs). ((p.0, above v good, p.2, p.3, p.4, p.5), gs)),
      (
        name_flag-Keeps _ _ (λ v s h. h),
        (
          name_flag-Keeps _ _ (λ v s h. h),
          (
            value_flag-Keeps _ _ _
                (λ v s good (p, gs). ((p.0, p.1, at_least v good, p.3, p.4, p.5), gs)),
            (
              value_flag-Keeps _ _ _ (λ v s good h. h),
              (value_flag-Keeps _ _ _ (λ v s good h. h), tt),
            ),
          ),
        ),
      ),
    ),
  )

  kernel_flags-AllKeep : AllKeep {D = D} kernel_flags
  unfolding kernel_flags
  kernel_flags-AllKeep = (
    name_flag-Keeps _ _ (λ v s h. h),
    (
      value_flag-Keeps _ _ _ (λ v s good (p, gs). ((p.0, p.1, p.2, at_least v good, p.4, p.5), gs)),
      (
        value_flag-Keeps _ _ _ (λ v s good (p, gs). ((p.0, p.1, p.2, p.3, p.4, enough v good), gs)),
        (
          value_flag-Keeps _ _ _ (λ v s good h. h),
          (
            value_flag-Keeps _ _ _
                (λ v s good (p, gs). ((p.0, p.1, p.2, p.3, at_least v good, p.5), gs)),
            (
              value_flag-Keeps _ _ _ (λ v s good h. h),
              (
                value_flag-Keeps _ _ _ (λ v s good h. h),
                (value_flag-Keeps _ _ _ (λ v s good h. h), tt),
              ),
            ),
          ),
        ),
      ),
    ),
  )

  output_flags-AllKeep : AllKeep {D = D} output_flags
  unfolding output_flags
  output_flags-AllKeep = (
    value_flag-Keeps _ _ _ (λ v s good h. h),
    (
      value_flag-Keeps _ _ _ (λ v s good h. h),
      (
        value_flag-Keeps _ _ _ (λ v s good h. h),
        (value_flag-Keeps _ _ _ (λ v s good h. h), (value_flag-Keeps _ _ _ (λ v s good h. h), tt)),
      ),
    ),
  )

  default_graph-IsParsed : (n : ℕ) → IsParsed {D = D} (default_graph n)
  unfolding default_graph
  default_graph-IsParsed n = omega arith

  push_graph-IsValid : (s : Parser D) → IsValid s → IsValid (push_graph s)
  unfolding push_graph
  push_graph-IsValid s (p, gs) = (
    default_graph-IsParsed _,
    AllParsed-append s.app.graphs (default_period s.graph ∷ []) gs
        (default_period-IsParsed s.graph p, tt),
  )

  dist_flags-AllKeep : AllKeep {D = D} dist_flags
  unfolding dist_flags
  dist_flags-AllKeep = (
    update-Keeps _ push_graph-IsValid,
    (
      value_flag-Keeps _ _ _ (λ v s good h. h),
      (
        value_flag-Keeps _ _ _ (λ v s good h. h),
        (value_flag-Keeps _ _ _ (λ v s good h. h), (value_flag-Keeps _ _ _ (λ v s good h. h), tt)),
      ),
    ),
  )

  all_flags-AllKeep : AllKeep {D = D} all_flags
  unfolding all_flags
  all_flags-AllKeep = AllKeep-append general_flags _ general_flags-AllKeep (
      AllKeep-append graph_flags _ graph_flags-AllKeep (
        AllKeep-append kernel_flags _ kernel_flags-AllKeep
          (AllKeep-append output_flags _ output_flags-AllKeep dist_flags-AllKeep)))

  parse_argument-Keeps : Keeps {D = D} parse_argument
  unfolding parse_argument
  parse_argument-Keeps s t h e = for_each-Keeps all_flags all_flags-AllKeep s t h e

  parse_rest-Keeps :
      (r : List String) (next : Action D) → Keeps next → Keeps (λ s. parse_rest r s next)
  unfolding parse_rest
  parse_rest-Keeps [] next keep s t h e = subst IsValid (ok-injective e) h
  parse_rest-Keeps (a ∷ r) next keep s t h e =
      let (s', taken, e') = >>=-eq-ok (parse_argument (record s { current = a; rest = r })) _ e in
      keep s' t (parse_argument-Keeps _ s' h taken) e'

  AllParsed-defaults : (gs : List (TaskGraph D)) → AllParsed gs → AllParsed (map default_fields gs)
  AllParsed-defaults [] h = tt
  AllParsed-defaults (g ∷ gs) h = (default_fields-IsParsed g h.0, AllParsed-defaults gs h.1)

  parse_loop-Keeps : (n : ℕ) → Keeps {D = D} (parse_loop n)
  unfolding parse_loop
  parse_loop-Keeps zero s t h e = subst IsValid (ok-injective e) h
  parse_loop-Keeps (suc n) s t h e =
      parse_rest-Keeps s.rest (parse_loop n) (parse_loop-Keeps n) s t h e

  finish-AllParsed :
      (s : Parser D) (app : App D) → IsValid s → finish s ≡ ok app → AllParsed app.graphs
  unfolding finish allocate_bytes
  finish-AllParsed s app (p, gs) e =
      let (_, _, e') =
        >>=-eq-ok (check_distribution s.graph.kernel.kernel_type s.graph.kernel) _ e in
      subst (λ (a : App D). AllParsed a.graphs) (ok-injective e')
        (AllParsed-defaults _
          (AllParsed-append s.app.graphs _ gs (default_period-IsParsed s.graph p, tt)))

-- Every graph of a parsed command line has timesteps, a width above zero, a radix, iterations and
-- samples that are not negative, and outputs of at least sixteen bytes.
pub parse_app-AllParsed :
    {D : Type 0} ⦃fl : Platform D⦄ (args : List String) {app : App D}
    → parse_app args ≡ ok app
    → AllParsed app.graphs
unfolding parse_app parse_args
parse_app-AllParsed {D} args e =
    let (s, parsed, finished) = >>=-eq-ok (parse_args args) _ e in
    finish-AllParsed D s _
      (parse_loop-Keeps D (length args) (start args) s (default_graph-IsParsed D 0, tt) parsed)
      finished
