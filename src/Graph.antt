-- ===== src/Graph.antt =====
-- core/core_c.h and core/core.h: the data of a task graph, and its shape over time
-- (`offset_at_timestep` to `dependence_set_at_timestep` of core/core.cc).
pub mod Deps
pub mod Shape
pub mod Sound
mod Tests
use task_bench.Base.{ℕ, ◌^◌, Bool, true, false, List, Option, if◌then◌else◌}
use task_bench.Base.Int.{ℤ, pos, pos_part, ◌+ℤ◌, ◌-ℤ◌, ◌/ℤ◌, ◌%ℤ◌, ltb_ℤ, eqb_ℤ, min_ℤ, max_ℤ}
use task_bench.Base.Outcome.{Outcome, ok, fault, undefined}
use task_bench.Platform.{Platform}

pub data DependenceType : Type 0 where
  trivial no_comm stencil_1d stencil_1d_periodic dom tree fft all_to_all nearest spread
        random_nearest random_spread :
      DependenceType

pub data KernelType : Type 0 where
  empty busy_wait memory_bound compute_dgemm memory_daxpy compute_bound compute_bound2 io_bound
        load_imbalance compute_memory dist_imbalance :
      KernelType

pub data DistType : Type 0 where
  uniform normal gamma cauchy : DistType

-- `dist_t`; `dist_type` is its field `type`.
pub record Dist (D : Type 0) : Type 0 where
  pub dist_type : DistType
  pub max : ℤ
  pub std : ℤ
  pub a : ℤ
  pub b : D

-- `kernel_t`; `kernel_type` is its field `type`.
pub record Kernel (D : Type 0) : Type 0 where
  pub kernel_type : KernelType
  pub iterations : ℤ
  pub samples : ℤ
  pub imbalance : D
  pub fraction_mem : D
  pub dist : Dist D

-- `task_graph_t`. `output_bytes_size` is `none` while the pointer is not set, and an entry is `none`
-- while it is not initialised.
pub record TaskGraph (D : Type 0) : Type 0 where
  pub graph_index : ℤ
  pub timesteps : ℤ
  pub max_width : ℤ
  pub dependence : DependenceType
  pub radix : ℤ
  pub period : ℤ
  pub fraction_connected : D
  pub kernel : Kernel D
  pub output_bytes_per_task : ℕ
  pub scratch_bytes_per_task : ℕ
  pub nb_fields : ℤ
  pub output_bytes_size : Option (List (List (Option ℕ)))
  pub output_case : ℤ
  pub onormal_mu : D
  pub onormal_std : D
  pub ogamma_alpha : D
  pub ogamma_beta : D

unfoldable pub needs_period : DependenceType → Bool
needs_period spread = true
needs_period random_nearest = true
needs_period trivial = false
needs_period _ = false

-- 1L << n at a shift in range.
abbrev pub shift_one : ℤ → ℤ
shift_one n = pos (2 ^ pos_part n)

module _ {D : Type 0} where
  offset_of : DependenceType → TaskGraph D → ℤ → ℤ
  offset_of dom g timestep = max_ℤ (pos 0) (timestep +ℤ g.max_width -ℤ g.timesteps)
  offset_of _ g timestep = pos 0

  unfoldable pub offset_at_timestep : TaskGraph D → ℤ → ℤ
  unfolding offset_of
  offset_at_timestep g timestep =
      if ltb_ℤ timestep (pos 0) then pos 0 else offset_of g.dependence g timestep

  width_of : DependenceType → TaskGraph D → ℤ → ℤ
  width_of dom g timestep = min_ℤ g.max_width (min_ℤ (timestep +ℤ pos 1) (g.timesteps -ℤ timestep))
  width_of tree g timestep = min_ℤ g.max_width (shift_one (min_ℤ timestep (pos 62)))
  width_of _ g timestep = g.max_width

  unfoldable pub width_at_timestep : TaskGraph D → ℤ → ℤ
  unfolding width_of
  width_at_timestep g timestep =
      if ltb_ℤ timestep (pos 0) then pos 0 else width_of g.dependence g timestep

-- a / b on `long`s: a zero divisor is undefined.
abbrev pub checked_div : ℤ → ℤ → Outcome ℤ
checked_div a b = if eqb_ℤ b (pos 0) then fault undefined else ok (a /ℤ b)

-- a % b on `long`s: a zero divisor is undefined.
abbrev pub checked_mod : ℤ → ℤ → Outcome ℤ
checked_mod a b = if eqb_ℤ b (pos 0) then fault undefined else ok (a %ℤ b)

module _ {D : Type 0} ⦃fl : Platform D⦄ where
  dependence_sets_of : DependenceType → TaskGraph D → ℤ
  dependence_sets_of fft g = fl.to_long (fl.ceil (fl.log2 (fl.of_long g.max_width)))
  dependence_sets_of spread g = g.period
  dependence_sets_of random_nearest g = g.period
  dependence_sets_of random_spread g = g.period
  dependence_sets_of _ g = pos 1

  unfoldable pub max_dependence_sets : TaskGraph D → ℤ
  unfolding dependence_sets_of
  max_dependence_sets g = dependence_sets_of g.dependence g

  unfoldable pub timestep_period : TaskGraph D → ℤ
  timestep_period g = max_dependence_sets g

  dependence_set_of : DependenceType → TaskGraph D → ℤ → Outcome ℤ
  dependence_set_of fft g timestep =
      checked_mod (timestep +ℤ max_dependence_sets g -ℤ pos 1) (max_dependence_sets g)
  dependence_set_of spread g timestep = checked_mod timestep (max_dependence_sets g)
  dependence_set_of random_nearest g timestep = checked_mod timestep (max_dependence_sets g)
  dependence_set_of random_spread g timestep = checked_mod timestep (max_dependence_sets g)
  dependence_set_of _ g timestep = ok (pos 0)

  unfoldable pub dependence_set_at_timestep : TaskGraph D → ℤ → Outcome ℤ
  unfolding dependence_set_of
  dependence_set_at_timestep g timestep = dependence_set_of g.dependence g timestep
