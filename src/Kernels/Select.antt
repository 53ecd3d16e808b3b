-- ===== src/Kernels/Select.antt =====
-- core/core_kernel.cc: how many iterations the kernels with imbalance make.
use task_bench.Base.{ℕ, ◌≡◌, ◌/◌, ◌%◌, ◌^◌, [], ◌∷◌, arith, if◌then◌else◌}
use task_bench.Base.Int.{ℤ, pos, negsuc, leb_ℤ, ltb_ℤ, ◌≤ℤ◌}
use task_bench.Base.Outcome.{Outcome, ok, ◌>>◌, check_that}
use task_bench.Platform.{Platform}
use task_bench.Random.{random_uniform, gen_bits, bytes_of_longs}
use task_bench.Graph.{Kernel, DistType, uniform, normal, gamma, cauchy}

-- unsigned seed_u = bits/ratio, with two `unsigned`s to a `uint64_t`
unfoldable pub seed_of : ℕ → ℕ
seed_of bits = (bits / 2) % 2 ^ 32

module _ {D : Type 0} ⦃fl : Platform D⦄ where
  -- (long)round((1 + (value - 0.5)*imbalance) * iterations)
  unfoldable pub select_imbalance_iterations : Kernel D → ℤ → ℤ → ℤ → Outcome ℤ
  select_imbalance_iterations k graph_index timestep point =
      let value = random_uniform (graph_index ∷ timestep ∷ point ∷ []) in
      let one = fl.of_long (pos 1) in
      let iterations = fl.to_long (
        fl.round (
          fl.times (fl.plus one (fl.times (fl.minus value fl.half) k.imbalance))
            (fl.of_long k.iterations))) in
      do check_that (leb_ℤ (pos 0) iterations); ok iterations

  -- The switch on the distribution. CAUCHY draws twice, and the second draw overwrites the first.
  unfoldable pub draw : DistType → ℕ → Kernel D → ℤ
  draw uniform seed k = fl.draw_uniform seed k.iterations k.dist.max
  draw normal seed k =
      fl.to_long
        (fl.plus (fl.times (fl.draw_normal seed) (fl.of_long k.dist.std)) (fl.of_long k.iterations))
  draw gamma seed k = fl.to_long (fl.times (fl.of_long k.iterations) (fl.draw_gamma seed k.dist.a))
  draw cauchy seed k = fl.to_long (fl.draw_cauchy seed k.dist.b)

  unfoldable pub select_dist_iterations : Kernel D → ℤ → ℤ → ℤ → Outcome ℤ
  select_dist_iterations k graph_index timestep point =
      let seed = seed_of (gen_bits fl (bytes_of_longs (graph_index ∷ timestep ∷ point ∷ []))) in
      let drawn = draw k.dist.dist_type seed k in
      let iterations = if ltb_ℤ drawn (pos 0) then pos 0 else drawn in
      do check_that (leb_ℤ (pos 0) iterations); ok iterations

  -- Whatever the distribution draws, a number of iterations that is not negative is selected.
  pub select_dist_iterations_total :
      (k : Kernel D) (graph_index timestep point : ℤ)
      → (n : ℤ) × (select_dist_iterations k graph_index timestep point ≡ ok n) × (pos 0 ≤ℤ n)
  unfolding select_dist_iterations
  select_dist_iterations_total k graph_index timestep point = clamped (draw k.dist.dist_type _ k)
    where
      clamped :
          (drawn : ℤ)
          → let n = if ltb_ℤ drawn (pos 0) then pos 0 else drawn in
            (m : ℤ) × ((check_that (leb_ℤ (pos 0) n) >> ok n) ≡ ok m) × (pos 0 ≤ℤ m)
      clamped (pos n) = (pos n, ground arith, ground arith)
      clamped (negsuc n) = (pos 0, ground arith, ground arith)
