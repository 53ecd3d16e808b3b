-- ===== src/Mpi/World/Length.antt =====
-- How long a run is.
use task_bench.Base.{
  ℕ, zero, suc, ◌≡◌, refl, sym, ap, ◌∙◌, ◌+◌, ◌*◌, ◌≤◌, Bool, true, false, if◌then◌else◌, arith,
  ◌&&◌,
}
use task_bench.Base.Int.{
  eqb-eq, ℤ, pos, pos_part, ◌≤ℤ◌, ◌<ℤ◌, eqb_ℤ, leb_ℤ, ltb_ℤ, int_laws, parts_disjoint,
}
use task_bench.Platform.{Platform}
use task_bench.Graph.{TaskGraph}
use task_bench.Graph.Deps.Count.{one_if}
use task_bench.Kernels.Execute.{Scratch}
use task_bench.Mpi.Ranks.{Tables}
use task_bench.Mpi.Network.{Network}
use task_bench.Mpi.World.{World, Step, post, run, Reach, start, later}

-- The sum over the first ranks.
abbrev pub total : (ℤ → ℕ) → ℕ → ℕ
total f zero = 0
total f (suc m) = total f m + f (pos m)

more_in_front :
    (rank : ℤ) (m : ℕ)
    → one_if (ltb_ℤ rank (pos m) && leb_ℤ (pos 0) rank) + one_if (eqb_ℤ (pos m) rank)
      ≡ one_if (ltb_ℤ rank (pos (suc m)) && leb_ℤ (pos 0) rank)
more_in_front rank m = grind int_laws

none_in_front : (rank : ℤ) → 0 ≡ 0 + one_if (ltb_ℤ rank (pos 0) && leb_ℤ (pos 0) rank)
none_in_front rank = grind int_laws

-- A number that grows by one at a rank makes the sum grow by one.
one_grows :
    (f f' : ℤ → ℕ) (m : ℕ) (rank : ℤ)
    → ((s : ℤ) → f' s ≡ f s + one_if (eqb_ℤ s rank))
    → total f' m ≡ total f m + one_if (ltb_ℤ rank (pos m) && leb_ℤ (pos 0) rank)
one_grows f f' zero rank h = none_in_front rank
one_grows f f' (suc m) rank h =
    omega (arith, one_grows f f' m rank h, h (pos m), more_in_front rank m)

pub total_le : (f : ℤ → ℕ) (m k : ℕ) → ((s : ℤ) → f s ≤ k) → total f m ≤ m * k
total_le f zero k h = omega arith
total_le f (suc m) k h = omega (arith, total_le f m k h, h (pos m), succ_mul m k)
  where
    succ_mul : (m k : ℕ) → suc m * k ≡ m * k + k
    succ_mul m k = omega arith

total_zero : (m : ℕ) → total (λ s. 0) m ≡ 0
total_zero zero = refl
total_zero (suc m) = omega (arith, total_zero m)

-- Two for each timestep that a rank has done, and one for the messages that it has posted.
abbrev pub done_by : {S : Type 0} → World S → ℤ → ℕ
done_by w rank = 2 * w.clock rank + one_if (w.posted rank)

module _ {D : Type 0} ⦃fl : Platform D⦄ {S : Type 0} (net : Network S) (g : TaskGraph D) (n : ℤ)
    (tables : Tables) (scratch : ℤ → Scratch) (memory : ℤ → ℕ → ℕ) where
  abbrev pub steps : (s : S) (w : World S) → Reach net g n tables scratch memory s w → ℕ
  steps s w start = 0
  steps s w (later {w = before} reached step) = suc (steps s before reached)

  in_front :
      (rank : ℤ)
      → pos 0 ≤ℤ rank
      → rank <ℤ n
      → one_if (ltb_ℤ rank (pos (pos_part n)) && leb_ℤ (pos 0) rank) ≡ 1
  in_front rank h k = grind (int_laws, parts_disjoint n)

  grows_by_one :
      (w w' : World S)
      → Step net g n tables scratch w w'
      → total (done_by w') (pos_part n) ≡ suc (total (done_by w) (pos_part n))
  grows_by_one w w' (post rank h0 hr below idle call) =
      one_grows (done_by w) _ (pos_part n) rank (λ s. at s (eqb_ℤ s rank) refl)
      ∙ omega (arith, in_front rank h0 hr)
    where
      at :
          (s : ℤ) (b : Bool)
          → eqb_ℤ s rank ≡ b
          → 2 * w.clock s + one_if (if b then true else w.posted s)
            ≡ 2 * w.clock s + one_if (w.posted s) + one_if b
      at s true e = omega (arith, ap one_if (ap w.posted (eqb-eq s rank e) ∙ idle))
      at s false e = omega arith
  grows_by_one w w' (run rank h0 hr posted wait sends call) =
      one_grows (done_by w) _ (pos_part n) rank (λ s. at s (eqb_ℤ s rank) refl)
      ∙ omega (arith, in_front rank h0 hr)
    where
      at :
          (s : ℤ) (b : Bool)
          → eqb_ℤ s rank ≡ b
          → 2 * (if b then suc (w.clock rank) else w.clock s)
              + one_if (if b then false else w.posted s)
            ≡ 2 * w.clock s + one_if (w.posted s) + one_if b
      at s true e =
          omega (
            arith,
            ap one_if (ap w.posted (eqb-eq s rank e) ∙ posted),
            ap w.clock (eqb-eq s rank e),
          )
      at s false e = omega arith

  pub steps-done :
      (s : S) (w : World S) (reached : Reach net g n tables scratch memory s w)
      → steps s w reached ≡ total (done_by w) (pos_part n)
  steps-done s w start = sym (total_zero (pos_part n))
  steps-done s w (later {w = before} reached step) =
      ap suc (steps-done s before reached) ∙ sym (grows_by_one before w step)
