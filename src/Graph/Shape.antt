-- ===== src/Graph/Shape.antt =====
-- core/core.cc: the row of each timestep and its dependence set, within the bounds that the
-- validation of a graph asserts.
use native.Mathlib.Nat.{mod-lt, pow-suc, add-mod_right}
use task_bench.Base.{
  ℕ, zero, suc, ◌^◌, ◌%◌, ◌<◌, ◌≡◌, refl, arith, true, Bool-cases, inl, inr, lt→ltb,
}
use task_bench.Base.Int.{
  ℤ, pos, negsuc, pos_part, ◌+ℤ◌, ◌-ℤ◌, ◌%ℤ◌, ◌≤ℤ◌, ◌<ℤ◌, ltb_ℤ, min_ℤ, int_laws,
}
use task_bench.Base.Outcome.{ok}
use task_bench.Platform.{Platform}
use task_bench.Graph.{
  TaskGraph, DependenceType, trivial, dom, tree, fft, spread, random_nearest, random_spread,
  offset_of, width_of, offset_at_timestep, width_at_timestep, dependence_set_of,
  dependence_set_at_timestep, max_dependence_sets, timestep_period, checked_mod,
}

pub pow_pos : (n : ℕ) → 0 < 2 ^ n
pow_pos zero = omega arith
pow_pos (suc n) = omega (arith, pow_pos n, pow-suc 2 n)

-- The row before the first timestep is empty.
pub row_before_start :
    {D : Type 0} (g : TaskGraph D) (timestep : ℤ)
    → timestep <ℤ pos 0
    → (offset_at_timestep g timestep ≡ pos 0) × (width_at_timestep g timestep ≡ pos 0)
unfolding offset_at_timestep width_at_timestep
row_before_start g timestep h =
    let early : ltb_ℤ timestep (pos 0) ≡ true = lt→ltb _ _ h in (rw early, rw early)

module _ {D : Type 0} (g : TaskGraph D) (timestep : ℤ) (ht : pos 0 ≤ℤ timestep)
    (hT : timestep <ℤ g.timesteps) (hw : pos 0 <ℤ g.max_width) where
  abbrev Bounded : DependenceType → Type 0
  Bounded t =
      (pos 0 ≤ℤ offset_of t g timestep)
      × (pos 0 <ℤ width_of t g timestep)
      × (offset_of t g timestep +ℤ width_of t g timestep ≤ℤ g.max_width)

  Bounded-all : (t : DependenceType) → Bounded t
  unfolding offset_of width_of
  Bounded-all trivial = omega int_laws
  Bounded-all dom = omega int_laws
  Bounded-all tree = omega (int_laws, pow_pos (pos_part (min_ℤ timestep (pos 62))))
  Bounded-all _ = omega int_laws

  -- At each timestep of the graph, with a width above zero, the row holds at least one point and
  -- lies inside the widest row.
  pub row_bounds :
      (pos 0 ≤ℤ offset_at_timestep g timestep)
      × (pos 0 <ℤ width_at_timestep g timestep)
      × (offset_at_timestep g timestep +ℤ width_at_timestep g timestep ≤ℤ g.max_width)
  unfolding offset_at_timestep width_at_timestep
  row_bounds = elim (Bool-cases (ltb_ℤ timestep (pos 0))) [
    | inl e ↦ absurd (omega int_laws)
    | inr e ↦ rw e (Bounded-all g.dependence)
  ]

in_range :
    (a b : ℤ)
    → pos 0 ≤ℤ a
    → pos 0 <ℤ b
    → (d : ℤ) × (checked_mod a b ≡ ok d) × (pos 0 ≤ℤ d) × (d <ℤ b)
unfolding ◌%ℤ◌
in_range (pos a) (pos b) h k =
    (pos (a % b), ground arith, omega arith, omega (arith, mod-lt a {m = b} (omega arith)))
in_range (negsuc a) b h k = absurd (omega arith)
in_range a (negsuc b) h k = absurd (omega arith)

around : (a b : ℤ) → pos 0 ≤ℤ a → pos 0 <ℤ b → checked_mod (a +ℤ b) b ≡ checked_mod a b
unfolding ◌%ℤ◌ ◌+ℤ◌
around (pos a) (pos b) h k = ground (arith, add-mod_right a b)
around (negsuc a) b h k = absurd (omega arith)
around a (negsuc b) h k = absurd (omega arith)

module _ {D : Type 0} ⦃fl : Platform D⦄ (g : TaskGraph D) (timestep : ℤ)
    (ht : pos 0 ≤ℤ timestep) where
  HasSet :
      (t : DependenceType)
      → pos 0 <ℤ max_dependence_sets g
      → (d : ℤ) × (dependence_set_of t g timestep ≡ ok d)
        × (pos 0 ≤ℤ d)
        × (d <ℤ max_dependence_sets g)
  unfolding dependence_set_of
  HasSet fft n =
      in_range (timestep +ℤ max_dependence_sets g -ℤ pos 1) (max_dependence_sets g) (omega int_laws)
        n
  HasSet spread n = in_range timestep (max_dependence_sets g) ht n
  HasSet random_nearest n = in_range timestep (max_dependence_sets g) ht n
  HasSet random_spread n = in_range timestep (max_dependence_sets g) ht n
  HasSet _ n = (pos 0, refl, omega arith, n)

  -- From timestep 0 on, with at least one dependence set, the set of a timestep is one of them.
  pub dependence_set_bounds :
      pos 0 <ℤ max_dependence_sets g
      → (d : ℤ) × (dependence_set_at_timestep g timestep ≡ ok d)
        × (pos 0 ≤ℤ d)
        × (d <ℤ max_dependence_sets g)
  unfolding dependence_set_at_timestep
  dependence_set_bounds n = HasSet g.dependence n

  Repeats :
      (t : DependenceType)
      → pos 0 <ℤ max_dependence_sets g
      → dependence_set_of t g (timestep +ℤ max_dependence_sets g) ≡ dependence_set_of t g timestep
  unfolding dependence_set_of
  Repeats fft n =
      let n' = max_dependence_sets g in
      let moved : timestep +ℤ n' +ℤ n' -ℤ pos 1 ≡ timestep +ℤ n' -ℤ pos 1 +ℤ n' = omega int_laws in
      rw moved (around (timestep +ℤ n' -ℤ pos 1) n' (omega int_laws) n)
  Repeats spread n = around timestep (max_dependence_sets g) ht n
  Repeats random_nearest n = around timestep (max_dependence_sets g) ht n
  Repeats random_spread n = around timestep (max_dependence_sets g) ht n
  Repeats _ n = refl

  -- The dependence sets repeat after `timestep_period` timesteps, where there is at least one set.
  pub dependence_set_periodic :
      pos 0 <ℤ max_dependence_sets g
      → dependence_set_at_timestep g (timestep +ℤ timestep_period g)
        ≡ dependence_set_at_timestep g timestep
  unfolding dependence_set_at_timestep timestep_period
  dependence_set_periodic n = Repeats g.dependence n
