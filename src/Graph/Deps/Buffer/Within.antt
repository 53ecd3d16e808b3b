-- ===== src/Graph/Deps/Buffer/Within.antt =====
-- Lists of intervals that lie in a row of a given width, and the patterns that write them.
use task_bench.Base.{
  ℕ, zero, suc, ◌≡◌, refl, ap, ◌≤◌, List, [], ◌∷◌, Bool, true, false, length, arith, if◌then◌else◌,
  ◌*◌,
}
use task_bench.Base.Int.{
  ℤ, pos, negsuc, pos_part, ◌+ℤ◌, ◌-ℤ◌, ◌*ℤ◌, ◌/ℤ◌, ◌≤ℤ◌, ◌<ℤ◌, ltb_ℤ, min_ℤ, max_ℤ, int_laws,
}
use task_bench.Graph.Deps.{Interval, write_if, periodic_deps, tree_children, fft_deps, spread_loop}

-- The interval is not empty and lies in a row of width `w`.
abbrev pub IsWithin : ℤ → Interval → Type 0
IsWithin w (first, last) = (pos 0 ≤ℤ first) × (first ≤ℤ last) × (last <ℤ w)

abbrev pub AllWithin : ℤ → List Interval → Type 0
AllWithin w [] = Unit
AllWithin w (i ∷ rest) = IsWithin w i × AllWithin w rest

pub AllWithin-write_if :
    (w : ℤ) (b : Bool) (i : Interval) (rest : List Interval)
    → (b ≡ true → IsWithin w i)
    → AllWithin w rest
    → AllWithin w (write_if b i rest)
AllWithin-write_if w true i rest h r = (h refl, r)
AllWithin-write_if w false i rest h r = r

-- point*2 and point/2 of a point.
pub double_parts : (p : ℤ) → pos 0 ≤ℤ p → p *ℤ pos 2 ≡ pos (pos_part p * 2)
unfolding ◌*ℤ◌
double_parts (pos p) h = ground arith
double_parts (negsuc p) h = absurd (omega arith)

pub half_bounds : (p : ℤ) → pos 0 ≤ℤ p → (pos 0 ≤ℤ p /ℤ pos 2) × (p /ℤ pos 2 ≤ℤ p)
unfolding ◌/ℤ◌
half_bounds (pos p) h = omega arith
half_bounds (negsuc p) h = absurd (omega arith)

module _ (w p : ℤ) (hp : pos 0 ≤ℤ p) (hw : p <ℤ w) where
  pub near-IsWithin :
      (b a : ℤ)
      → pos 0 ≤ℤ b
      → pos 0 ≤ℤ a
      → IsWithin w (max_ℤ (pos 0) (p -ℤ b), min_ℤ (p +ℤ a) (w -ℤ pos 1))
  near-IsWithin b a hb ha = omega int_laws

  -- Beside the stretch round the point, one wrap in a row of at least two, and two in a row of one.
  pub periodic-fits :
      AllWithin w (periodic_deps w p)
      × (pos (length (periodic_deps w p)) ≤ℤ (if ltb_ℤ (pos 1) w then pos 2 else pos 3))
  unfolding periodic_deps
  periodic-fits = grind int_laws

  pub tree_children-fits : AllWithin w (tree_children w p) × (length (tree_children w p) ≤ 1)
  unfolding tree_children
  tree_children-fits = rw (double_parts p hp) (grind int_laws)

  pub tree_parent-IsWithin : IsWithin w (p /ℤ pos 2, p /ℤ pos 2)
  tree_parent-IsWithin = omega (arith, half_bounds p hp)

  pub fft-fits : (d : ℤ) → pos 0 ≤ℤ d → AllWithin w (fft_deps w d p) × (length (fft_deps w d p) ≤ 3)
  unfolding fft_deps
  fft-fits d hd = grind int_laws

pub spread_loop-fits :
    (w : ℤ) (dep : ℤ → ℤ) (n k : ℕ)
    → ((i : ℕ) → IsWithin w (dep (pos i), dep (pos i)))
    → AllWithin w (spread_loop dep n k) × (length (spread_loop dep n k) ≡ n)
unfolding spread_loop
spread_loop-fits w dep zero k h = (tt, refl)
spread_loop-fits w dep (suc n) k h =
    let (rest, count) = spread_loop-fits w dep n (suc k) h in ((h k, rest), ap suc count)
