-- ===== src/Graph/Deps/Once.antt =====
-- core/core.cc: the patterns that name no point twice among the dependencies of a point.
use task_bench.Base.{
  ◌≡◌, refl, subst, ◌+◌, ◌≤◌, Bool, true, false, Bool-cases, inl, inr, List, [], ◌∷◌, ◌&&◌, arith,
  if◌then◌else◌,
}
use task_bench.Base.Int.{ℤ, pos, pos_part, ◌+ℤ◌, ◌-ℤ◌, ◌<ℤ◌, ltb_ℤ, leb_ℤ, int_laws}
use task_bench.Base.Outcome.{ok, fault, undefined, >>=-eq-ok, ok-injective}
use task_bench.Platform.{Platform}
use task_bench.Graph.{
  TaskGraph, DependenceType, trivial, no_comm, stencil_1d, stencil_1d_periodic, dom, tree, fft,
  all_to_all, nearest, spread, random_nearest, random_spread, shift_one,
}
use task_bench.Graph.Shape.{pow_pos}
use task_bench.Graph.Deps.{
  Interval, write_if, fft_deps, dependencies_of, fill_dependencies, dependencies, filled,
  checked_shift, nearest_deps,
}
use task_bench.Graph.Deps.Count.{count, within, one_if, count-write_if}

one_at_most : (x : Bool) → one_if x + 0 ≤ 1
one_at_most true = omega arith
one_at_most false = omega arith

-- Of three tests no two of which hold together, one holds at most.
three_at_most :
    (x y z : Bool)
    → (x ≡ true → y ≡ true → ⊥)
    → (x ≡ true → z ≡ true → ⊥)
    → (y ≡ true → z ≡ true → ⊥)
    → one_if x + (one_if y + (one_if z + 0)) ≤ 1
three_at_most true true z f g h = absurd (f refl refl)
three_at_most true false true f g h = absurd (g refl refl)
three_at_most true false false f g h = omega arith
three_at_most false true true f g h = absurd (h refl refl)
three_at_most false true false f g h = omega arith
three_at_most false false true f g h = omega arith
three_at_most false false false f g h = omega arith

point_apart :
    (x y : Bool) (a c b : ℤ)
    → a <ℤ c
    → (x && within b (a, a)) ≡ true
    → (y && within b (c, c)) ≡ true
    → ⊥
point_apart x y a c b h e f = grind int_laws

fft_once : (w d p b : ℤ) → pos 0 <ℤ d → count b (fft_deps w d p) ≤ 1
unfolding fft_deps
fft_once w d p b h =
    let x = leb_ℤ (pos 0) (p -ℤ d) && within b (p -ℤ d, p -ℤ d) in
    let z = ltb_ℤ (p +ℤ d) w && within b (p +ℤ d, p +ℤ d) in
    let last = count-write_if b (ltb_ℤ (p +ℤ d) w) (p +ℤ d, p +ℤ d) [] in
    let first =
      count-write_if b (leb_ℤ (pos 0) (p -ℤ d)) (p -ℤ d, p -ℤ d)
        ((p, p) ∷ write_if (ltb_ℤ (p +ℤ d) w) (p +ℤ d, p +ℤ d) []) in
    let three =
      three_at_most x (true && within b (p, p)) z (point_apart _ true (p -ℤ d) p b (omega int_laws))
        (point_apart _ _ (p -ℤ d) (p +ℤ d) b (omega int_laws))
        (point_apart true _ p (p +ℤ d) b (omega int_laws)) in
    omega (arith, first, last, three)

-- The patterns that name no point twice at any width; the FFT with a shift that is defined.
abbrev pub Distinct : DependenceType → Type 0
Distinct stencil_1d_periodic = ⊥
Distinct spread = ⊥
Distinct random_nearest = ⊥
Distinct random_spread = ⊥
Distinct _ = Unit

shift_above : (n : ℤ) → pos 0 <ℤ shift_one n
shift_above n = let some_power = pow_pos (pos_part n) in omega arith

module _ {D : Type 0} ⦃fl : Platform D⦄ (g : TaskGraph D) (dset p b : ℤ) where
  abbrev Single : DependenceType → Type 0
  Single t =
      Distinct t → (deps : List Interval) → dependencies_of t g dset p ≡ ok deps → count b deps ≤ 1

  one_interval : (x : Interval) (deps : List Interval) → ok (x ∷ []) ≡ ok deps → count b deps ≤ 1
  one_interval x deps e = subst (λ ds. count b ds ≤ 1) (ok-injective e) (one_at_most (within b x))

  no_interval : (deps : List Interval) → ok [] ≡ ok deps → count b deps ≤ 1
  no_interval deps e = subst (λ ds. count b ds ≤ 1) (ok-injective e) (omega arith)

  Single-fft : Single fft
  unfolding dependencies_of
  Single-fft d deps e =
      let (distance, shift, rest) = >>=-eq-ok (checked_shift dset) _ e in
      subst (λ ds. count b ds ≤ 1) (ok-injective rest)
        (fft_once g.max_width distance p b
          (above (leb_ℤ (pos 0) dset && ltb_ℤ dset (pos 31)) distance shift))
    where
      above :
          (x : Bool) (d : ℤ)
          → (if x then ok (shift_one dset) else fault undefined) ≡ ok d
          → pos 0 <ℤ d
      above true d e = subst (λ k. pos 0 <ℤ k) (ok-injective e) (shift_above dset)
      above false d e = cc

  Single-nearest : Single nearest
  unfolding dependencies_of nearest_deps
  Single-nearest d deps e = elim (Bool-cases (ltb_ℤ (pos 0) g.radix)) [
    | inl some_radix ↦ one_interval _ deps (rw some_radix at e)
    | inr no_radix ↦ no_interval deps (rw no_radix at e)
  ]

  Single-all : (t : DependenceType) → Single t
  unfolding dependencies_of
  Single-all trivial d deps e = no_interval deps e
  Single-all no_comm d deps e = one_interval _ deps e
  Single-all stencil_1d d deps e = one_interval _ deps e
  Single-all stencil_1d_periodic d deps e = absurd d
  Single-all dom d deps e = one_interval _ deps e
  Single-all tree d deps e = one_interval _ deps e
  Single-all fft d deps e = Single-fft d deps e
  Single-all all_to_all d deps e = one_interval _ deps e
  Single-all nearest d deps e = Single-nearest d deps e
  Single-all spread d deps e = absurd d
  Single-all random_nearest d deps e = absurd d
  Single-all random_spread d deps e = absurd d

  -- In the patterns that are distinct at any width, no point is named twice where `dependencies`
  -- returns.
  pub count-le-one :
      Distinct g.dependence
      → {deps : List Interval} → dependencies g dset p ≡ ok deps
      → count b deps ≤ 1
  unfolding fill_dependencies
  count-le-one d e = Single-all g.dependence d _ (filled g dset p e)
