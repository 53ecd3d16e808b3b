-- ===== src/Graph/Deps/Buffer.antt =====
-- core/core.cc: the buffers of `dependencies` and `reverse_dependencies`. `num_dependencies` is
-- large enough, and every interval lies in the row.
pub mod Within
pub mod Runs
use native.Mathlib.Nat.{mod-lt}
use task_bench.Base.{
  ℕ, ◌≡◌, ◌+◌, ◌-◌, ◌*◌, ◌<◌, refl, ap, ◌∙◌, Bool, true, false, ◌&&◌, List, [], ◌∷◌, arith,
  Bool-cases, inl, inr, if◌then◌else◌, length, ltb, leb,
}
use task_bench.Base.Int.{
  ℤ, pos, negsuc, pos_part, ◌+ℤ◌, ◌-ℤ◌, ◌*ℤ◌, ◌/ℤ◌, ◌≤ℤ◌, ◌<ℤ◌, ltb_ℤ, leb_ℤ, eqb_ℤ, min_ℤ, max_ℤ,
  int_laws, parts_disjoint,
}
use task_bench.Base.Outcome.{Outcome, ok, ◌>>=◌}
use task_bench.Platform.{Platform}
use task_bench.Graph.{
  TaskGraph, DependenceType, trivial, no_comm, stencil_1d, stencil_1d_periodic, dom, tree, fft,
  all_to_all, nearest, spread, random_nearest, random_spread, shift_one,
}
use task_bench.Graph.Deps.{
  Interval, dependencies_of, reverse_dependencies_of, num_deps_of, num_reverse_deps_of,
  dependencies, reverse_dependencies, num_dependencies, num_reverse_dependencies, fill_dependencies,
  fill_reverse_dependencies, includes, checked_spread, checked_shift, spread_dep,
  spread_reverse_dep, spread_loop, nearest_deps, periodic_deps, fft_deps, tree_children,
  random_deps, fits,
}
use task_bench.Graph.Deps.Mirror.{InRow}
use task_bench.Graph.Deps.Mirror.Spread.{
  forth, back, offset, spread_dep-forth, spread_reverse_dep-back, back_closed,
}
use Within.{
  IsWithin, AllWithin, near-IsWithin, periodic-fits, tree_children-fits, tree_parent-IsWithin,
  fft-fits, spread_loop-fits,
}
use Runs.{random-fits}

back-lt : (w o q : ℕ) → q < w → back w o q < w
back-lt w o q h = rw (back_closed w o q h) (ground (arith, mod-lt o {m = w} (omega arith)))

spread_dep-IsWithin :
    (w r d p : ℤ) (i : ℕ)
    → pos 0 ≤ℤ p
    → p <ℤ w
    → pos 0 ≤ℤ r
    → pos 0 ≤ℤ d
    → IsWithin w (spread_dep w r d p (pos i), spread_dep w r d p (pos i))
spread_dep-IsWithin (pos w) (pos r) (pos d) (pos p) i hp hw hr hd =
    rw (spread_dep-forth w r d p i)
      (omega (arith, mod-lt (p + offset w r d i) {m = w} (omega arith)))
spread_dep-IsWithin (negsuc w) r d (pos p) i hp hw hr hd = absurd (omega arith)
spread_dep-IsWithin w (negsuc r) d p i hp hw hr hd = absurd (omega arith)
spread_dep-IsWithin w r (negsuc d) p i hp hw hr hd = absurd (omega arith)
spread_dep-IsWithin w r d (negsuc p) i hp hw hr hd = absurd (omega arith)

spread_reverse_dep-IsWithin :
    (w r d p : ℤ) (i : ℕ)
    → pos 0 ≤ℤ p
    → p <ℤ w
    → pos 0 ≤ℤ r
    → pos 0 ≤ℤ d
    → IsWithin w (spread_reverse_dep w r d p (pos i), spread_reverse_dep w r d p (pos i))
spread_reverse_dep-IsWithin (pos w) (pos r) (pos d) (pos p) i hp hw hr hd =
    rw (spread_reverse_dep-back w r d p i (omega arith))
      (omega (arith, back-lt w (offset w r d i) p (omega arith)))
spread_reverse_dep-IsWithin (negsuc w) r d (pos p) i hp hw hr hd = absurd (omega arith)
spread_reverse_dep-IsWithin w (negsuc r) d p i hp hw hr hd = absurd (omega arith)
spread_reverse_dep-IsWithin w r (negsuc d) p i hp hw hr hd = absurd (omega arith)
spread_reverse_dep-IsWithin w r d (negsuc p) i hp hw hr hd = absurd (omega arith)

-- What the pattern needs to name its dependencies: shifts that are defined, a radix that fits.
abbrev pub Ready : {D : Type 0} → DependenceType → TaskGraph D → ℤ → Type 0
Ready fft g dset = (pos 0 ≤ℤ dset) × (dset <ℤ pos 31)
Ready spread g dset = (pos 0 ≤ℤ dset) × (pos 0 ≤ℤ g.radix)
Ready random_nearest g dset = pos 0 <ℤ g.radix
Ready random_spread g dset = ⊥
Ready _ g dset = Unit

-- A call that returns a list within its buffer and within the row.
abbrev Filled : ℤ → Outcome (List Interval) → Outcome ℤ → Type 0
Filled w call size =
    (deps : List Interval) × (n : ℤ) × (call ≡ ok deps)
    × (size ≡ ok n)
    × AllWithin w deps
    × (pos (length deps) ≤ℤ n)

fits_lem : (n : ℤ) (deps : List Interval) → pos (length deps) ≤ℤ n → fits n deps ≡ ok deps
fits_lem n deps h = ground arith

halves :
    (r : ℤ)
    → pos 0 <ℤ r
    → (pos 0 ≤ℤ r /ℤ pos 2)
      × (pos 0 ≤ℤ (r -ℤ pos 1) /ℤ pos 2)
      × (r /ℤ pos 2 +ℤ (r -ℤ pos 1) /ℤ pos 2 +ℤ pos 1 ≡ r)
unfolding ◌/ℤ◌ ◌-ℤ◌ ◌+ℤ◌
halves (pos r) h = ground arith
halves (negsuc r) h = absurd (omega arith)

shift_defined :
    (dset : ℤ) → pos 0 ≤ℤ dset → dset <ℤ pos 31 → checked_shift dset ≡ ok (shift_one dset)
shift_defined dset h k = ground arith

spread_defined :
    (w r : ℤ) (dep : ℤ → ℤ)
    → pos 0 <ℤ w
    → checked_spread w r dep ≡ ok (spread_loop dep (pos_part r) 0)
spread_defined w r dep h = ground arith

fft-Filled :
    (w dset p : ℤ)
    → (pos 0 ≤ℤ p) × (p <ℤ w)
    → (pos 0 ≤ℤ dset) × (dset <ℤ pos 31)
    → Filled w (checked_shift dset >>= λ distance. ok (fft_deps w distance p)) (ok (pos 3))
fft-Filled w dset p h r =
    let (inside, few) = fft-fits w p h.0 h.1 (shift_one dset) (omega arith) in
    (
      fft_deps w (shift_one dset) p,
      pos 3,
      ap (λ m. m >>= λ distance. ok (fft_deps w distance p)) (shift_defined dset r.0 r.1),
      refl,
      inside,
      omega arith,
    )

spread-Filled :
    (w r p : ℤ) (dep : ℤ → ℤ)
    → (pos 0 ≤ℤ p) × (p <ℤ w)
    → pos 0 ≤ℤ r
    → ((i : ℕ) → IsWithin w (dep (pos i), dep (pos i)))
    → Filled w (checked_spread w r dep) (ok r)
spread-Filled w r p dep h hr inside =
    let (all, count) = spread_loop-fits w dep (pos_part r) 0 inside in
    (
      spread_loop dep (pos_part r) 0,
      r,
      spread_defined w r dep (omega arith),
      refl,
      all,
      omega (arith, parts_disjoint r),
    )

near-Filled :
    (w r p b a : ℤ)
    → (pos 0 ≤ℤ p) × (p <ℤ w)
    → (pos 0 <ℤ r → (pos 0 ≤ℤ b) × (pos 0 ≤ℤ a))
    → Filled w
        (if ltb_ℤ (pos 0) r then ok (nearest_deps w b a p) else ok [])
        (ok (if ltb_ℤ (pos 0) r then pos 1 else pos 0))
unfolding nearest_deps
near-Filled w r p b a h k = elim (Bool-cases (ltb_ℤ (pos 0) r)) [
  | inl e ↦
      let (hb, ha) = k (ltb_pos r e) in
      (
        nearest_deps w b a p,
        pos 1,
        rw e,
        rw e,
        (near-IsWithin w p h.0 h.1 b a hb ha, tt),
        omega arith,
      )
  | inr e ↦ ([], pos 0, rw e, rw e, tt, omega arith)
]
  where
    ltb_pos : (r : ℤ) → ltb_ℤ (pos 0) r ≡ true → pos 0 <ℤ r
    ltb_pos r e = ground arith

random-Filled :
    (w r p b a : ℤ) (include : ℤ → Bool)
    → (pos 0 ≤ℤ p) × (p <ℤ w)
    → (pos 0 ≤ℤ b) × (pos 0 ≤ℤ a) × (b +ℤ a +ℤ pos 1 ≡ r)
    → Filled w (ok (random_deps w b a include p)) (ok r)
random-Filled w r p b a include h (hb, ha, e) =
    let (inside, few) = random-fits w p b a include h.0 h.1 hb ha in
    (random_deps w b a include p, r, refl, refl, inside, rw (← e) few)

swapped : (b a r : ℤ) → b +ℤ a +ℤ pos 1 ≡ r → a +ℤ b +ℤ pos 1 ≡ r
swapped b a r e = omega int_laws ∙ e

module _ {D : Type 0} ⦃fl : Platform D⦄ (g : TaskGraph D) (dset p : ℤ) (h : InRow g p) where
  Filled-deps :
      (t : DependenceType)
      → Ready t g dset
      → Filled g.max_width (dependencies_of t g dset p) (num_deps_of t g)
  unfolding dependencies_of num_deps_of
  Filled-deps trivial r = ([], pos 0, refl, refl, tt, omega arith)
  Filled-deps no_comm r = (_, _, refl, refl, omega int_laws, omega arith)
  Filled-deps stencil_1d r = (_, _, refl, refl, omega int_laws, omega arith)
  Filled-deps stencil_1d_periodic r =
      let (inside, few) = periodic-fits g.max_width p h.0 h.1 in (_, _, refl, refl, inside, few)
  Filled-deps dom r = (_, _, refl, refl, omega int_laws, omega arith)
  Filled-deps tree r =
      (_, _, refl, refl, (tree_parent-IsWithin g.max_width p h.0 h.1, tt), omega arith)
  Filled-deps fft r = fft-Filled g.max_width dset p h r
  Filled-deps all_to_all r = (_, _, refl, refl, omega int_laws, omega arith)
  Filled-deps nearest r =
      near-Filled g.max_width g.radix p _ _ h (λ k. ((halves g.radix k).0, (halves g.radix k).1))
  Filled-deps spread r =
      spread-Filled g.max_width g.radix p _ h r.1
        (λ i. spread_dep-IsWithin g.max_width g.radix dset p i h.0 h.1 r.1 r.0)
  Filled-deps random_nearest r = random-Filled g.max_width g.radix p _ _ _ h (halves g.radix r)
  Filled-deps random_spread r = absurd r

  Filled-rdeps :
      (t : DependenceType)
      → Ready t g dset
      → Filled g.max_width (reverse_dependencies_of t g dset p) (num_reverse_deps_of t g)
  unfolding reverse_dependencies_of num_reverse_deps_of
  Filled-rdeps trivial r = ([], pos 0, refl, refl, tt, omega arith)
  Filled-rdeps no_comm r = (_, _, refl, refl, omega int_laws, omega arith)
  Filled-rdeps stencil_1d r = (_, _, refl, refl, omega int_laws, omega arith)
  Filled-rdeps stencil_1d_periodic r =
      let (inside, few) = periodic-fits g.max_width p h.0 h.1 in (_, _, refl, refl, inside, few)
  Filled-rdeps dom r = (_, _, refl, refl, omega int_laws, omega arith)
  Filled-rdeps tree r =
      let (inside, few) = tree_children-fits g.max_width p h.0 h.1 in
      (_, _, refl, refl, inside, omega arith)
  Filled-rdeps fft r = fft-Filled g.max_width dset p h r
  Filled-rdeps all_to_all r = (_, _, refl, refl, omega int_laws, omega arith)
  Filled-rdeps nearest r =
      near-Filled g.max_width g.radix p _ _ h (λ k. ((halves g.radix k).1, (halves g.radix k).0))
  Filled-rdeps spread r =
      spread-Filled g.max_width g.radix p _ h r.1
        (λ i. spread_reverse_dep-IsWithin g.max_width g.radix dset p i h.0 h.1 r.1 r.0)
  Filled-rdeps random_nearest r =
      let (hb, ha, e) = halves g.radix r in
      random-Filled g.max_width g.radix p _ _ _ h (ha, hb, swapped _ _ g.radix e)
  Filled-rdeps random_spread r = absurd r

  -- For a point of the row and a pattern that is ready, `dependencies` returns: what it writes fits
  -- the buffer that `num_dependencies` sizes, and each interval is not empty and lies in the row.
  pub dependencies_fit :
      Ready g.dependence g dset
      → (deps : List Interval) × (n : ℤ) × (dependencies g dset p ≡ ok deps)
        × (num_dependencies g ≡ ok n)
        × (pos (length deps) ≤ℤ n)
        × AllWithin g.max_width deps
  unfolding dependencies fill_dependencies num_dependencies
  dependencies_fit r =
      let (deps, n, call, size, inside, few) = Filled-deps g.dependence r in
      (deps, n, rw (size, call) (fits_lem n deps few), size, few, inside)

  -- For a point of the row and a pattern that is ready, `reverse_dependencies` returns: what it
  -- writes fits the buffer that `num_reverse_dependencies` sizes, and each interval is not empty and
  -- lies in the row.
  pub reverse_dependencies_fit :
      Ready g.dependence g dset
      → (deps : List Interval) × (n : ℤ) × (reverse_dependencies g dset p ≡ ok deps)
        × (num_reverse_dependencies g ≡ ok n)
        × (pos (length deps) ≤ℤ n)
        × AllWithin g.max_width deps
  unfolding reverse_dependencies fill_reverse_dependencies num_reverse_dependencies
  reverse_dependencies_fit r =
      let (deps, n, call, size, inside, few) = Filled-rdeps g.dependence r in
      (deps, n, rw (size, call) (fits_lem n deps few), size, few, inside)
