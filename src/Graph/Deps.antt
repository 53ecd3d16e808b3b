-- ===== src/Graph/Deps.antt =====
-- core/core.cc: `dependencies`, `reverse_dependencies` and the sizes of their buffers. A buffer is
-- the list of the intervals written into it, in order, and its length is the size returned.
pub mod Count
pub mod Mirror
pub mod Buffer
pub mod Once
use task_bench.Base.{
  ℕ, zero, suc, Bool, true, false, List, [], ◌∷◌, ◌&&◌, ◌||◌, if◌then◌else◌, length, ◌≡◌, ◌∙◌, ap,
  arith,
}
use task_bench.Base.Int.{
  ℤ, pos, negsuc, ◌≤ℤ◌, pos_part, ◌+ℤ◌, ◌-ℤ◌, ◌*ℤ◌, ◌/ℤ◌, ◌%ℤ◌, ltb_ℤ, leb_ℤ, eqb_ℤ, min_ℤ, max_ℤ,
}
use task_bench.Base.Outcome.{
  Outcome, ok, fault, assertion, undefined, out_of_bounds, ◌>>=◌, >>=-eq-ok,
}
use task_bench.Platform.{Platform}
use task_bench.Random.{random_uniform}
use task_bench.Graph.{
  DependenceType, trivial, no_comm, stencil_1d, stencil_1d_periodic, dom, tree, fft, all_to_all,
  nearest, spread, random_nearest, random_spread, TaskGraph, shift_one,
}

-- `std::pair<long, long>`, the inclusive interval from the first to the second.
abbrev pub Interval : Type 0
Interval = ℤ × ℤ

-- `if (b) deps[idx++] = i;` in front of what is written next.
abbrev pub write_if : Bool → Interval → List Interval → List Interval
write_if b i rest = if b then i ∷ rest else rest

-- STENCIL_1D_PERIODIC, in both directions.
unfoldable pub periodic_deps : ℤ → ℤ → List Interval
periodic_deps max_width point =
    (max_ℤ (pos 0) (point -ℤ pos 1), min_ℤ (point +ℤ pos 1) (max_width -ℤ pos 1))
    ∷ write_if (ltb_ℤ (point -ℤ pos 1) (pos 0)) (max_width -ℤ pos 1, max_width -ℤ pos 1)
        (write_if (leb_ℤ max_width (point +ℤ pos 1)) (pos 0, pos 0) [])

-- TREE, towards the children.
unfoldable pub tree_children : ℤ → ℤ → List Interval
tree_children max_width point =
    let child1 = point *ℤ pos 2 in
    let child2 = point *ℤ pos 2 +ℤ pos 1 in
    if ltb_ℤ child1 max_width && ltb_ℤ child2 max_width
    then (child1, child2) ∷ []
    else if ltb_ℤ child1 max_width
    then (child1, child1) ∷ []
    else []

-- FFT, in both directions; `distance` is `1 << dset`.
unfoldable pub fft_deps : ℤ → ℤ → ℤ → List Interval
fft_deps max_width distance point =
    let d1 = point -ℤ distance in
    let d2 = point +ℤ distance in
    write_if (leb_ℤ (pos 0) d1) (d1, d1)
      ((point, point) ∷ write_if (ltb_ℤ d2 max_width) (d2, d2) [])

-- `1 << dset` on `int`: undefined for a negative count, and from the sign bit on.
abbrev checked_shift : ℤ → Outcome ℤ
checked_shift dset =
    if leb_ℤ (pos 0) dset && ltb_ℤ dset (pos 31) then ok (shift_one dset) else fault undefined

-- NEAREST. `before` and `after` are `radix/2` and `(radix-1)/2`, the other way round in reverse.
unfoldable pub nearest_deps : ℤ → ℤ → ℤ → ℤ → List Interval
nearest_deps max_width before after point =
    (max_ℤ (pos 0) (point -ℤ before), min_ℤ (point +ℤ after) (max_width -ℤ pos 1)) ∷ []

-- The shift of the dependence `i` of a SPREAD: `i*max_width/radix + (i>0 ? dset : 0)`.
unfoldable pub spread_offset : ℤ → ℤ → ℤ → ℤ → ℤ
spread_offset max_width radix dset i =
    i *ℤ max_width /ℤ radix +ℤ (if ltb_ℤ (pos 0) i then dset else pos 0)

unfoldable pub spread_dep : ℤ → ℤ → ℤ → ℤ → ℤ → ℤ
spread_dep max_width radix dset point i =
    (point +ℤ i *ℤ max_width /ℤ radix +ℤ (if ltb_ℤ (pos 0) i then dset else pos 0)) %ℤ max_width

unfoldable pub spread_reverse_dep : ℤ → ℤ → ℤ → ℤ → ℤ → ℤ
spread_reverse_dep max_width radix dset point i =
    let dep =
      (point -ℤ i *ℤ max_width /ℤ radix -ℤ (if ltb_ℤ (pos 0) i then dset else pos 0))
      %ℤ max_width in
    if ltb_ℤ dep (pos 0) then dep +ℤ max_width else dep

-- `for (i = k; i < k + n; ++i) deps[i] = (dep, dep)`.
unfoldable pub spread_loop : (ℤ → ℤ) → ℕ → ℕ → List Interval
spread_loop dep zero k = []
spread_loop dep (suc n) k = (dep (pos k), dep (pos k)) ∷ spread_loop dep n (suc k)

-- With a round to make, a zero width is a division by zero.
abbrev checked_spread : ℤ → ℤ → (ℤ → ℤ) → Outcome (List Interval)
checked_spread max_width radix dep =
    if ltb_ℤ (pos 0) radix && eqb_ℤ max_width (pos 0)
    then fault undefined
    else ok (spread_loop dep (pos_part radix) 0)

-- The loop of RANDOM_NEAREST over the `n` points from `i` on, with its pending run.
unfoldable pub random_loop : (ℤ → Bool) → ℕ → ℤ → ℤ → List Interval
random_loop include zero i run_start = write_if (leb_ℤ (pos 0) run_start) (run_start, i -ℤ pos 1) []
random_loop include (suc n) i run_start = elim (include i) [
  | true ↦ random_loop include n (i +ℤ pos 1) (if ltb_ℤ run_start (pos 0) then i else run_start)
  | false ↦
      write_if (leb_ℤ (pos 0) run_start) (run_start, i -ℤ pos 1)
        (random_loop include n (i +ℤ pos 1) (negsuc 0))
]

-- The rounds of `for (i = first; i <= last; ++i)`.
abbrev pub rounds : ℤ → ℤ → ℕ
rounds first last = pos_part (last -ℤ first +ℤ pos 1)

unfoldable pub random_deps : ℤ → ℤ → ℤ → (ℤ → Bool) → ℤ → List Interval
random_deps max_width before after include point =
    let i = max_ℤ (pos 0) (point -ℤ before) in
    let last_i = min_ℤ (point +ℤ after) (max_width -ℤ pos 1) in
    random_loop include (rounds i last_i) i (negsuc 0)

-- The vector that is returned: its buffer is sized first, and more intervals than it holds end in
-- a write out of bounds (with the assertion behind it).
abbrev fits : ℤ → List Interval → Outcome (List Interval)
fits count deps = if leb_ℤ (pos (length deps)) count then ok deps else fault out_of_bounds

module _ {D : Type 0} ⦃fl : Platform D⦄ where
  -- Whether RANDOM_NEAREST lets the point `to` depend on the point `from`; `i` is the loop's point.
  unfoldable pub includes : TaskGraph D → ℤ → ℤ → ℤ → Bool → Bool
  includes g dset from to same =
      fl.less (random_uniform (g.graph_index ∷ g.radix ∷ dset ∷ from ∷ to ∷ []))
        g.fraction_connected
      || (ltb_ℤ (pos 0) g.radix && same)

  dependencies_of : DependenceType → TaskGraph D → ℤ → ℤ → Outcome (List Interval)
  dependencies_of trivial g dset point = ok []
  dependencies_of no_comm g dset point = ok ((point, point) ∷ [])
  dependencies_of stencil_1d g dset point =
      ok ((max_ℤ (pos 0) (point -ℤ pos 1), min_ℤ (point +ℤ pos 1) (g.max_width -ℤ pos 1)) ∷ [])
  dependencies_of stencil_1d_periodic g dset point = ok (periodic_deps g.max_width point)
  dependencies_of dom g dset point = ok ((max_ℤ (pos 0) (point -ℤ pos 1), point) ∷ [])
  dependencies_of tree g dset point = ok ((point /ℤ pos 2, point /ℤ pos 2) ∷ [])
  dependencies_of fft g dset point = do
    distance ← checked_shift dset
    ok (fft_deps g.max_width distance point)
  dependencies_of all_to_all g dset point = ok ((pos 0, g.max_width -ℤ pos 1) ∷ [])
  dependencies_of nearest g dset point =
      if ltb_ℤ (pos 0) g.radix
      then ok (nearest_deps g.max_width (g.radix /ℤ pos 2) ((g.radix -ℤ pos 1) /ℤ pos 2) point)
      else ok []
  dependencies_of spread g dset point =
      checked_spread g.max_width g.radix (spread_dep g.max_width g.radix dset point)
  dependencies_of random_nearest g dset point = ok (
      random_deps g.max_width (g.radix /ℤ pos 2) ((g.radix -ℤ pos 1) /ℤ pos 2)
        (λ i. includes g dset i point (eqb_ℤ i point)) point)
  dependencies_of random_spread g dset point = fault assertion

  reverse_dependencies_of : DependenceType → TaskGraph D → ℤ → ℤ → Outcome (List Interval)
  reverse_dependencies_of trivial g dset point = ok []
  reverse_dependencies_of no_comm g dset point = ok ((point, point) ∷ [])
  reverse_dependencies_of stencil_1d g dset point =
      ok ((max_ℤ (pos 0) (point -ℤ pos 1), min_ℤ (point +ℤ pos 1) (g.max_width -ℤ pos 1)) ∷ [])
  reverse_dependencies_of stencil_1d_periodic g dset point = ok (periodic_deps g.max_width point)
  reverse_dependencies_of dom g dset point =
      ok ((point, min_ℤ (g.max_width -ℤ pos 1) (point +ℤ pos 1)) ∷ [])
  reverse_dependencies_of tree g dset point = ok (tree_children g.max_width point)
  reverse_dependencies_of fft g dset point = do
    distance ← checked_shift dset
    ok (fft_deps g.max_width distance point)
  reverse_dependencies_of all_to_all g dset point = ok ((pos 0, g.max_width -ℤ pos 1) ∷ [])
  reverse_dependencies_of nearest g dset point =
      if ltb_ℤ (pos 0) g.radix
      then ok (nearest_deps g.max_width ((g.radix -ℤ pos 1) /ℤ pos 2) (g.radix /ℤ pos 2) point)
      else ok []
  reverse_dependencies_of spread g dset point =
      checked_spread g.max_width g.radix (spread_reverse_dep g.max_width g.radix dset point)
  reverse_dependencies_of random_nearest g dset point = ok (
      random_deps g.max_width ((g.radix -ℤ pos 1) /ℤ pos 2) (g.radix /ℤ pos 2)
        (λ i. includes g dset point i (eqb_ℤ i point)) point)
  reverse_dependencies_of random_spread g dset point = fault assertion

  -- `dependencies(dset, point, deps)`, into the caller's buffer.
  unfoldable pub fill_dependencies : TaskGraph D → ℤ → ℤ → Outcome (List Interval)
  unfolding dependencies_of
  fill_dependencies g dset point = dependencies_of g.dependence g dset point

  unfoldable pub fill_reverse_dependencies : TaskGraph D → ℤ → ℤ → Outcome (List Interval)
  unfolding reverse_dependencies_of
  fill_reverse_dependencies g dset point = reverse_dependencies_of g.dependence g dset point

  num_deps_of : DependenceType → TaskGraph D → Outcome ℤ
  num_deps_of trivial g = ok (pos 0)
  num_deps_of no_comm g = ok (pos 1)
  num_deps_of stencil_1d g = ok (pos 1)
  num_deps_of stencil_1d_periodic g = ok (if ltb_ℤ (pos 1) g.max_width then pos 2 else pos 3)
  num_deps_of dom g = ok (pos 1)
  num_deps_of tree g = ok (pos 1)
  num_deps_of fft g = ok (pos 3)
  num_deps_of all_to_all g = ok (pos 1)
  num_deps_of nearest g = ok (if ltb_ℤ (pos 0) g.radix then pos 1 else pos 0)
  num_deps_of spread g = ok g.radix
  num_deps_of random_nearest g = ok g.radix
  num_deps_of random_spread g = fault assertion

  unfoldable pub num_dependencies : TaskGraph D → Outcome ℤ
  unfolding num_deps_of
  num_dependencies g = num_deps_of g.dependence g

  num_reverse_deps_of : DependenceType → TaskGraph D → Outcome ℤ
  num_reverse_deps_of trivial g = ok (pos 0)
  num_reverse_deps_of no_comm g = ok (pos 1)
  num_reverse_deps_of stencil_1d g = ok (pos 1)
  num_reverse_deps_of stencil_1d_periodic g =
      ok (if ltb_ℤ (pos 1) g.max_width then pos 2 else pos 3)
  num_reverse_deps_of dom g = ok (pos 1)
  num_reverse_deps_of tree g = ok (pos 1)
  num_reverse_deps_of fft g = ok (pos 3)
  num_reverse_deps_of all_to_all g = ok (pos 1)
  num_reverse_deps_of nearest g = ok (if ltb_ℤ (pos 0) g.radix then pos 1 else pos 0)
  num_reverse_deps_of spread g = ok g.radix
  num_reverse_deps_of random_nearest g = ok g.radix
  num_reverse_deps_of random_spread g = fault assertion

  unfoldable pub num_reverse_dependencies : TaskGraph D → Outcome ℤ
  unfolding num_reverse_deps_of
  num_reverse_dependencies g = num_reverse_deps_of g.dependence g

  unfoldable pub dependencies : TaskGraph D → ℤ → ℤ → Outcome (List Interval)
  dependencies g dset point = do
    count ← num_dependencies g
    deps ← fill_dependencies g dset point
    fits count deps

  unfoldable pub reverse_dependencies : TaskGraph D → ℤ → ℤ → Outcome (List Interval)
  reverse_dependencies g dset point = do
    count ← num_reverse_dependencies g
    deps ← fill_reverse_dependencies g dset point
    fits count deps

-- What a call that returns has written is what it filled its buffer with, and it fits.
fits-eq-ok :
    (count : ℤ) (deps : List Interval) {out : List Interval}
    → fits count deps ≡ ok out
    → (deps ≡ out) × (pos (length deps) ≤ℤ count)
fits-eq-ok count deps e = ground arith

module _ {D : Type 0} ⦃fl : Platform D⦄ (g : TaskGraph D) (dset point : ℤ)
    {out : List Interval} where
  pub filled : dependencies g dset point ≡ ok out → fill_dependencies g dset point ≡ ok out
  unfolding dependencies
  filled e =
      let (count, _, rest) = >>=-eq-ok (num_dependencies g) _ e in
      let (deps, written, fit) = >>=-eq-ok (fill_dependencies g dset point) _ rest in
      written ∙ ap ok (fits-eq-ok count deps fit).0

  pub reverse_filled :
      reverse_dependencies g dset point ≡ ok out → fill_reverse_dependencies g dset point ≡ ok out
  unfolding reverse_dependencies
  reverse_filled e =
      let (count, _, rest) = >>=-eq-ok (num_reverse_dependencies g) _ e in
      let (deps, written, fit) = >>=-eq-ok (fill_reverse_dependencies g dset point) _ rest in
      written ∙ ap ok (fits-eq-ok count deps fit).0
