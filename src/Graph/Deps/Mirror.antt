-- ===== src/Graph/Deps/Mirror.antt =====
-- core/core.cc: `reverse_dependencies` against `dependencies`, pattern by pattern.
pub mod Local
pub mod Spread
pub mod Random
use task_bench.Base.{
  ℕ, ◌≡◌, ◌∙◌, sym, ap, ◌+◌, refl, Bool, true, false, ◌&&◌, List, [], ◌∷◌, arith, Bool-cases, inl,
  inr, if◌then◌else◌, subst,
}
use task_bench.Base.Int.{
  ℤ, pos, negsuc, pos_part, ◌+ℤ◌, ◌-ℤ◌, ◌/ℤ◌, ◌≤ℤ◌, ◌<ℤ◌, ltb_ℤ, leb_ℤ, eqb_ℤ,
}
use task_bench.Base.Outcome.{Outcome, ok, Fault, fault, undefined, ok-injective, >>=-eq-ok}
use task_bench.Platform.{Platform}
use task_bench.Graph.{
  TaskGraph, DependenceType, trivial, no_comm, stencil_1d, stencil_1d_periodic, dom, tree, fft,
  all_to_all, nearest, spread, random_nearest, random_spread,
}
use task_bench.Graph.Deps.{
  Interval, dependencies_of, reverse_dependencies_of, fill_dependencies, fill_reverse_dependencies,
  dependencies, reverse_dependencies, includes, checked_spread, checked_shift, spread_dep,
  spread_reverse_dep, spread_loop, nearest_deps, filled, reverse_filled,
}
use task_bench.Graph.Deps.Count.{count}
use Local.{
  mirror-point, mirror-near, mirror-periodic, mirror-dom, mirror-tree, mirror-all, mirror-fft,
}
use Spread.{mirror-spread}
use Random.{mirror-random}

-- The point lies in the widest row of the graph.
abbrev pub InRow : {D : Type 0} → TaskGraph D → ℤ → Type 0
InRow g p = (pos 0 ≤ℤ p) × (p <ℤ g.max_width)

-- Two results that are known mirror each other if their lists do.
known :
    {x y deps rdeps : List Interval} (p q : ℤ)
    → ok x ≡ ok deps
    → ok y ≡ ok rdeps
    → count q x ≡ count p y
    → count q deps ≡ count p rdeps
known p q e f h = rw (← ok-injective e, ← ok-injective f) h

eqb_comm : (a b : ℤ) → eqb_ℤ a b ≡ eqb_ℤ b a
eqb_comm a b = ground arith

near_row :
    (w p q b a : ℤ)
    → (pos 0 ≤ℤ p) × (p <ℤ w)
    → (pos 0 ≤ℤ q) × (q <ℤ w)
    → count q (nearest_deps w b a p) ≡ count p (nearest_deps w a b q)
unfolding nearest_deps
near_row w p q b a hp hq = mirror-near w p q hp.0 hq.0 hp.1 hq.1 b a

spread_row :
    (w r d p q : ℤ) (n : ℕ)
    → pos 0 ≤ℤ p
    → pos 0 ≤ℤ q
    → p <ℤ w
    → q <ℤ w
    → pos 0 ≤ℤ r
    → pos 0 ≤ℤ d
    → count q (spread_loop (spread_dep w r d p) n 0)
      ≡ count p (spread_loop (spread_reverse_dep w r d q) n 0)
spread_row (pos w) (pos r) (pos d) (pos p) (pos q) n hp hq hpw hqw hr hd =
    mirror-spread w r d p q n (omega arith) (omega arith)
spread_row (negsuc w) r d (pos p) q n hp hq hpw hqw hr hd = absurd (omega arith)
spread_row w (negsuc r) d p q n hp hq hpw hqw hr hd = absurd (omega arith)
spread_row w r (negsuc d) p q n hp hq hpw hqw hr hd = absurd (omega arith)
spread_row w r d (negsuc p) q n hp hq hpw hqw hr hd = absurd (omega arith)
spread_row w r d p (negsuc q) n hp hq hpw hqw hr hd = absurd (omega arith)

-- What a guarded result says where it is `ok`.
if_ok :
    {A : Type 0} (b : Bool) (e : Fault) (x : A) {y : A}
    → (if b then fault e else ok x) ≡ ok y
    → ok x ≡ ok y
if_ok true e x h = cc
if_ok false e x h = h

module _ {D : Type 0} ⦃fl : Platform D⦄ (g : TaskGraph D) (dset p q : ℤ) (hp : InRow g p)
    (hq : InRow g q) (hd : pos 0 ≤ℤ dset) (hr : pos 0 ≤ℤ g.radix) where
  abbrev Mirrors : DependenceType → Type 0
  Mirrors t =
      (deps rdeps : List Interval)
      → dependencies_of t g dset p ≡ ok deps
      → reverse_dependencies_of t g dset q ≡ ok rdeps
      → count q deps ≡ count p rdeps

  Mirrors-fft : Mirrors fft
  unfolding dependencies_of reverse_dependencies_of
  Mirrors-fft deps rdeps e f =
      let (d, shift, e') = >>=-eq-ok (checked_shift dset) _ e in
      let (d', shift', f') = >>=-eq-ok (checked_shift dset) _ f in
      let same : d' ≡ d = ok-injective (sym shift' ∙ shift) in
      known p q e' (rw same at f') (mirror-fft g.max_width p q hp.0 hq.0 hp.1 hq.1 d)

  Mirrors-nearest : Mirrors nearest
  unfolding dependencies_of reverse_dependencies_of
  Mirrors-nearest deps rdeps e f = elim (Bool-cases (ltb_ℤ (pos 0) g.radix)) [
    | inl some_radix ↦
        known p q (rw some_radix at e) (rw some_radix at f)
          (near_row g.max_width p q (g.radix /ℤ pos 2) ((g.radix -ℤ pos 1) /ℤ pos 2) hp hq)
    | inr no_radix ↦ known p q (rw no_radix at e) (rw no_radix at f) refl
  ]

  Mirrors-spread : Mirrors spread
  unfolding dependencies_of reverse_dependencies_of
  Mirrors-spread deps rdeps e f =
      known p q (if_ok _ undefined _ e) (if_ok _ undefined _ f)
        (spread_row g.max_width g.radix dset p q (pos_part g.radix) hp.0 hq.0 hp.1 hq.1 hr hd)

  Mirrors-random : Mirrors random_nearest
  unfolding dependencies_of reverse_dependencies_of
  Mirrors-random deps rdeps e f = known p q e f (
      mirror-random g.max_width p q (g.radix /ℤ pos 2) ((g.radix -ℤ pos 1) /ℤ pos 2) _ _ hp.0 hq.0
        hp.1 hq.1 (rw (eqb_comm q p)))

  Mirrors-all : (t : DependenceType) → Mirrors t
  unfolding dependencies_of reverse_dependencies_of
  Mirrors-all trivial deps rdeps e f = known p q e f refl
  Mirrors-all no_comm deps rdeps e f =
      known p q e f (mirror-point g.max_width p q hp.0 hq.0 hp.1 hq.1)
  Mirrors-all stencil_1d deps rdeps e f =
      known p q e f (mirror-near g.max_width p q hp.0 hq.0 hp.1 hq.1 (pos 1) (pos 1))
  Mirrors-all stencil_1d_periodic deps rdeps e f =
      known p q e f (mirror-periodic g.max_width p q hp.0 hq.0 hp.1 hq.1)
  Mirrors-all dom deps rdeps e f = known p q e f (mirror-dom g.max_width p q hp.0 hq.0 hp.1 hq.1)
  Mirrors-all tree deps rdeps e f = known p q e f (mirror-tree g.max_width p q hp.0 hq.0 hp.1 hq.1)
  Mirrors-all fft deps rdeps e f = Mirrors-fft deps rdeps e f
  Mirrors-all all_to_all deps rdeps e f =
      known p q e f (mirror-all g.max_width p q hp.0 hq.0 hp.1 hq.1)
  Mirrors-all nearest deps rdeps e f = Mirrors-nearest deps rdeps e f
  Mirrors-all spread deps rdeps e f = Mirrors-spread deps rdeps e f
  Mirrors-all random_nearest deps rdeps e f = Mirrors-random deps rdeps e f
  Mirrors-all random_spread deps rdeps e f = cc

  -- Reverse dependencies mirror dependencies: for two points of the row, a dependence set that is
  -- not negative and a radix that is not negative, `q` is named among the dependencies of `p`
  -- exactly as often as `p` among the reverse dependencies of `q`, where both calls return.
  pub mirror :
      {deps rdeps : List Interval}
      → dependencies g dset p ≡ ok deps
      → reverse_dependencies g dset q ≡ ok rdeps
      → count q deps ≡ count p rdeps
  unfolding fill_dependencies fill_reverse_dependencies
  mirror e f = Mirrors-all g.dependence _ _ (filled g dset p e) (reverse_filled g dset q f)
