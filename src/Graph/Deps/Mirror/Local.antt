-- ===== src/Graph/Deps/Mirror/Local.antt =====
-- The patterns of intervals near the point, forwards and in reverse.
use task_bench.Base.{ℕ, ◌≡◌, ◌+◌, ◌<◌, [], ◌∷◌, ◌&&◌, arith}
use task_bench.Base.Int.{
  ℤ, pos, negsuc, ltb_ℤ, leb_ℤ, ◌+ℤ◌, ◌-ℤ◌, ◌*ℤ◌, ◌/ℤ◌, min_ℤ, max_ℤ, int_laws, ◌≤ℤ◌, ◌<ℤ◌,
}
use task_bench.Graph.Deps.{periodic_deps, tree_children, fft_deps, write_if}
use task_bench.Graph.Deps.Count.{count, within, one_if, one_if-within, count-single, count-write_if}

module _ (w p q : ℤ) (hp : pos 0 ≤ℤ p) (hq : pos 0 ≤ℤ q) (hpw : p <ℤ w) (hqw : q <ℤ w) where
  pub mirror-point : count q ((p, p) ∷ []) ≡ count p ((q, q) ∷ [])
  mirror-point = count-single q p (p, p) (q, q) (λ h. omega int_laws) (λ h. omega int_laws)

  pub mirror-all : count q ((pos 0, w -ℤ pos 1) ∷ []) ≡ count p ((pos 0, w -ℤ pos 1) ∷ [])
  mirror-all =
      count-single q p (pos 0, w -ℤ pos 1) (pos 0, w -ℤ pos 1) (λ h. omega int_laws)
        (λ h. omega int_laws)

  pub mirror-near :
      (b a : ℤ)
      → count q ((max_ℤ (pos 0) (p -ℤ b), min_ℤ (p +ℤ a) (w -ℤ pos 1)) ∷ [])
        ≡ count p ((max_ℤ (pos 0) (q -ℤ a), min_ℤ (q +ℤ b) (w -ℤ pos 1)) ∷ [])
  mirror-near b a =
      count-single q p (max_ℤ (pos 0) (p -ℤ b), min_ℤ (p +ℤ a) (w -ℤ pos 1))
        (max_ℤ (pos 0) (q -ℤ a), min_ℤ (q +ℤ b) (w -ℤ pos 1)) (λ h. omega int_laws)
        (λ h. omega int_laws)

  pub mirror-dom :
      count q ((max_ℤ (pos 0) (p -ℤ pos 1), p) ∷ [])
      ≡ count p ((q, min_ℤ (w -ℤ pos 1) (q +ℤ pos 1)) ∷ [])
  mirror-dom =
      count-single q p (max_ℤ (pos 0) (p -ℤ pos 1), p) (q, min_ℤ (w -ℤ pos 1) (q +ℤ pos 1))
        (λ h. omega int_laws) (λ h. omega int_laws)

  below :
      (d : ℤ)
      → one_if (leb_ℤ (pos 0) (p -ℤ d) && within q (p -ℤ d, p -ℤ d))
        ≡ one_if (ltb_ℤ (q +ℤ d) w && within p (q +ℤ d, q +ℤ d))
  below d =
      one_if-within (leb_ℤ (pos 0) (p -ℤ d)) (ltb_ℤ (q +ℤ d) w) q p (p -ℤ d, p -ℤ d)
        (q +ℤ d, q +ℤ d) (λ h. omega int_laws) (λ h. omega int_laws)

  -- The wrap of STENCIL_1D_PERIODIC at the low end is the one at the high end, seen in reverse.
  wrap :
      one_if (ltb_ℤ (p -ℤ pos 1) (pos 0) && within q (w -ℤ pos 1, w -ℤ pos 1))
      ≡ one_if (leb_ℤ w (q +ℤ pos 1) && within p (pos 0, pos 0))
  wrap =
      one_if-within (ltb_ℤ (p -ℤ pos 1) (pos 0)) (leb_ℤ w (q +ℤ pos 1)) q p (w -ℤ pos 1, w -ℤ pos 1)
        (pos 0, pos 0) (λ h. omega int_laws) (λ h. omega int_laws)

-- The parent of `p` is `q` when `p` is one of the children of `q` that lie in the row.
tree_ℕ :
    (w p q : ℕ)
    → p < w
    → q < w
    → count (pos q) ((pos p /ℤ pos 2, pos p /ℤ pos 2) ∷ [])
      ≡ count (pos p) (tree_children (pos w) (pos q))
unfolding tree_children ◌+ℤ◌ ◌/ℤ◌ ◌*ℤ◌
tree_ℕ w p q hp hq = ground arith

pub mirror-tree :
    (w p q : ℤ)
    → pos 0 ≤ℤ p
    → pos 0 ≤ℤ q
    → p <ℤ w
    → q <ℤ w
    → count q ((p /ℤ pos 2, p /ℤ pos 2) ∷ []) ≡ count p (tree_children w q)
mirror-tree (pos w) (pos p) (pos q) h k h' k' = tree_ℕ w p q (omega arith) (omega arith)
mirror-tree (negsuc w) (pos p) (pos q) h k h' k' = absurd (omega arith)
mirror-tree w (negsuc p) q h k h' k' = absurd (omega arith)
mirror-tree w (pos p) (negsuc q) h k h' k' = absurd (omega arith)

count-fft :
    (w d p q : ℤ)
    → count q (fft_deps w d p)
      ≡ one_if (leb_ℤ (pos 0) (p -ℤ d) && within q (p -ℤ d, p -ℤ d))
        + count q ((p, p) ∷ [])
        + one_if (ltb_ℤ (p +ℤ d) w && within q (p +ℤ d, p +ℤ d))
unfolding fft_deps
count-fft w d p q = omega (
  arith,
  count-write_if q (leb_ℤ (pos 0) (p -ℤ d)) (p -ℤ d, p -ℤ d)
      ((p, p) ∷ write_if (ltb_ℤ (p +ℤ d) w) (p +ℤ d, p +ℤ d) []),
  count-write_if q (ltb_ℤ (p +ℤ d) w) (p +ℤ d, p +ℤ d) [],
)

count-periodic :
    (w p q : ℤ)
    → count q (periodic_deps w p)
      ≡ count q ((max_ℤ (pos 0) (p -ℤ pos 1), min_ℤ (p +ℤ pos 1) (w -ℤ pos 1)) ∷ [])
        + one_if (ltb_ℤ (p -ℤ pos 1) (pos 0) && within q (w -ℤ pos 1, w -ℤ pos 1))
        + one_if (leb_ℤ w (p +ℤ pos 1) && within q (pos 0, pos 0))
unfolding periodic_deps
count-periodic w p q = omega (
  arith,
  count-write_if q (ltb_ℤ (p -ℤ pos 1) (pos 0)) (w -ℤ pos 1, w -ℤ pos 1)
      (write_if (leb_ℤ w (p +ℤ pos 1)) (pos 0, pos 0) []),
  count-write_if q (leb_ℤ w (p +ℤ pos 1)) (pos 0, pos 0) [],
)

module _ (w p q : ℤ) (hp : pos 0 ≤ℤ p) (hq : pos 0 ≤ℤ q) (hpw : p <ℤ w) (hqw : q <ℤ w) where
  pub mirror-fft : (d : ℤ) → count q (fft_deps w d p) ≡ count p (fft_deps w d q)
  mirror-fft d = omega (
    arith,
    count-fft w d p q,
    count-fft w d q p,
    below w p q hp hq hpw hqw d,
    below w q p hq hp hqw hpw d,
    mirror-point w p q hp hq hpw hqw,
  )

  pub mirror-periodic : count q (periodic_deps w p) ≡ count p (periodic_deps w q)
  mirror-periodic = omega (
    arith,
    count-periodic w p q,
    count-periodic w q p,
    wrap w p q hp hq hpw hqw,
    wrap w q p hq hp hqw hpw,
    mirror-near w p q hp hq hpw hqw (pos 1) (pos 1),
  )
