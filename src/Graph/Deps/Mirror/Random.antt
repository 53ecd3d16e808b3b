-- ===== src/Graph/Deps/Mirror/Random.antt =====
-- RANDOM_NEAREST: the loop gathers runs of included points; the runs name exactly those points.
use task_bench.Base.{
  ℕ, zero, suc, ◌≡◌, ◌∙◌, sym, refl, true, false, Bool, ◌+◌, ◌⊎◌, inl, inr, Bool-cases, arith, ◌&&◌,
  [], if◌then◌else◌,
}
use task_bench.Base.Int.{
  ℤ, pos, negsuc, min_ℤ, max_ℤ, parts_disjoint, ◌+ℤ◌, ◌-ℤ◌, ◌≤ℤ◌, ◌<ℤ◌, leb_ℤ, ltb_ℤ, int_laws,
}
use task_bench.Graph.Deps.{random_loop, random_deps, rounds, write_if}
use task_bench.Graph.Deps.Mirror.Local.{mirror-near}
use task_bench.Graph.Deps.Count.{count, within, one_if, count-write_if}

-- Whether the point lies in the stretch, and in the pending run that ends before `i`.
abbrev inside : ℤ → ℤ → ℤ → ℕ
inside q first last = one_if (true && within q (first, last))

abbrev pending : ℤ → ℤ → ℤ → ℕ
pending q run_start i = one_if (leb_ℤ (pos 0) run_start && within q (run_start, i -ℤ pos 1))

trichotomy : (a b : ℤ) → (a ≡ b) ⊎ ((a <ℤ b) ⊎ (b <ℤ a))
trichotomy a b = ground arith

pending_none : (q run_start i : ℤ) → run_start <ℤ pos 0 → pending q run_start i ≡ 0
pending_none q run_start i h = grind int_laws

pending_some :
    (q run_start i : ℤ)
    → pos 0 ≤ℤ run_start
    → pending q run_start i ≡ inside q run_start (i -ℤ pos 1)
pending_some q run_start i h = grind int_laws

-- The stretch from `i` on is the point `i` and what follows it.
inside-split :
    (q i last : ℤ) → i ≤ℤ last → inside q i last ≡ inside q i i + inside q (i +ℤ pos 1) last
inside-split q i last h = grind int_laws

-- A run that reaches `i - 1` grows by the point `i`.
inside-grow :
    (q run_start i : ℤ)
    → run_start <ℤ i
    → inside q run_start (i +ℤ pos 1 -ℤ pos 1) ≡ inside q run_start (i -ℤ pos 1) + inside q i i
inside-grow q run_start i h = grind int_laws

inside-empty : (q first last : ℤ) → last <ℤ first → inside q first last ≡ 0
inside-empty q first last h = grind int_laws

inside_self : (q i : ℤ) → inside q i (i +ℤ pos 1 -ℤ pos 1) ≡ inside q i i
inside_self q i = grind int_laws

-- The point `i` counts for `q` only where they are one.
pub chosen : (ℤ → Bool) → ℤ → ℤ → ℤ → ℕ
chosen include q first last = if include q then inside q first last else 0

chosen-point :
    (include : ℤ → Bool) (q i : ℤ) → chosen include q i i ≡ (if include i then inside q i i else 0)
unfolding chosen
chosen-point include q i = elim (trichotomy q i) [
  | inl same ↦ rw same
  | inr (inl less) ↦ rw (inside-empty_below q i less) (ground arith)
  | inr (inr more) ↦ rw (inside-empty_above q i more) (ground arith)
]
  where
    inside-empty_below : (q i : ℤ) → q <ℤ i → inside q i i ≡ 0
    inside-empty_below q i h = grind int_laws

    inside-empty_above : (q i : ℤ) → i <ℤ q → inside q i i ≡ 0
    inside-empty_above q i h = grind int_laws

chosen-split :
    (include : ℤ → Bool) (q i last : ℤ)
    → i ≤ℤ last
    → chosen include q i last
      ≡ (if include i then inside q i i else 0) + chosen include q (i +ℤ pos 1) last
unfolding chosen
chosen-split include q i last h = ground (arith, chosen-point include q i, inside-split q i last h)

ltb_ℤ→lt : (a b : ℤ) → ltb_ℤ a b ≡ true → a <ℤ b
ltb_ℤ→lt a b h = ground arith

ltb_ℤ→le : (a b : ℤ) → ltb_ℤ a b ≡ false → b ≤ℤ a
ltb_ℤ→le a b h = ground arith

pending-grow :
    (q run_start i : ℤ)
    → run_start <ℤ i
    → pos 0 ≤ℤ i
    → pending q (if ltb_ℤ run_start (pos 0) then i else run_start) (i +ℤ pos 1)
      ≡ pending q run_start i + inside q i i
pending-grow q run_start i h k = elim (Bool-cases (ltb_ℤ run_start (pos 0))) [
  | inl e ↦ rw e (
      omega (
        arith,
        pending_some q i (i +ℤ pos 1) k,
        inside_self q i,
        pending_none q run_start i (ltb_ℤ→lt run_start (pos 0) e),
      ))
  | inr e ↦ rw e (
      omega (
        arith,
        pending_some q run_start (i +ℤ pos 1) (ltb_ℤ→le run_start (pos 0) e),
        pending_some q run_start i (ltb_ℤ→le run_start (pos 0) e),
        inside-grow q run_start i h,
      ))
]

loop_in :
    (include : ℤ → Bool) (q i run_start last : ℤ)
    → pos 0 ≤ℤ i
    → run_start <ℤ i
    → i ≤ℤ last
    → include i ≡ true
    → pending q (if ltb_ℤ run_start (pos 0) then i else run_start) (i +ℤ pos 1)
        + chosen include q (i +ℤ pos 1) last
      ≡ pending q run_start i + chosen include q i last
loop_in include q i run_start last h k l here =
    let split : chosen include q i last ≡ inside q i i + chosen include q (i +ℤ pos 1) last =
      rw here at (chosen-split include q i last l) in
    omega (arith, split, pending-grow q run_start i k h)

loop_out :
    (include : ℤ → Bool) (q i last : ℤ)
    → i ≤ℤ last
    → include i ≡ false
    → pending q (negsuc 0) (i +ℤ pos 1) + chosen include q (i +ℤ pos 1) last
      ≡ chosen include q i last
loop_out include q i last l skip =
    let split : chosen include q i last ≡ 0 + chosen include q (i +ℤ pos 1) last =
      rw skip at (chosen-split include q i last l) in
    omega (arith, split, pending_none q (negsuc 0) (i +ℤ pos 1) (omega arith))

chosen-empty :
    (include : ℤ → Bool) (q first last : ℤ) → last <ℤ first → chosen include q first last ≡ 0
unfolding chosen
chosen-empty include q first last h = ground (arith, inside-empty q first last h)

pub start_below :
    (run_start i : ℤ)
    → run_start <ℤ i
    → (if ltb_ℤ run_start (pos 0) then i else run_start) <ℤ i +ℤ pos 1
start_below run_start i h = elim (Bool-cases (ltb_ℤ run_start (pos 0))) [
  | inl e ↦ rw e (omega int_laws)
  | inr e ↦ rw e (omega int_laws)
]

pub random_loop-end :
    (include : ℤ → Bool) (i run_start : ℤ)
    → random_loop include zero i run_start
      ≡ write_if (leb_ℤ (pos 0) run_start) (run_start, i -ℤ pos 1) []
unfolding random_loop
random_loop-end include i run_start = refl

pub random_loop-in :
    (include : ℤ → Bool) (n : ℕ) (i run_start : ℤ)
    → include i ≡ true
    → random_loop include (suc n) i run_start
      ≡ random_loop include n (i +ℤ pos 1) (if ltb_ℤ run_start (pos 0) then i else run_start)
unfolding random_loop
random_loop-in include n i run_start e = rw (e, random_loop)

pub random_loop-out :
    (include : ℤ → Bool) (n : ℕ) (i run_start : ℤ)
    → include i ≡ false
    → random_loop include (suc n) i run_start
      ≡ write_if
          (leb_ℤ (pos 0) run_start)
          (run_start, i -ℤ pos 1)
          (random_loop include n (i +ℤ pos 1) (negsuc 0))
unfolding random_loop
random_loop-out include n i run_start e = rw (e, random_loop)

-- What a loop over the `n` points from `i` on, with a pending run, writes.
pub count-random_loop :
    (include : ℤ → Bool) (q : ℤ) (n : ℕ) (i run_start last : ℤ)
    → pos 0 ≤ℤ i
    → run_start <ℤ i
    → last ≡ i +ℤ pos n -ℤ pos 1
    → count q (random_loop include n i run_start) ≡ pending q run_start i + chosen include q i last
unfolding random_loop
count-random_loop include q zero i run_start last h k e = omega (
  arith,
  count-write_if q (leb_ℤ (pos 0) run_start) (run_start, i -ℤ pos 1) [],
  chosen-empty include q i last (rw e (omega int_laws)),
)
count-random_loop include q (suc n) i run_start last h k e = elim (Bool-cases (include i)) [
  | inl here ↦ rw (random_loop-in include n i run_start here) (
      count-random_loop include q n (i +ℤ pos 1) _ last (omega int_laws) (start_below run_start i k)
        (e ∙ omega int_laws)
      ∙ loop_in include q i run_start last h k (rw e (omega int_laws)) here)
  | inr skip ↦ rw (random_loop-out include n i run_start skip) (
      omega (
        arith,
        count-write_if q (leb_ℤ (pos 0) run_start) (run_start, i -ℤ pos 1)
            (random_loop include n (i +ℤ pos 1) (negsuc 0)),
        count-random_loop include q n (i +ℤ pos 1) (negsuc 0) last (omega int_laws) (omega int_laws)
            (e ∙ omega int_laws),
        loop_out include q i last (rw e (omega int_laws)) skip,
      ))
]

order_cases : (a b : ℤ) → (a <ℤ b) ⊎ (b ≤ℤ a)
order_cases a b = ground arith

no_rounds : (first last : ℤ) → last <ℤ first → rounds first last ≡ 0
no_rounds first last h = omega (int_laws, parts_disjoint (last -ℤ first +ℤ pos 1))

last_round : (first last : ℤ) → first ≤ℤ last → last ≡ first +ℤ pos (rounds first last) -ℤ pos 1
last_round first last h = omega (int_laws, parts_disjoint (last -ℤ first +ℤ pos 1))

-- The loop from the first point of a stretch to its last, as `for (i = first; i <= last; ++i)`.
stretch :
    (include : ℤ → Bool) (q first last : ℤ)
    → pos 0 ≤ℤ first
    → count q (random_loop include (rounds first last) first (negsuc 0))
      ≡ chosen include q first last
stretch include q first last h = elim (order_cases last first) [
  | inl l ↦ rw (no_rounds first last l) (
      count-random_loop include q 0 first (negsuc 0) (first -ℤ pos 1) h (omega arith)
        (omega int_laws)
      ∙ omega (
        arith,
        pending_none q (negsuc 0) first (omega arith),
        chosen-empty include q first (first -ℤ pos 1) (omega int_laws),
        chosen-empty include q first last l,
      ))
  | inr g ↦
      count-random_loop include q (rounds first last) first (negsuc 0) last h (omega arith)
        (last_round first last g)
      ∙ omega (arith, pending_none q (negsuc 0) first (omega arith))
]

-- The window of a point, as a stretch: `random_deps` names its included points once each.
count-random_deps :
    (w b a p q : ℤ) (include : ℤ → Bool)
    → count q (random_deps w b a include p)
      ≡ chosen include q (max_ℤ (pos 0) (p -ℤ b)) (min_ℤ (p +ℤ a) (w -ℤ pos 1))
unfolding random_deps
count-random_deps w b a p q include =
    stretch include q (max_ℤ (pos 0) (p -ℤ b)) (min_ℤ (p +ℤ a) (w -ℤ pos 1)) (omega int_laws)

-- The two directions include by the same hash, so they mirror each other.
pub mirror-random :
    (w p q b a : ℤ) (forwards backwards : ℤ → Bool)
    → pos 0 ≤ℤ p
    → pos 0 ≤ℤ q
    → p <ℤ w
    → q <ℤ w
    → forwards q ≡ backwards p
    → count q (random_deps w b a forwards p) ≡ count p (random_deps w a b backwards q)
unfolding chosen
mirror-random w p q b a forwards backwards hp hq hpw hqw same =
    count-random_deps w b a p q forwards
    ∙ ground (arith, mirror-near w p q hp hq hpw hqw b a, same)
    ∙ sym (count-random_deps w a b q p backwards)
