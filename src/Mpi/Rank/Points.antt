-- ===== src/Mpi/Rank/Points.antt =====
-- The points that a list of intervals names, and how often.
use task_bench.Base.{
  ℕ, zero, suc, ◌≡◌, refl, ap, ◌∙◌, ◌+◌, List, [], ◌∷◌, ◌++◌, ◌&&◌, arith, length, length-append,
}
use task_bench.Base.Int.{
  ℤ, pos, pos_part, neg_part, ◌+ℤ◌, ◌-ℤ◌, ◌≤ℤ◌, ◌<ℤ◌, eqb_ℤ, leb_ℤ, ltb_ℤ, int_laws, parts_disjoint,
  eq_of_parts,
}
use task_bench.Graph.Deps.{Interval, rounds}
use task_bench.Graph.Deps.Count.{one_if, within, count}
use task_bench.Graph.Deps.Buffer.Within.{AllWithin}
use task_bench.Mpi.Rank.{points_from, named_points, sum_sizes}
use task_bench.Mpi.Rank.Keys.{occurrences}

pub occurrences-append :
    (q : ℤ) (a b : List ℤ) → occurrences q (a ++ b) ≡ occurrences q a + occurrences q b
occurrences-append q [] b = omega arith
occurrences-append q (p ∷ a) b = omega (arith, occurrences-append q a b)

one_step :
    (q i : ℤ) (n : ℕ)
    → one_if (eqb_ℤ i q) + one_if (leb_ℤ (i +ℤ pos 1) q && ltb_ℤ q (i +ℤ pos 1 +ℤ pos n))
      ≡ one_if (leb_ℤ i q && ltb_ℤ q (i +ℤ pos (suc n)))
one_step q i n = grind int_laws

no_step : (q i : ℤ) → 0 ≡ one_if (leb_ℤ i q && ltb_ℤ q (i +ℤ pos 0))
no_step q i = grind int_laws

occurrences-points_from :
    (q : ℤ) (n : ℕ) (i : ℤ)
    → occurrences q (points_from n i) ≡ one_if (leb_ℤ i q && ltb_ℤ q (i +ℤ pos n))
unfolding points_from
occurrences-points_from q zero i = no_step q i
occurrences-points_from q (suc n) i =
    ap (λ x. one_if (eqb_ℤ i q) + x) (occurrences-points_from q n (i +ℤ pos 1)) ∙ one_step q i n

all_rounds :
    (q first last : ℤ)
    → one_if (leb_ℤ first q && ltb_ℤ q (first +ℤ pos (rounds first last)))
      ≡ one_if (within q (first, last))
all_rounds q first last = grind (int_laws, parts_disjoint (last -ℤ first +ℤ pos 1))

-- The loops over a list of intervals come by a point as often as the list names it.
pub occurrences-named_points :
    (q : ℤ) (deps : List Interval) → occurrences q (named_points deps) ≡ count q deps
occurrences-named_points q [] = refl
occurrences-named_points q (span ∷ deps) =
    occurrences-append q (points_from (rounds span.0 span.1) span.0) (named_points deps)
    ∙ omega (
      arith,
      occurrences-points_from q (rounds span.0 span.1) span.0,
      all_rounds q span.0 span.1,
      occurrences-named_points q deps,
    )

-- Points of the row.
abbrev pub AllPoints : ℤ → List ℤ → Type 0
AllPoints w [] = Unit
AllPoints w (p ∷ rest) = ((pos 0 ≤ℤ p) × (p <ℤ w)) × AllPoints w rest

AllPoints-append : (w : ℤ) (a b : List ℤ) → AllPoints w a → AllPoints w b → AllPoints w (a ++ b)
AllPoints-append w [] b h k = k
AllPoints-append w (p ∷ a) b h k = (h.0, AllPoints-append w a b h.1 k)

AllPoints-points_from :
    (w : ℤ) (n : ℕ) (i : ℤ) → pos 0 ≤ℤ i → i +ℤ pos n ≤ℤ w → AllPoints w (points_from n i)
unfolding points_from
AllPoints-points_from w zero i h k = tt
AllPoints-points_from w (suc n) i h k =
    ((h, omega int_laws), AllPoints-points_from w n (i +ℤ pos 1) (omega int_laws) (omega int_laws))

pub AllPoints-named_points :
    (w : ℤ) (deps : List Interval) → AllWithin w deps → AllPoints w (named_points deps)
AllPoints-named_points w [] h = tt
AllPoints-named_points w (span ∷ deps) ((h, k, l), rest) =
    AllPoints-append w (points_from (rounds span.0 span.1) span.0) (named_points deps)
      (AllPoints-points_from w (rounds span.0 span.1) span.0 h
        (omega (int_laws, parts_disjoint (span.1 -ℤ span.0 +ℤ pos 1))))
      (AllPoints-named_points w deps rest)

length-points_from : (n : ℕ) (i : ℤ) → length (points_from n i) ≡ n
unfolding points_from
length-points_from zero i = refl
length-points_from (suc n) i = ap suc (length-points_from n (i +ℤ pos 1))

-- The sizes of intervals that are not empty are the number of the points.
pub length-named_points :
    (w : ℤ) (deps : List Interval)
    → AllWithin w deps
    → sum_sizes deps ≡ pos (length (named_points deps))
length-named_points w [] h = refl
length-named_points w (span ∷ deps) ((h, k, l), rest) =
    let n = rounds span.0 span.1 in
    let size = length-append (points_from n span.0) (named_points deps) in
    let here = length-points_from n span.0 in
    let more = length-named_points w deps rest in
    eq_of_parts _ _ (
      omega (
        int_laws,
        size,
        here,
        ap pos_part more,
        ap neg_part more,
        parts_disjoint (span.1 -ℤ span.0 +ℤ pos 1),
      ))
