-- ===== src/Graph/Deps/Buffer/Runs.antt =====
-- The runs of RANDOM_NEAREST.
use task_bench.Base.{
  ℕ, zero, suc, ◌≡◌, ◌+◌, ◌/◌, ◌≤◌, List, [], Bool, true, false, length, arith, if◌then◌else◌,
  Bool-cases, inl, inr,
}
use task_bench.Base.Int.{
  ℤ, pos, negsuc, ◌+ℤ◌, ◌-ℤ◌, ◌≤ℤ◌, ◌<ℤ◌, ltb_ℤ, leb_ℤ, min_ℤ, max_ℤ, int_laws, parts_disjoint,
}
use task_bench.Graph.Deps.{random_loop, random_deps, rounds, write_if}
use task_bench.Graph.Deps.Buffer.Within.{AllWithin, AllWithin-write_if}
use task_bench.Graph.Deps.Mirror.Random.{
  random_loop-end, random_loop-in, random_loop-out, start_below,
}

length-write_if :
    (b : Bool) (i : ℤ × ℤ) (rest : List (ℤ × ℤ))
    → length (write_if b i rest) ≡ (if b then 1 else 0) + length rest
length-write_if true i rest = omega arith
length-write_if false i rest = omega arith

started :
    (i run_start : ℤ)
    → pos 0 ≤ℤ i
    → leb_ℤ (pos 0) (if ltb_ℤ run_start (pos 0) then i else run_start) ≡ true
started i run_start h = grind int_laws

-- Two runs have a point between them that is left out.
length-random_loop :
    (include : ℤ → Bool) (n : ℕ) (i run_start : ℤ)
    → pos 0 ≤ℤ i
    → length (random_loop include n i run_start)
      ≤ (n + (if leb_ℤ (pos 0) run_start then 2 else 1)) / 2
length-random_loop include zero i run_start h =
    rw (random_loop-end include i run_start)
      (ground (arith, length-write_if (leb_ℤ (pos 0) run_start) (run_start, i -ℤ pos 1) []))
length-random_loop include (suc n) i run_start h =
    let next : pos 0 ≤ℤ i +ℤ pos 1 = omega int_laws in
    elim (Bool-cases (include i)) [
      | inl here ↦
          let rest =
            length-random_loop include n (i +ℤ pos 1)
              (if ltb_ℤ run_start (pos 0) then i else run_start) next in
          let rest' = rw (started i run_start h) at rest in
          rw (random_loop-in include n i run_start here) (ground arith)
      | inr skip ↦ rw (random_loop-out include n i run_start skip) (
          ground (
            arith,
            length-random_loop include n (i +ℤ pos 1) (negsuc 0) next,
            length-write_if (leb_ℤ (pos 0) run_start) (run_start, i -ℤ pos 1)
                (random_loop include n (i +ℤ pos 1) (negsuc 0)),
          ))
    ]

AllWithin-random_loop :
    (w : ℤ) (include : ℤ → Bool) (n : ℕ) (i run_start : ℤ)
    → pos 0 ≤ℤ i
    → run_start <ℤ i
    → i +ℤ pos n ≤ℤ w
    → AllWithin w (random_loop include n i run_start)
AllWithin-random_loop w include zero i run_start h k l = rw (random_loop-end include i run_start) (
    AllWithin-write_if w (leb_ℤ (pos 0) run_start) (run_start, i -ℤ pos 1) [] (λ e. omega int_laws)
      tt)
AllWithin-random_loop w include (suc n) i run_start h k l = elim (Bool-cases (include i)) [
  | inl here ↦ rw (random_loop-in include n i run_start here) (
      AllWithin-random_loop w include n (i +ℤ pos 1) _ (omega int_laws) (start_below run_start i k)
        (omega int_laws))
  | inr skip ↦ rw (random_loop-out include n i run_start skip) (
      AllWithin-write_if w (leb_ℤ (pos 0) run_start) (run_start, i -ℤ pos 1) _ (λ e. omega int_laws)
        (AllWithin-random_loop w include n (i +ℤ pos 1) (negsuc 0) (omega int_laws) (omega int_laws)
          (omega int_laws)))
]

rounds_fit :
    (w p b a : ℤ)
    → pos 0 ≤ℤ p
    → p <ℤ w
    → pos 0 ≤ℤ b
    → pos 0 ≤ℤ a
    → let first = max_ℤ (pos 0) (p -ℤ b) in
      let last = min_ℤ (p +ℤ a) (w -ℤ pos 1) in
      (first +ℤ pos (rounds first last) ≤ℤ w) × (pos (rounds first last) ≤ℤ b +ℤ a +ℤ pos 1)
rounds_fit w p b a hp hw hb ha =
    let first = max_ℤ (pos 0) (p -ℤ b) in
    let last = min_ℤ (p +ℤ a) (w -ℤ pos 1) in
    omega (int_laws, parts_disjoint (last -ℤ first +ℤ pos 1))

fewer :
    (b a : ℤ) (n k : ℕ)
    → pos 0 ≤ℤ b
    → pos 0 ≤ℤ a
    → pos n ≤ℤ b +ℤ a +ℤ pos 1
    → k ≤ (n + 1) / 2
    → pos k ≤ℤ b +ℤ a +ℤ pos 1
fewer b a n k hb ha h s = omega int_laws

-- The window of `b + a + 1` points gives at most as many intervals, all inside the row.
pub random-fits :
    (w p b a : ℤ) (include : ℤ → Bool)
    → pos 0 ≤ℤ p
    → p <ℤ w
    → pos 0 ≤ℤ b
    → pos 0 ≤ℤ a
    → AllWithin w (random_deps w b a include p)
      × (pos (length (random_deps w b a include p)) ≤ℤ b +ℤ a +ℤ pos 1)
unfolding random_deps
random-fits w p b a include hp hw hb ha =
    let first = max_ℤ (pos 0) (p -ℤ b) in
    let last = min_ℤ (p +ℤ a) (w -ℤ pos 1) in
    let start : pos 0 ≤ℤ first = omega int_laws in
    let (inside, few) = rounds_fit w p b a hp hw hb ha in
    let short = length-random_loop include (rounds first last) first (negsuc 0) start in
    (
      AllWithin-random_loop w include (rounds first last) first (negsuc 0) start (omega int_laws)
          inside,
      fewer b a (rounds first last) _ hb ha few short,
    )
