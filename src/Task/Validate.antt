-- ===== src/Task/Validate.antt =====
-- `execute_point`: the inputs that it accepts are those that the tasks before it wrote.
use task_bench.Base.{
  ℕ, zero, suc, ◌≡◌, refl, ap, ◌∙◌, ◌+◌, ◌/◌, ◌≤◌, ◌<◌, Bool, true, false, some, List, [], ◌∷◌,
  ◌++◌, if◌then◌else◌, get_elem?, replicate, length, length-append, arith, lt→ltb, le→leb, ◌==◌,
}
use task_bench.Base.Int.{ℤ, pos, pos_part, ◌+ℤ◌, ◌-ℤ◌}
use task_bench.Base.Outcome.{ok, ◌>>=◌}
use task_bench.Base.Loops.{for_range, for_below, for_each}
use task_bench.Platform.{Platform}
use task_bench.Graph.{TaskGraph}
use task_bench.Graph.Deps.{Interval}
use task_bench.Task.{Input, check_pairs, check_input, in_last_row, check_dep, written}

get_elem?-replicate : {A : Type 0} (m i : ℕ) (a : A) → i < m → get_elem? (replicate m a) i ≡ some a
get_elem?-replicate zero i a h = absurd (omega arith)
get_elem?-replicate (suc m) zero a h = refl
get_elem?-replicate (suc m) (suc i) a h = get_elem?-replicate m i a (omega arith)

same_test : (n : ℕ) → (n == n) ≡ true
same_test n = ground arith

check_pairs-written :
    (n i m : ℕ) (timestep dep : ℤ)
    → i + n ≤ m
    → check_pairs n i (replicate m (timestep -ℤ pos 1, dep)) timestep dep ≡ ok tt
unfolding check_pairs
check_pairs-written zero i m timestep dep h = refl
check_pairs-written (suc n) i m timestep dep h =
    rw
      (
        get_elem?-replicate {A = Interval} m i (timestep -ℤ pos 1, dep) (omega arith),
        same_test _,
        same_test _,
      )
      (check_pairs-written n (suc i) m timestep dep (omega arith))

-- What a task of the timestep before leaves for its dependents, in a buffer of this size.
abbrev pub output_of : ℤ → (ℤ → ℕ) → ℤ → Input
output_of timestep size dep = record {
  bytes = size dep;
  pairs = written (timestep -ℤ pos 1) dep (size dep);
}

-- The inputs from `idx` on are `rest`.
abbrev From : List Input → ℕ → List Input → Type 0
From inputs idx rest =
    ((k : ℕ) → get_elem? inputs (idx + k) ≡ get_elem? rest k) × (length inputs ≡ idx + length rest)

From-head :
    (inputs : List Input) (idx : ℕ) (x : Input) (rest : List Input)
    → From inputs idx (x ∷ rest)
    → (get_elem? inputs idx ≡ some x) × (idx < length inputs) × From inputs (suc idx) rest
From-head inputs idx x rest (elem, size) = (
  ap (get_elem? inputs) (omega arith) ∙ elem 0,
  omega (arith, size),
  ((λ k. ap (get_elem? inputs) (omega arith) ∙ elem (suc k)), omega (arith, size)),
)

From-append :
    (inputs : List Input) (idx : ℕ) (a b : List Input)
    → From inputs idx (a ++ b)
    → From inputs (idx + length a) b
From-append inputs idx [] b (elem, size) =
    ((λ k. ap (get_elem? inputs) (omega arith) ∙ elem k), omega (arith, size))
From-append inputs idx (x ∷ a) b from =
    let (_, _, rest) = From-head inputs idx x (a ++ b) from in
    let (elem, size) = From-append inputs (suc idx) a b rest in
    ((λ k. ap (get_elem? inputs) (omega arith) ∙ elem k), omega (arith, size))

module _ {D : Type 0} (g : TaskGraph D) (timestep : ℤ) (size : ℤ → ℕ) where
  -- The outputs of the points of an interval, of which `n` are left from `i` on, that are in the
  -- row before; and those of all intervals.
  abbrev pub gathered : ℕ → ℤ → List Input
  gathered zero i = []
  gathered (suc n) i =
      let rest = gathered n (i +ℤ pos 1) in
      if in_last_row g timestep i then output_of timestep size i ∷ rest else rest

  abbrev pub gather : List Interval → List Input
  gather [] = []
  gather (span ∷ rest) = gathered (pos_part (span.1 +ℤ pos 1 -ℤ span.0)) span.0 ++ gather rest

module _ {D : Type 0} ⦃fl : Platform D⦄ (g : TaskGraph D) (timestep : ℤ) (size : ℤ → ℕ)
    (large : (dep : ℤ) → 16 ≤ size dep) (inputs : List Input) where
  check_input-output_of :
      (dep : ℤ) (idx : ℕ) (rest : List Input)
      → From inputs idx (output_of timestep size dep ∷ rest)
      → check_input timestep inputs dep idx ≡ ok (suc idx)
  unfolding check_input written
  check_input-output_of dep idx rest from =
      let (elem, below, _) = From-head inputs idx _ rest from in
      rw
        (
          lt→ltb _ _ below,
          elem,
          le→leb _ _ (large dep),
          check_pairs-written (size dep / 16) 0 (size dep / 16) timestep dep (omega arith),
        )
        refl

  check_dep-gathered :
      (n : ℕ) (i : ℤ) (idx : ℕ) (rest : List Input)
      → From inputs idx (gathered g timestep size n i ++ rest)
      → for_range n i (check_dep g timestep inputs) idx
        ≡ ok (idx + length (gathered g timestep size n i))
  unfolding for_range check_dep
  check_dep-gathered zero i idx rest from = ap ok (omega arith)
  check_dep-gathered (suc n) i idx rest from =
      step (in_last_row g timestep i) refl
        (λ idx' behind. check_dep-gathered n (i +ℤ pos 1) idx' rest behind) from
    where
      step :
          (b : Bool)
          → in_last_row g timestep i ≡ b
          → ((idx' : ℕ)
              → From inputs idx' (gathered g timestep size n (i +ℤ pos 1) ++ rest)
              → for_range n (i +ℤ pos 1) (check_dep g timestep inputs) idx'
                ≡ ok (idx' + length (gathered g timestep size n (i +ℤ pos 1))))
          → let more = gathered g timestep size n (i +ℤ pos 1) in
            let here = if b then output_of timestep size i ∷ more else more in
            From inputs idx (here ++ rest)
            → ((if b then check_input timestep inputs i idx else ok idx) >>= λ idx'.
                for_range n (i +ℤ pos 1) (check_dep g timestep inputs) idx')
              ≡ ok (idx + length here)
      step true e next from =
          let (_, _, behind) = From-head inputs idx _ _ from in
          rw (check_input-output_of i idx _ from) (next (suc idx) behind ∙ ap ok (omega arith))
      step false e next from = next idx from

  pub check_spans-gather :
      (spans : List Interval) (idx : ℕ)
      → From inputs idx (gather g timestep size spans)
      → for_each spans
          (λ span idx'. for_below span.0 (span.1 +ℤ pos 1) (check_dep g timestep inputs) idx')
          idx
        ≡ ok (idx + length (gather g timestep size spans))
  unfolding for_each
  check_spans-gather [] idx from = ap ok (omega arith)
  check_spans-gather (span ∷ spans) idx from =
      let here = gathered g timestep size (pos_part (span.1 +ℤ pos 1 -ℤ span.0)) span.0 in
      rw (check_dep-gathered (pos_part (span.1 +ℤ pos 1 -ℤ span.0)) span.0 idx _ from) (
        check_spans-gather spans (idx + length here) (From-append inputs idx here _ from)
        ∙ ap ok (omega (arith, length-append here (gather g timestep size spans))))
