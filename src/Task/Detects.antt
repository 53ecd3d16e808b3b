-- ===== src/Task/Detects.antt =====
-- `execute_point`: what a task that returns has read.
use task_bench.Base.{
  ℕ, zero, suc, ◌≡◌, refl, sym, ap, ◌∙◌, subst, ◌+◌, ◌/◌, ◌≤◌, ◌<◌, Bool, true, false, Bool-cases,
  inl, inr, Option, some, none, List, [], ◌∷◌, ◌++◌, if◌then◌else◌, ◌&&◌, get_elem?, length,
  length-append, arith, leb, leb→le, ltb,
}
use task_bench.Base.Int.{eqb-eq, ℤ, pos, pos_part, ◌+ℤ◌, ◌-ℤ◌, eqb_ℤ, leb_ℤ, ltb_ℤ}
use task_bench.Base.Outcome.{ok, >>=-eq-ok, ok-injective, check_that}
use task_bench.Base.Loops.{for_range, for_below, for_each}
use task_bench.Platform.{Platform}
use task_bench.Graph.{TaskGraph, offset_at_timestep, width_at_timestep, dependence_set_at_timestep}
use task_bench.Graph.Deps.{Interval, dependencies}
use task_bench.Kernels.Execute.{Scratch, Work, execute}
use task_bench.Task.{
  Input, at_index, check_pairs, check_input, in_last_row, check_dep, check_inputs, check_scratch,
  written, execute_point,
}

at_index-eq-ok : {A : Type 0} (o : Option A) {a : A} → at_index o ≡ ok a → o ≡ some a
at_index-eq-ok none e = cc
at_index-eq-ok (some b) e = ap some (ok-injective e)

check_that-eq-ok : (b : Bool) {u : Unit {0}} → check_that b ≡ ok u → b ≡ true
check_that-eq-ok true e = refl
check_that-eq-ok false e = cc

pair_eq : (p : Interval) (a b : ℤ) → p.0 ≡ a → p.1 ≡ b → p ≡ (a, b)
pair_eq (x, y) a b e f = rw (e, f) refl

check_pairs-eq-ok :
    (n i : ℕ) (pairs : List Interval) (timestep dep : ℤ) {u : Unit {0}}
    → check_pairs n i pairs timestep dep ≡ ok u
    → (k : ℕ) → k < n
    → get_elem? pairs (i + k) ≡ some (timestep -ℤ pos 1, dep)
unfolding check_pairs
check_pairs-eq-ok zero i pairs timestep dep e k h = absurd (omega arith)
check_pairs-eq-ok (suc n) i pairs timestep dep e zero h =
    let (pair, found, e1) = >>=-eq-ok (at_index (get_elem? pairs i)) _ e in
    let (_, first, e2) = >>=-eq-ok (check_that (eqb_ℤ pair.0 (timestep -ℤ pos 1))) _ e1 in
    let (_, second, _) = >>=-eq-ok (check_that (eqb_ℤ pair.1 dep)) _ e2 in
    ap (get_elem? pairs) (omega arith)
    ∙ at_index-eq-ok _ found
    ∙ ap some (
        pair_eq pair _ _ (eqb-eq _ _ (check_that-eq-ok _ first))
          (eqb-eq _ _ (check_that-eq-ok _ second)))
check_pairs-eq-ok (suc n) i pairs timestep dep e (suc k) h =
    let (pair, found, e1) = >>=-eq-ok (at_index (get_elem? pairs i)) _ e in
    let (_, first, e2) = >>=-eq-ok (check_that (eqb_ℤ pair.0 (timestep -ℤ pos 1))) _ e1 in
    let (_, second, e3) = >>=-eq-ok (check_that (eqb_ℤ pair.1 dep)) _ e2 in
    ap (get_elem? pairs) (omega arith)
    ∙ check_pairs-eq-ok n (suc i) pairs timestep dep e3 k (omega arith)

-- The input of this index has room for a pair, and each pair of its bytes is the one that the task
-- at `dep` wrote at the timestep before.
abbrev pub ReadFrom : ℤ → List Input → ℕ → ℤ → Type 0
ReadFrom timestep inputs idx dep =
    (input : Input) × (get_elem? inputs idx ≡ some input)
    × (16 ≤ input.bytes)
    × ((k : ℕ) → k < input.bytes / 16 → get_elem? input.pairs k ≡ some (timestep -ℤ pos 1, dep))

check_input-eq-ok :
    (timestep : ℤ) (inputs : List Input) (dep : ℤ) (idx : ℕ) {next : ℕ}
    → check_input timestep inputs dep idx ≡ ok next
    → (next ≡ suc idx) × ReadFrom timestep inputs idx dep
unfolding check_input
check_input-eq-ok timestep inputs dep idx e =
    let (_, _, e1) = >>=-eq-ok (check_that (ltb idx (length inputs))) _ e in
    let (input, found, e2) = >>=-eq-ok (at_index (get_elem? inputs idx)) _ e1 in
    let (_, room, e3) = >>=-eq-ok (check_that (leb 16 input.bytes)) _ e2 in
    let (_, same, e4) =
      >>=-eq-ok (check_pairs (input.bytes / 16) 0 input.pairs timestep dep) _ e3 in
    (
      sym (ok-injective e4),
      (
        input,
        at_index-eq-ok _ found,
        leb→le _ _ (check_that-eq-ok _ room),
        λ k h.
            ap (get_elem? input.pairs) (omega arith)
            ∙ check_pairs-eq-ok (input.bytes / 16) 0 input.pairs timestep dep same k h,
      ),
    )

-- The inputs from `idx` on are those of the dependences, in their order.
abbrev pub AllRead : ℤ → List Input → ℕ → List ℤ → Type 0
AllRead timestep inputs idx [] = Unit
AllRead timestep inputs idx (dep ∷ deps) =
    ReadFrom timestep inputs idx dep × AllRead timestep inputs (suc idx) deps

AllRead-append :
    (timestep : ℤ) (inputs : List Input) (idx : ℕ) (a b : List ℤ)
    → AllRead timestep inputs idx a
    → AllRead timestep inputs (idx + length a) b
    → AllRead timestep inputs idx (a ++ b)
AllRead-append timestep inputs idx [] b h k =
    subst (λ i. AllRead timestep inputs i b) (omega arith) k
AllRead-append timestep inputs idx (x ∷ a) b (h, hs) k = (
  h,
  AllRead-append timestep inputs (suc idx) a b hs
      (subst (λ i. AllRead timestep inputs i b) (omega arith) k),
)

module _ {D : Type 0} (g : TaskGraph D) (timestep : ℤ) where
  -- The points of an interval, of which `n` are left from `i` on, that are in the row before; and
  -- those of all intervals.
  abbrev pub points_of : ℕ → ℤ → List ℤ
  points_of zero i = []
  points_of (suc n) i =
      let rest = points_of n (i +ℤ pos 1) in if in_last_row g timestep i then i ∷ rest else rest

  abbrev pub last_points : List Interval → List ℤ
  last_points [] = []
  last_points (span ∷ rest) =
      points_of (pos_part (span.1 +ℤ pos 1 -ℤ span.0)) span.0 ++ last_points rest

module _ {D : Type 0} ⦃fl : Platform D⦄ (g : TaskGraph D) (timestep : ℤ) (inputs : List Input) where
  -- The loop has read the inputs of these points, and goes on behind them.
  abbrev Read : ℕ → ℕ → List ℤ → Type 0
  Read idx next deps = (next ≡ idx + length deps) × AllRead timestep inputs idx deps

  Read-append :
      (idx mid next : ℕ) (a b : List ℤ) → Read idx mid a → Read mid next b → Read idx next (a ++ b)
  Read-append idx mid next a b (size, all) (size', all') = (
    omega (arith, size, size', length-append a b),
    AllRead-append timestep inputs idx a b all (subst (λ i. AllRead timestep inputs i b) size all'),
  )

  check_dep-eq-ok :
      (dep : ℤ) (idx : ℕ) {next : ℕ}
      → check_dep g timestep inputs dep idx ≡ ok next
      → Read idx next (if in_last_row g timestep dep then dep ∷ [] else [])
  unfolding check_dep
  check_dep-eq-ok dep idx e = elim (Bool-cases (in_last_row g timestep dep)) [
    | inl inside ↦
        let (size, read) = check_input-eq-ok timestep inputs dep idx (rw inside at e) in
        rw inside (omega (arith, size), (read, tt))
    | inr outside ↦ rw outside (omega (arith, ok-injective (rw outside at e)), tt)
  ]

  points-eq-ok :
      (n : ℕ) (i : ℤ) (idx : ℕ) {next : ℕ}
      → for_range n i (check_dep g timestep inputs) idx ≡ ok next
      → Read idx next (points_of g timestep n i)
  unfolding for_range
  points-eq-ok zero i idx e = (omega (arith, ok-injective e), tt)
  points-eq-ok (suc n) i idx e =
      let (mid, here, rest) = >>=-eq-ok (check_dep g timestep inputs i idx) _ e in
      joined (in_last_row g timestep i) mid (points_of g timestep n (i +ℤ pos 1))
        (check_dep-eq-ok i idx here) (points-eq-ok n (i +ℤ pos 1) mid rest)
    where
      joined :
          (b : Bool) (mid : ℕ) (more : List ℤ) {next : ℕ}
          → Read idx mid (if b then i ∷ [] else [])
          → Read mid next more
          → Read idx next (if b then i ∷ more else more)
      joined true mid more h k = Read-append idx mid _ (i ∷ []) more h k
      joined false mid more h k = Read-append idx mid _ [] more h k

  spans-eq-ok :
      (spans : List Interval) (idx : ℕ) {next : ℕ}
      → for_each spans
          (λ span idx'. for_below span.0 (span.1 +ℤ pos 1) (check_dep g timestep inputs) idx')
          idx
        ≡ ok next
      → Read idx next (last_points g timestep spans)
  unfolding for_each
  spans-eq-ok [] idx e = (omega (arith, ok-injective e), tt)
  spans-eq-ok (span ∷ spans) idx e =
      let (mid, here, rest) =
        >>=-eq-ok (for_below span.0 (span.1 +ℤ pos 1) (check_dep g timestep inputs) idx) _ e in
      Read-append idx mid _ _ _
        (points-eq-ok (pos_part (span.1 +ℤ pos 1 -ℤ span.0)) span.0 idx here)
        (spans-eq-ok spans mid rest)

  -- A task that returns has read the right inputs: `dependencies` returns for its point, and for
  -- the dependences in the row before, in their order, the inputs hold at least one pair each, and
  -- nothing but the pairs that the tasks of the timestep before write. Its own output holds the
  -- pairs that it writes.
  pub execute_point-AllRead :
      (point : ℤ) (output_bytes : ℕ) (scratch : Scratch) (first_word : ℕ)
      {out : List Interval × Work}
      → execute_point g timestep point output_bytes inputs scratch first_word ≡ ok out
      → (dset : ℤ) × (deps : List Interval) × (dependence_set_at_timestep g timestep ≡ ok dset)
        × (dependencies g dset point ≡ ok deps)
        × AllRead timestep inputs 0 (last_points g timestep deps)
        × (out.0 ≡ written timestep point output_bytes)
  unfolding execute_point check_inputs
  execute_point-AllRead point output_bytes scratch first_word {out = out} e =
      let offset = offset_at_timestep g timestep in
      let width = width_at_timestep g timestep in
      let (_, _, e1) =
        >>=-eq-ok (check_that (leb_ℤ (pos 0) timestep && ltb_ℤ timestep g.timesteps)) _ e in
      let (_, _, e2) =
        >>=-eq-ok (check_that (leb_ℤ offset point && ltb_ℤ point (offset +ℤ width))) _ e1 in
      let (_, read, e3) = >>=-eq-ok (check_inputs g timestep point inputs) _ e2 in
      let (dset, set, r1) = >>=-eq-ok (dependence_set_at_timestep g timestep) _ read in
      let (deps, call, r2) = >>=-eq-ok (dependencies g dset point) _ r1 in
      let (_, _, e4) = >>=-eq-ok (check_that (leb 16 output_bytes)) _ e3 in
      let (_, _, e5) = >>=-eq-ok (check_scratch g.scratch_bytes_per_task scratch first_word) _ e4 in
      let (work, _, e6) = >>=-eq-ok (execute g.kernel g.graph_index timestep point scratch) _ e5 in
      let both : (written timestep point output_bytes, work) ≡ out = ok-injective e6 in
      (dset, deps, set, call, (spans-eq-ok deps 0 r2).1, sym (ap (λ x. x.0) both))
