-- ===== src/Kernels/Memory/Windows.antt =====
-- `execute_kernel_memory`: the windows lie in the scratch memory and make up the iterations.
use native.Mathlib.Nat.{mod-lt, add-mod_right, mod-add-mod, mod_self}
use task_bench.Base.{
  ℕ, zero, suc, ◌≡◌, refl, ap, sym, ◌∙◌, subst, ◌⊎◌, inl, inr, ◌+◌, ◌-◌, ◌*◌, ◌%◌, ◌≤◌, ◌<◌, arith,
  true, false, Bool-cases, ltb, leb, leb→le, lt→ltb, ◌==◌,
}
use task_bench.Base.Int.{ℤ, pos, pos_part, ◌-ℤ◌, ◌%ℤ◌, min_ℤ, int_laws, pos-add, pos-mul}
use task_bench.Base.Outcome.{Outcome, ok, ◌>>=◌, check_that}
use task_bench.Base.Loops.{Returns, Returns-bind}
use task_bench.Kernels.Memory.{start_idx, visit_some, prologue, body, epilogue, sample_loop}

pos-sub : (a b : ℕ) → b ≤ a → pos a -ℤ pos b ≡ pos (a - b)
pos-sub a b h = grind int_laws

start_pos : (t n m i : ℕ) → start_idx (pos t) (pos n) (pos m) (pos i) ≡ pos ((t * n + i) % m)
unfolding start_idx ◌%ℤ◌
start_pos t n m i = rw (pos-mul t n, pos-add (t * n) i) refl

-- After the prologue: the next start is 0, or nothing is left.
stop_lem :
    (x n m : ℕ)
    → 0 < m
    → let start = (x + 0) % m in
      let stop = pos_part (min_ℤ (pos m) (pos (start + n))) in
      (min_ℤ (pos m) (pos (start + n)) ≡ pos stop)
      × (start ≤ stop)
      × (stop ≤ m)
      × (stop - start ≤ n)
      × ((stop - start ≡ n) ⊎ (stop ≡ m))
unfolding min_ℤ
stop_lem x n m h = ground (arith, mod-lt (x + 0) {m = m} h)

wrapped : (x m i : ℕ) → (x + 0) % m + i ≡ m → (x + i) % m ≡ 0
wrapped x m i e =
    ap (λ k. (k + i) % m) (omega arith)
    ∙ sym (mod-add-mod (x + 0) m i)
    ∙ ap (λ k. k % m) e
    ∙ mod_self m

same_test : (n : ℕ) → ((n + 0) == (n + 0)) ≡ true
same_test n = ground arith

module _ {S : Type 0} (visit : ℤ → ℤ → S → Outcome S) (t n m : ℕ) (P : ℕ → S → Type 0) (h : 0 < m)
    (keep : (start num iter : ℕ) (u : S)
      → start ≡ (t * n + iter) % m
      → 0 < num
      → start + num ≤ m
      → iter + num ≤ n
      → P iter u
      → Returns (visit (pos start) (pos num) u) (P (iter + num))) where
  -- The state behind `i` iterations.
  abbrev At : ℕ → ℤ × S → Type 0
  At i (iter, u) = (iter ≡ pos i) × P i u

  visit_some-At :
      (start num iter next : ℕ) (u : S)
      → start ≡ (t * n + iter) % m
      → (0 < num → start + num ≤ m)
      → iter + num ≡ next
      → next ≤ n
      → P iter u
      → Returns
          (visit_some visit (pos t) (pos n) (pos m) (pos start) (pos num) (pos iter) u)
          (At next)
  unfolding visit_some
  visit_some-At start zero iter next u e inside sum few p =
      let same : iter ≡ next = omega (arith, sum) in
      (_, refl, (ap pos same, subst (λ k. P k u) same p))
  visit_some-At start (suc num) iter next u e inside sum few p =
      let some_left : ltb 0 (suc num + 0) ≡ true = lt→ltb _ _ (omega arith) in
      rw some_left (
        Returns-bind (P (iter + suc num)) (At next) _ _
          (keep start (suc num) iter u e (omega arith) (inside (omega arith)) (omega (arith, sum))
            p)
          λ u' p'. (_, refl, (pos-add iter (suc num) ∙ ap pos sum, subst (λ k. P k u') sum p')))

  -- What holds between the windows.
  abbrev Ahead : ℕ → Type 0
  Ahead i = (i ≤ n) × ((i ≡ n) ⊎ ((t * n + i) % m ≡ 0))

  abbrev Reached : Outcome (ℤ × S) → Type 0
  Reached call = (i : ℕ) × Ahead i × Returns call (At i)

  prologue-Reached : (u : S) → P 0 u → Reached (prologue visit (pos t) (pos n) (pos m) u)
  unfolding prologue
  prologue-Reached u p =
      let (e, low, high, few, last) = stop_lem (t * n) n m h in
      let start = (t * n + 0) % m in
      let stop = pos_part (min_ℤ (pos m) (pos (start + n))) in
      (
        stop - start,
        (few, ahead stop last low),
        rw (start_pos t n m 0, pos-add start n, e, pos-sub stop start low)
            (visit_some-At start (stop - start) 0 (stop - start) u refl (λ _. omega arith)
              (omega arith) few p),
      )
    where
      ahead :
          (stop : ℕ)
          → (stop - (t * n + 0) % m ≡ n) ⊎ (stop ≡ m)
          → (t * n + 0) % m ≤ stop
          → (stop - (t * n + 0) % m ≡ n) ⊎ ((t * n + (stop - (t * n + 0) % m)) % m ≡ 0)
      ahead stop (inl all) low = inl all
      ahead stop (inr full) low =
          inr (wrapped (t * n) m (stop - (t * n + 0) % m) (omega (arith, full)))

  -- A full round is ahead of a state that has that many iterations left.
  round_start : (i : ℕ) → Ahead i → i + m ≤ n → (t * n + i) % m ≡ 0
  round_start i (few, inl all) more = absurd (omega (arith, all))
  round_start i (few, inr zeroth) more = zeroth

  body-Reached :
      (fuel i : ℕ) (u : S)
      → n ≤ i + fuel
      → Ahead i
      → P i u
      → (j : ℕ) × Ahead j
        × (n < j + m)
        × Returns (body visit (pos t) (pos n) (pos m) fuel (pos i) u) (At j)
  unfolding body
  body-Reached zero i u enough ahead p =
      let stuck : leb (i + m + 0) (n + 0) ≡ false = ground arith in
      (i, ahead, omega arith, rw (pos-add i m, stuck) (_, refl, (refl, p)))
  body-Reached (suc fuel) i u enough ahead p = elim (Bool-cases (leb (i + m + 0) (n + 0))) [
    | inl more ↦
        let some_left : i + m ≤ n = omega (arith, leb→le _ _ more) in
        let zeroth = round_start i ahead some_left in
        let (u', call, p') = keep 0 m i u (sym zeroth) h (omega arith) some_left p in
        let (j, ahead', past, rest) =
          body-Reached fuel (i + m) u' (omega arith)
            (some_left, inr (ap (λ k. k % m) (omega arith) ∙ add-mod_right (t * n + i) m ∙ zeroth))
            p' in
        (j, ahead', past, rw (pos-add i m, more, start_pos t n m i, zeroth, call) rest)
    | inr done ↦ (i, ahead, ground arith, rw (pos-add i m, done) (_, refl, (refl, p)))
  ]

  epilogue-At :
      (i : ℕ) (u : S)
      → Ahead i
      → n < i + m
      → P i u
      → Returns (epilogue visit (pos t) (pos n) (pos m) (pos i) u) (At n)
  unfolding epilogue
  epilogue-At i u ahead past p =
      let start = (t * n + i) % m in
      let left : start + (n - i) - start ≡ n - i = omega arith in
      rw
        (
          start_pos t n m i,
          pos-sub n i ahead.0,
          pos-add start (n - i),
          pos-sub (start + (n - i)) start (omega arith),
          left,
        )
        (visit_some-At start (n - i) i n u refl (inside ahead.1) (omega (arith, ahead.0))
          (omega arith) p)
    where
      inside : (i ≡ n) ⊎ ((t * n + i) % m ≡ 0) → 0 < n - i → (t * n + i) % m + (n - i) ≤ m
      inside (inl all) left = absurd (omega (arith, all))
      inside (inr zeroth) left = omega (arith, zeroth)

  -- With samples above zero: if each visit of a window of samples inside the scratch memory, at the
  -- sample that is due, returns and makes its number of iterations, the loops of
  -- `execute_kernel_memory` return, and have made exactly the kernel's iterations.
  pub sample_loop_covers :
      (u : S) → P 0 u → Returns (sample_loop visit (pos t) (pos n) (pos m) u) (P n)
  unfolding sample_loop
  sample_loop_covers u p =
      let (i, ahead, (s1, call1, (at1, p1))) = prologue-Reached u p in
      let (j, ahead', past, (s2, call2, (at2, p2))) =
        body-Reached n i s1.1 (omega arith) ahead p1 in
      let (s3, call3, (at3, p3)) = epilogue-At j s2.1 ahead' past p2 in
      (
        s3.1,
        rw (call1, at1, call2, at2, call3, at3)
            (ap (λ b. check_that b >>= λ _. ok s3.1) (same_test n)),
        p3,
      )
