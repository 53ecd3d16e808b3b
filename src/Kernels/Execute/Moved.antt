-- ===== src/Kernels/Execute/Moved.antt =====
-- `execute_kernel_memory`: what the whole kernel moves.
use native.Mathlib.Nat.{mod-eq_of_lt, div-add-mod, mul-div_cancel_left}
use task_bench.Base.{
  lt→ltb, ℕ, ◌≡◌, refl, sym, ap, ◌∙◌, ◌+◌, ◌-◌, ◌*◌, ◌/◌, ◌%◌, ◌^◌, ◌≤◌, ◌<◌, List, [], ◌∷◌, ◌++◌,
  arith, ◌==◌, false,
}
use task_bench.Base.Int.{ℤ, pos}
use task_bench.Base.Outcome.{ok}
use task_bench.Base.Loops.{Returns, Returns-bind}
use task_bench.Platform.{Platform}
use task_bench.Graph.{TaskGraph, memory_bound}
use task_bench.Kernels.Copy.{Move}
use task_bench.Kernels.Copy.Halves.{moved, AllInside, copy_moves_half, prolog_lem}
use task_bench.Kernels.Memory.{sample_loop}
use task_bench.Kernels.Memory.Windows.{sample_loop_covers}
use task_bench.Cost.{over_samples, scratch_product, count_bytes_per_task, bytes_of_kernel}
use task_bench.Kernels.Execute.{Scratch, copy_window, sample_bytes_of, execute_kernel_memory}

moved-append : (a b : List Move) → moved (a ++ b) ≡ moved a + moved b
moved-append [] b = omega arith
moved-append (m ∷ a) b = omega (arith, moved-append a b)

AllInside-append :
    (base bytes : ℕ) (a b : List Move)
    → AllInside base bytes a
    → AllInside base bytes b
    → AllInside base bytes (a ++ b)
AllInside-append base bytes [] b h k = k
AllInside-append base bytes (m ∷ a) b (h1, h2, h3, h) k =
    (h1, h2, h3, AllInside-append base bytes a b h k)

-- The moves in a window are moves in the scratch memory.
AllInside-window :
    (base bytes from n : ℕ) (moves : List Move)
    → from + n ≤ bytes
    → AllInside (base + from) n moves
    → AllInside base bytes moves
AllInside-window base bytes from n [] h k = tt
AllInside-window base bytes from n (m ∷ moves) h (k1, k2, k3, k) =
    (omega arith, k2, omega arith, AllInside-window base bytes from n moves h k)

-- What the kernel has moved behind `i` iterations over samples of `sb` bytes.
abbrev pub Moved : ℕ → ℕ → ℕ → ℕ → List Move → Type 0
Moved base bytes sb i moves = (moved moves * 2 ≡ i * sb) × AllInside base bytes moves

-- Products of the numbers of samples with the bytes of each.
even_mul : (a b : ℕ) → b % 2 ≡ 0 → a * b % 2 ≡ 0
even_mul a b h =
    let halved : b ≡ b / 2 * 2 = omega arith in
    let all : a * b ≡ a * (b / 2) * 2 = ap (λ x. a * x) halved ∙ omega arith in omega (arith, all)

mul_le : (a b sb : ℕ) → a ≤ b → a * sb ≤ b * sb
mul_le a b sb h =
    let split : b ≡ a + (b - a) = omega arith in
    let all : b * sb ≡ a * sb + (b - a) * sb = ap (λ x. x * sb) split ∙ omega arith in
    omega (arith, all)

mul_ge : (a sb : ℕ) → 0 < a → sb ≤ a * sb
mul_ge a sb h = omega (arith, mul_le 1 a sb h)

sum_mul : (a b c : ℕ) → (a + b) * c ≡ a * c + b * c
sum_mul a b c = omega arith

module _ (base bytes sb m : ℕ) (even_base : base % 2 ≡ 0) (even : sb % 2 ≡ 0) (enough : 32 ≤ sb)
    (fits : m * sb ≤ bytes) (small : base + bytes < 2 ^ 64) where
  -- A window's first byte and its size.
  window_lem :
      (start num : ℕ)
      → 0 < num
      → start + num ≤ m
      → (start % 2 ^ 64 ≡ start)
        × (num % 2 ^ 64 ≡ num)
        × ((base + start * sb) % 2 ^ 64 ≡ base + start * sb)
        × (num * sb % 2 ^ 64 ≡ num * sb)
        × (start * sb + num * sb ≤ bytes)
        × (sb ≤ num * sb)
  window_lem start num some_left inside =
      let all : start * sb + num * sb ≤ bytes =
        omega (arith, mul_le (start + num) m sb inside, sum_mul start num sb) in
      let many : m * 1 ≤ m * sb = omega (arith, mul_le_left m sb) in
      (
        mod-eq_of_lt (omega arith),
        mod-eq_of_lt (omega arith),
        mod-eq_of_lt (omega arith),
        mod-eq_of_lt (omega arith),
        all,
        mul_ge num sb some_left,
      )
    where
      mul_le_left : (m sb : ℕ) → (0 < sb) → m ≤ m * sb
      mul_le_left m sb h = omega (arith, mul_ge sb m h)

  copy_window-Moved :
      (start num i : ℕ) (moves : List Move)
      → 0 < num
      → start + num ≤ m
      → Moved base bytes sb i moves
      → Returns (copy_window base sb (pos start) (pos num) moves) (Moved base bytes sb (i + num))
  unfolding copy_window
  copy_window-Moved start num i moves some_left inside (sum, all) =
      let (w1, w2, w3, w4, within, large) = window_lem start num some_left inside in
      let at_even = even_sum base (start * sb) even_base (even_mul start sb even) in
      let (_, _, short) = prolog_lem (base + start * sb) at_even in
      rw (w1, w2, w3, w4)
        (Returns-bind _ (Moved base bytes sb (i + num)) _ _
          (copy_moves_half (base + start * sb) (num * sb) at_even (even_mul num sb even)
            (omega arith) (omega arith))
          λ more (sum', all'). (
            _,
            refl,
            (
              omega (arith, moved-append moves more, sum, sum', sum_mul i num sb),
              AllInside-append base bytes moves more all
                  (AllInside-window base bytes (start * sb) (num * sb) more within all'),
            ),
          ))
    where
      even_sum : (a b : ℕ) → a % 2 ≡ 0 → b % 2 ≡ 0 → (a + b) % 2 ≡ 0
      even_sum a b h k = omega arith

module _ {D : Type 0} ⦃fl : Platform D⦄ (g : TaskGraph D) (scratch : Scratch) (m n t : ℕ) where
  whole : (bytes : ℕ) → 0 < m → bytes % m ≡ 0 → bytes ≡ m * (bytes / m)
  whole bytes h e = omega (arith, div-add-mod bytes m, e)

  counted :
      (bytes : ℕ)
      → 0 < m
      → 0 < bytes
      → bytes % m ≡ 0
      → bytes * n < 2 ^ 63
      → m < 2 ^ 64
      → over_samples (scratch_product bytes (pos n)) (pos m) ≡ ok (pos (n * (bytes / m)))
  counted bytes h some_bytes e fits k =
      let some_samples : ((m + 0) == (0 + 0)) ≡ false = ground arith in
      let product : bytes * n ≡ m * (n * (bytes / m)) =
        ap (λ x. x * n) (whole bytes h e) ∙ omega arith in
      let few : n < 2 ^ 64 = omega (arith, mul_ge bytes n some_bytes) in
      let quotient : bytes * n / m ≡ n * (bytes / m) =
        ap (λ x. x / m) product ∙ mul-div_cancel_left (n * (bytes / m)) h in
      let below : n * (bytes / m) < 2 ^ 63 = omega (arith, product, mul_ge m (n * (bytes / m)) h) in
      rw
        (
          some_samples,
          mod-eq_of_lt few,
          mod-eq_of_lt (whole_fits (bytes * n) fits),
          mod-eq_of_lt k,
          quotient,
          lt→ltb _ _ below,
        )
        refl
    where
      whole_fits : (x : ℕ) → x < 2 ^ 63 → x < 2 ^ 64
      whole_fits x h = omega arith

  kernel_run :
      (moves : List Move)
      → g.kernel.samples ≡ pos m
      → g.kernel.iterations ≡ pos n
      → 0 < m
      → m < 2 ^ 64
      → sample_loop (copy_window scratch.base (scratch.bytes / m)) (pos t) (pos n) (pos m) []
        ≡ ok moves
      → execute_kernel_memory g.kernel scratch (pos t) ≡ ok (record { rounds = 0; moves = moves })
  unfolding execute_kernel_memory sample_bytes_of
  kernel_run moves samples iterations h k call =
      let nonzero : ((m + 0) == (0 + 0)) ≡ false = ground arith in
      rw (samples, iterations, nonzero, mod-eq_of_lt k, call) refl

  count_run :
      (point : ℤ)
      → g.kernel.kernel_type ≡ memory_bound
      → g.kernel.samples ≡ pos m
      → g.kernel.iterations ≡ pos n
      → scratch.bytes ≡ g.scratch_bytes_per_task
      → 0 < m
      → 0 < scratch.bytes
      → scratch.bytes % m ≡ 0
      → scratch.bytes * n < 2 ^ 63
      → m < 2 ^ 64
      → count_bytes_per_task g (pos t) point ≡ ok (pos (n * (scratch.bytes / m)))
  unfolding count_bytes_per_task bytes_of_kernel
  count_run point type samples iterations same h some_bytes e fits k =
      rw (type, samples, iterations, ← same) (counted scratch.bytes h some_bytes e fits k)

  -- For a memory-bound graph with samples above zero, a scratch memory whose bytes are a multiple of
  -- the samples, with an even number of at least 32 bytes for each, at an even address, in front of
  -- the end of the address space, and a product of its bytes and the iterations below 2 ^ 63: from
  -- timestep 0 on, `execute_kernel_memory` returns, every move is inside the scratch memory, and
  -- `count_bytes_per_task` is exactly the number of bytes that are read or written.
  pub count_bytes-moved :
      (point : ℤ)
      → g.kernel.kernel_type ≡ memory_bound
      → g.kernel.samples ≡ pos m
      → g.kernel.iterations ≡ pos n
      → scratch.bytes ≡ g.scratch_bytes_per_task
      → 0 < m
      → scratch.bytes % m ≡ 0
      → scratch.base % 2 ≡ 0
      → scratch.bytes / m % 2 ≡ 0
      → 32 ≤ scratch.bytes / m
      → scratch.base + scratch.bytes < 2 ^ 64
      → scratch.bytes * n < 2 ^ 63
      → Returns (execute_kernel_memory g.kernel scratch (pos t)) (λ work.
        (count_bytes_per_task g (pos t) point ≡ ok (pos (moved work.moves * 2)))
        × AllInside scratch.base scratch.bytes work.moves)
  count_bytes-moved point type samples iterations same some_samples multiple even_base even enough
        small fits =
      let sb = scratch.bytes / m in
      let many : m ≤ m * sb = omega (arith, mul_ge sb m (omega arith)) in
      let all = whole scratch.bytes some_samples multiple in
      let (moves, call, (sum, inside)) =
        sample_loop_covers (copy_window scratch.base sb) t n m (Moved scratch.base scratch.bytes sb)
          some_samples
          (λ start num iter u e some_left within few p.
            copy_window-Moved scratch.base scratch.bytes sb m even_base even enough
              (omega (arith, all)) small start num iter u some_left within p)
          [] (omega arith, tt) in
      (
        _,
        kernel_run moves samples iterations some_samples (omega (arith, all)) call,
        (
          count_run point type samples iterations same some_samples (omega (arith, all, many))
                multiple fits (omega (arith, all))
              ∙ ap (λ x. ok (pos x)) (sym sum),
          inside,
        ),
      )
