-- ===== src/Mpi/Ranks/Tag.antt =====
-- The tag of a message names the two points that it goes between.
use Prim.Native.Nat.{bit_or-bitwise, digits, max}
use native.Mathlib.Nat.{zero-max, max-zero}
use task_bench.Base.{ℕ, zero, suc, ◌≡◌, refl, ap, ◌∙◌, ◌+◌, ◌*◌, ◌/◌, ◌%◌, ◌^◌, ◌≤◌, ◌<◌, arith}
use task_bench.Base.Int.{pos}
use task_bench.Mpi.Ranks.{tag_of}

abbrev or_digits : ℕ → ℕ → ℕ → ℕ
or_digits = digits (λ b. b) max

zero_max : (a b : ℕ) → a ≡ 0 → max a b ≡ b
zero_max a b h = ap (λ x. max x b) h ∙ zero-max b

max_zero : (a b : ℕ) → b ≡ 0 → max a b ≡ a
max_zero a b h = ap (max a) h ∙ max-zero a

halves :
    (a m k : ℕ) → a ≡ m * 2 ^ suc k → (2 ^ suc k ≡ 2 ^ k * 2) × (a % 2 ≡ 0) × (a / 2 ≡ m * 2 ^ k)
halves a m k e =
    let power : 2 ^ suc k ≡ 2 ^ k * 2 = omega arith in
    let twice : a ≡ m * 2 ^ k * 2 = e ∙ ap (λ x. m * x) power ∙ omega arith in
    (power, omega (arith, twice), omega (arith, twice))

-- Digits above the lowest `k` do not meet those below.
or_digits-add : (n a m k t : ℕ) → a ≡ m * 2 ^ k → a ≤ n → t < 2 ^ k → or_digits n a t ≡ a + t
or_digits-add zero a m k t e h l = omega arith
or_digits-add (suc n) zero m k t e h l = omega arith
or_digits-add (suc n) (suc a) m zero t e h l =
    let rest =
      or_digits-add n (suc a / 2) (suc a / 2) 0 (t / 2) (omega arith) (omega arith) (omega arith) in
    rw rest (omega (arith, max_zero (suc a % 2) (t % 2) (omega arith)))
or_digits-add (suc n) (suc a) m (suc k) t e h l =
    let (power, even, half) = halves (suc a) m k e in
    let rest = or_digits-add n (suc a / 2) m k (t / 2) half (omega arith) (omega arith) in
    rw rest (omega (arith, zero_max (suc a % 2) (t % 2) even))

-- Of two points of their ranks, with tag bits below 128.
pub tag_of-add : (f t : ℕ) → t < 256 → tag_of (pos f) (pos t) ≡ f * 256 + t
unfolding tag_of
tag_of-add f t h =
    bit_or-bitwise (f * 256) t
    ∙ or_digits-add (f * 256) (f * 256) f 8 t refl (omega arith) (omega arith)
