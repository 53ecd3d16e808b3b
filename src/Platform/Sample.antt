-- ===== src/Platform/Sample.antt =====
-- A platform to run the core on: a `double` is a number of 1024ths, and the hash adds bytes up.
use Prim.Native.String.{String}
use Prim.Native.Char.{code}
use task_bench.Base.{
  ℕ, zero, suc, ◌+◌, ◌-◌, ◌*◌, ◌/◌, ◌%◌, ◌^◌, true, false, List, [], ◌∷◌, leb, ◌==◌, ◌&&◌,
  if◌then◌else◌,
}
use task_bench.Base.Int.{ℤ, pos, pos_part, ◌+ℤ◌, ◌-ℤ◌, ◌*ℤ◌, ◌/ℤ◌, ltb_ℤ, leb_ℤ}
use task_bench.Platform.{Platform}

-- The least k with x at most 2 ^ k.
log2_from : ℕ → ℕ → ℕ → ℕ
log2_from zero x k = k
log2_from (suc fuel) x k = elim (leb x (2 ^ k)) [ true ↦ k | false ↦ log2_from fuel x (k + 1) ]

digits_from : ℕ → String → ℕ
digits_from acc String.[] = acc
digits_from acc (String.◌∷◌ c s) =
    digits_from (if leb 48 (code c) && leb (code c) 57 then acc * 10 + (code c - 48) else acc) s

decimal : String → ℤ
decimal String.[] = pos 0
decimal (String.◌∷◌ c s) =
    if code c == 45 then pos 0 -ℤ pos (digits_from 0 s) else pos (digits_from 0 (String.◌∷◌ c s))

sum_bytes : List ℕ → ℕ
sum_bytes [] = 0
sum_bytes (b ∷ rest) = b + sum_bytes rest

instance unfoldable pub sample_platform : Platform ℤ
unfolding log2_from digits_from decimal sum_bytes ◌+ℤ◌ ◌-ℤ◌ ◌*ℤ◌ ◌/ℤ◌
sample_platform = record {
  less = ltb_ℤ;
  less_eq = leb_ℤ;
  plus = ◌+ℤ◌;
  minus = ◌-ℤ◌;
  times = λ a b. (a *ℤ b) /ℤ pos 1024;
  over = λ a b. (a *ℤ pos 1024) /ℤ b;
  scale_bits = λ bits. pos (bits / 2 ^ 54);
  of_long = λ n. n *ℤ pos 1024;
  log2 = λ x. pos (log2_from 64 (pos_part x / 1024) 0 * 1024);
  ceil = λ x. x;
  round = λ x. x;
  sqrt = λ x. x;
  to_long = λ x. x /ℤ pos 1024;
  quarter = pos 256;
  half = pos 512;
  siphash = λ input key. (sum_bytes input + sum_bytes key) % 4 * 2 ^ 62;
  atol = decimal;
  atoi = decimal;
  atof = λ s. decimal s *ℤ pos 1024;
  draw_uniform = λ seed low high. low;
  draw_normal = λ seed. pos 0;
  draw_gamma = λ seed shape. pos 1024;
  roll = λ output_case timestep mu sigma k. pos (k * 1024);
  rand = λ k. k;
  draw_cauchy = λ seed scale. pos 2048;
}
