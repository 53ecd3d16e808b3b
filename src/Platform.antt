-- ===== src/Platform.antt =====
-- What the core takes from outside the repository's own code: C's `double` with <cmath>, the
-- conversions of <cstdlib>, the reference SipHash, and the engines of <random>.
pub mod Sample
use Prim.Native.String.{String}
use task_bench.Base.{ℕ, Bool, List}
use task_bench.Base.Int.{ℤ}

pub record Platform (D : Type 0) : Type 0 where
  -- a < b and a <= b
  pub less : D → D → Bool
  pub less_eq : D → D → Bool
  pub plus : D → D → D
  pub minus : D → D → D
  pub times : D → D → D
  pub over : D → D → D
  -- ((double)bits) * 0x1.p-64
  pub scale_bits : ℕ → D
  -- (double)n, log2(x), ceil(x), round(x), sqrt(x) and (long)x
  pub of_long : ℤ → D
  pub log2 : D → D
  pub ceil : D → D
  pub round : D → D
  pub sqrt : D → D
  pub to_long : D → ℤ
  -- the literals 0.25 and 0.5
  pub quarter : D
  pub half : D
  -- siphash(in, inlen, k, out, 8): the word left in `out`, from the input bytes and the key
  pub siphash : List ℕ → List ℕ → ℕ
  pub atol : String → ℤ
  pub atoi : String → ℤ
  pub atof : String → D
  -- The draws of a std::default_random_engine with this seed: the first of
  -- uniform_int_distribution(min, max), normal_distribution(0, 1) and gamma_distribution(a, 1), and
  -- the second of cauchy_distribution(0, b).
  pub draw_uniform : ℕ → ℤ → ℤ → ℤ
  pub draw_normal : ℕ → D
  pub draw_gamma : ℕ → ℤ → D
  pub draw_cauchy : ℕ → D → D
  -- The draw of this number from the distribution that `allocate_bytes` makes for an output case at
  -- a timestep, with its two parameters; and what rand() returns at its call of this number.
  pub roll : ℤ → ℕ → D → D → ℕ → D
  pub rand : ℕ → ℕ
