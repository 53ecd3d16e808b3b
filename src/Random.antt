-- ===== src/Random.antt =====
-- core/core_random.c
use task_bench.Base.{ℕ, zero, suc, List, [], ◌∷◌, ◌++◌, ◌/◌, ◌%◌, ◌-◌, ◌^◌}
use task_bench.Base.Int.{ℤ, pos, negsuc}
use task_bench.Platform.{Platform}

-- The pattern of a `long`.
abbrev pub word_of_long : ℤ → ℕ
word_of_long (pos n) = n % 2 ^ 64
word_of_long (negsuc n) = 2 ^ 64 - 1 - n % 2 ^ 64

-- The `n` lowest bytes, the lowest first.
unfoldable pub bytes_of : ℕ → ℕ → List ℕ
bytes_of zero w = []
bytes_of (suc n) w = (w % 256) ∷ bytes_of n (w / 256)

-- The bytes of an array of `long`s.
unfoldable pub bytes_of_longs : List ℤ → List ℕ
bytes_of_longs [] = []
bytes_of_longs (a ∷ rest) = bytes_of 8 (word_of_long a) ++ bytes_of_longs rest

-- Fifteen bytes are written out; the sixteenth is zero.
abbrev hash_key : List ℕ
hash_key = 1 ∷ 2 ∷ 3 ∷ 4 ∷ 5 ∷ 6 ∷ 7 ∷ 8 ∷ 9 ∷ 10 ∷ 11 ∷ 12 ∷ 13 ∷ 14 ∷ 15 ∷ 0 ∷ []

unfoldable pub gen_bits : {D : Type 0} → Platform D → List ℕ → ℕ
gen_bits fl input = fl.siphash input hash_key

-- The seed is an array of `long`s at every call.
unfoldable pub random_uniform : {D : Type 0} ⦃fl : Platform D⦄ → List ℤ → D
random_uniform ⦃fl⦄ input = fl.scale_bits (gen_bits fl (bytes_of_longs input))
