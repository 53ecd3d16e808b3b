-- ===== src/Kernels/Copy/Halves.antt =====
-- `copy`: the moves of a part whose size and address are even.
use native.Mathlib.Nat.{mod-eq_of_lt, add-mod_right}
use task_bench.Base.{
  ℕ, ◌≡◌, refl, ap, ◌∙◌, ◌+◌, ◌-◌, ◌*◌, ◌/◌, ◌%◌, ◌^◌, ◌≤◌, ◌<◌, List, [], ◌∷◌, arith, ◌==◌, true,
  Bool-cases, inl, inr,
}
use task_bench.Base.Loops.{Returns}
use task_bench.Kernels.Copy.{Move, prolog_of, aligned_of, move_if, copy}

-- How many bytes are moved.
abbrev pub moved : List Move → ℕ
moved [] = 0
moved (m ∷ rest) = m.size + moved rest

-- Each move is from its source to right behind it, within `bytes` bytes from `base` on.
abbrev pub AllInside : ℕ → ℕ → List Move → Type 0
AllInside base bytes [] = Unit
AllInside base bytes (m ∷ rest) =
    (base ≤ m.src)
    × (m.dst ≡ m.src + m.size)
    × (m.dst + m.size ≤ base + bytes)
    × AllInside base bytes rest

pub prolog_lem :
    (base : ℕ)
    → base % 2 ≡ 0
    → (prolog_of base % 2 ≡ 0) × ((base + prolog_of base) % 32 ≡ 0) × (prolog_of base < 32)
unfolding prolog_of
prolog_lem base h = ground arith

wrap_sub : (a b : ℕ) → b ≤ a → a < 2 ^ 64 → (a + 2 ^ 64 - b) % 2 ^ 64 ≡ a - b
wrap_sub a b h k =
    ap (λ x. x % 2 ^ 64) (omega arith) ∙ add-mod_right (a - b) (2 ^ 64) ∙ mod-eq_of_lt (omega arith)

half_lem : (n p : ℕ) → n % 32 ≡ 0 → (n + p / 64 * 64 / 2) % 32 ≡ 0
half_lem n p h = omega arith

-- The bytes that are moved make up half of what is behind.
abbrev Moves : ℕ → ℕ → ℕ → List Move → Type 0
Moves base bytes n moves = (moved moves * 2 ≡ n) × AllInside base bytes moves

move_lem :
    (base bytes start n k : ℕ) (rest : List Move)
    → base ≤ start
    → start + n ≤ base + bytes
    → n % 2 ≡ 0
    → Moves base bytes k rest
    → Moves base bytes (n + k) (record { dst = start + n / 2; src = start; size = n / 2 } ∷ rest)
move_lem base bytes start n k rest h1 h2 even (sum, inside) =
    (omega (arith, sum), (h1, refl, omega arith, inside))

move_if-Moves :
    (base bytes start n k : ℕ) (rest : List Move)
    → base ≤ start
    → start + n ≤ base + bytes
    → n % 2 ≡ 0
    → Moves base bytes k rest
    → Moves base bytes (n + k) (move_if start n rest)
unfolding move_if
move_if-Moves base bytes start n k rest h1 h2 even moves = elim (Bool-cases (n == 0)) [
  | inl nothing ↦
      let zeroth : n ≡ 0 = ground (arith, nothing) in
      rw nothing (omega (arith, moves.0, zeroth), moves.1)
  | inr some_bytes ↦ rw some_bytes (move_lem base bytes start n k rest h1 h2 even moves)
]

three_parts :
    (base bytes p a e : ℕ)
    → p + a + e ≡ bytes
    → p % 2 ≡ 0
    → a % 2 ≡ 0
    → e % 2 ≡ 0
    → Moves base bytes bytes (
        move_if base p (
          record { dst = base + p + a / 2; src = base + p; size = a / 2 }
          ∷ move_if (base + p + a) e []))
three_parts base bytes p a e sum hp ha he =
    let last =
      move_if-Moves base bytes (base + p + a) e 0 [] (omega arith) (omega (arith, sum)) he
        (refl, tt) in
    let aligned =
      move_lem base bytes (base + p) a (e + 0) _ (omega arith) (omega (arith, sum)) ha last in
    let all =
      move_if-Moves base bytes base p (a + (e + 0)) _ (omega arith) (omega (arith, sum)) hp
        aligned in
    (omega (arith, all.0, sum), all.1)

last_even : (n p : ℕ) → n % 2 ≡ 0 → p % 2 ≡ 0 → (n - p - (n - p) / 64 * 64) % 2 ≡ 0
last_even n p h k = omega arith

-- For an even address and an even size that reaches to the next multiple of 32 and fits a `size_t`,
-- `copy` returns: what it moves is exactly half of the bytes, each part to right behind itself and
-- inside the bytes given.
pub copy_moves_half :
    (base bytes : ℕ)
    → base % 2 ≡ 0
    → bytes % 2 ≡ 0
    → prolog_of base ≤ bytes
    → bytes < 2 ^ 64
    → Returns (copy base bytes) (λ moves. (moved moves * 2 ≡ bytes) × AllInside base bytes moves)
unfolding copy aligned_of
copy_moves_half base bytes even_base even enough small =
    let p = prolog_of base in
    let (even_prolog, at_multiple, _) = prolog_lem base even_base in
    let a = (bytes - p) / 64 * 64 in
    let e = bytes - p - a in
    let sum : p + a + e ≡ bytes = omega arith in
    rw
      (
        wrap_sub bytes p enough small,
        epilog_lem bytes p a (omega arith) small,
        even_base,
        even,
        sum,
        mod-eq_of_lt small,
        at_multiple,
        half_lem (base + p) (bytes - p) at_multiple,
        same_test bytes,
      )
      (
        _,
        refl,
        three_parts base bytes p a e sum even_prolog (omega arith)
            (last_even bytes p even even_prolog),
      )
  where
    same_test : (n : ℕ) → (n == n) ≡ true
    same_test n = ground arith

    epilog_lem :
        (n p a : ℕ) → p + a ≤ n → n < 2 ^ 64 → (n + 2 * 2 ^ 64 - p - a) % 2 ^ 64 ≡ n - p - a
    epilog_lem n p a h k =
        ap (λ x. x % 2 ^ 64) (omega arith)
        ∙ add-mod_right (n - p - a + 2 ^ 64) (2 ^ 64)
        ∙ add-mod_right (n - p - a) (2 ^ 64)
        ∙ mod-eq_of_lt (omega arith)
