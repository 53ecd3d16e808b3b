-- ===== src/Graph/Deps/Count.antt =====
-- How often a list of intervals names a point.
use task_bench.Base.{
  ℕ, ◌+◌, ◌≡◌, refl, Bool, true, false, List, [], ◌∷◌, ◌&&◌, if◌then◌else◌, arith,
}
use task_bench.Base.Int.{ℤ, ◌≤ℤ◌, leb_ℤ}
use task_bench.Graph.Deps.{Interval, write_if}

abbrev pub one_if : Bool → ℕ
one_if b = if b then 1 else 0

-- The number where the test holds, and nothing elsewhere.
abbrev pub weight : Bool → ℕ → ℕ
weight x n = if x then n else 0

abbrev pub within : ℤ → Interval → Bool
within q (first, last) = leb_ℤ first q && leb_ℤ q last

abbrev pub count : ℤ → List Interval → ℕ
count q [] = 0
count q (i ∷ rest) = one_if (within q i) + count q rest

-- The order facts behind a guarded test.
abbrev pub Inside : Bool → ℤ → Interval → Type 0
Inside b q (first, last) = (b ≡ true) × (first ≤ℤ q) × (q ≤ℤ last)

within-Inside : (b : Bool) (q : ℤ) (i : Interval) → (b && within q i) ≡ true → Inside b q i
within-Inside b q (first, last) h = ground arith

Inside-within : (b : Bool) (q : ℤ) (i : Interval) → Inside b q i → (b && within q i) ≡ true
Inside-within b q (first, last) h = ground arith

one_if-ext : (a b : Bool) → (a ≡ true → b ≡ true) → (b ≡ true → a ≡ true) → one_if a ≡ one_if b
one_if-ext true true f g = refl
one_if-ext true false f g = cc (f refl)
one_if-ext false true f g = cc (g refl)
one_if-ext false false f g = refl

-- Two guarded intervals count alike when the facts behind them follow from each other.
pub one_if-within :
    (b c : Bool) (q r : ℤ) (i j : Interval)
    → (Inside b q i → Inside c r j)
    → (Inside c r j → Inside b q i)
    → one_if (b && within q i) ≡ one_if (c && within r j)
one_if-within b c q r i j f g =
    one_if-ext _ _ (λ h. Inside-within c r j (f (within-Inside b q i h)))
      (λ h. Inside-within b q i (g (within-Inside c r j h)))

abbrev pub Between : ℤ → Interval → Type 0
Between q (first, last) = (first ≤ℤ q) × (q ≤ℤ last)

guarded : (q : ℤ) (i : Interval) → Between q i → Inside true q i
guarded q i h = (refl, h.0, h.1)

-- One interval against one.
pub count-single :
    (q r : ℤ) (i j : Interval)
    → (Between q i → Between r j)
    → (Between r j → Between q i)
    → count q (i ∷ []) ≡ count r (j ∷ [])
count-single q r i j f g = omega (
  arith,
  one_if-within true true q r i j (λ h. guarded r j (f (h.1, h.2)))
      (λ h. guarded q i (g (h.1, h.2))),
)

pub count-write_if :
    (q : ℤ) (b : Bool) (i : Interval) (rest : List Interval)
    → count q (write_if b i rest) ≡ one_if (b && within q i) + count q rest
count-write_if q true i rest = refl
count-write_if q false i rest = omega arith
