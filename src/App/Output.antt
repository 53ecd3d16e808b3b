-- ===== src/App/Output.antt =====
-- core/core.cc: `allocate_bytes`, the output sizes of the points of a graph. Where a product of `int`s
-- overflows, which is undefined behaviour, or `nstars` is negative, a row has no sizes here.
pub mod Total
use task_bench.Base.{
  ℕ, zero, suc, ◌+◌, ◌-◌, ◌*◌, ◌/◌, ◌%◌, ◌&&◌, not, ◌^◌, Bool, ltb, List, [], ◌∷◌, ◌++◌, Option,
  some, none, replicate, if◌then◌else◌, ◌==◌,
}
use mathlib.Core.List.{map}
use task_bench.Base.Int.{ℤ, pos, pos_part, leb_ℤ, eqb_ℤ}
use task_bench.Platform.{Platform}
use task_bench.Graph.{TaskGraph, offset_at_timestep, width_at_timestep}

abbrev pub nrolls : ℕ
nrolls = 10_000

-- ++p[i]
unfoldable pub bump : ℕ → List ℕ → List ℕ
bump i [] = []
bump zero (x ∷ p) = suc x ∷ p
bump (suc i) (x ∷ p) = x ∷ bump i p

unfoldable pub sum : List ℕ → ℕ
sum [] = 0
sum (x ∷ xs) = x + sum xs

-- The first loop over a row: ((p[i]*nstars/nrolls)+1)*16, with iroll the sum of the shares.
unfoldable pub share : ℕ → ℕ → ℕ
share stars x = x * stars / nrolls

unfoldable pub first_sizes : ℕ → List ℕ → List ℕ
first_sizes stars [] = []
first_sizes stars (x ∷ p) = ((share stars x + 1) * 16) ∷ first_sizes stars p

unfoldable pub first_roll : ℕ → ℕ → List ℕ → ℕ
first_roll stars roll [] = roll
first_roll stars roll (x ∷ p) = first_roll stars (roll + share stars x) p

-- The second loop, which shares out what is left, with `iroll` as it goes; and the last write, which
-- gives the rest to the last point.
unfoldable pub second_sizes : ℕ → ℕ → List ℕ → List ℕ → List ℕ
second_sizes stars roll (x ∷ p) (size ∷ []) =
    let more = share (stars - roll) x in (size + more * 16 + (stars - (roll + more)) * 16) ∷ []
second_sizes stars roll (x ∷ p) (size ∷ sizes) =
    let more = share (stars - roll) x in
    (size + more * 16) ∷ second_sizes stars (roll + more) p sizes
second_sizes stars roll [] sizes = sizes
second_sizes stars roll p [] = []

-- The sizes of a row, from how often each of its points was rolled.
unfoldable pub drawn_sizes : ℕ → List ℕ → List ℕ
drawn_sizes stars p = second_sizes stars (first_roll stars 0 p) p (first_sizes stars p)

-- The `int` that the number of stars is narrowed to, by its pattern.
unfoldable pub nstars_of : ℕ → ℕ → ℕ
nstars_of bytes width = (bytes - 16) * width % 2 ^ 64 / 16 % 2 ^ 32

-- No product p[i]*nstars, nor nstars itself, is above an `int`.
unfoldable pub products_fit : ℕ → List ℕ → Bool
products_fit stars [] = ltb stars (2 ^ 31)
products_fit stars (x ∷ p) = ltb (x * stars) (2 ^ 31) && products_fit stars p

-- The row, of which no size is known where there are none.
abbrev pub known_sizes : ℕ → Option (List ℕ) → List (Option ℕ)
known_sizes n none = replicate n none
known_sizes n (some sizes) = map some sizes

module _ {D : Type 0} ⦃fl : Platform D⦄ where
  -- if ((number>=0)&&(number<width_t)) ++p[int(number)]
  unfoldable pub count_roll : ℤ → D → List ℕ → List ℕ
  count_roll width number p =
      if not (fl.less number (fl.of_long (pos 0))) && fl.less number (fl.of_long width)
      then bump (pos_part (fl.to_long number)) p
      else p

  unfoldable pub roll_loop : ℕ → ℕ → ℤ → (ℕ → D) → List ℕ → List ℕ
  roll_loop zero k width number p = p
  roll_loop (suc n) k width number p =
      roll_loop n (suc k) width number (count_roll width (number k) p)

  -- The two parameters of the distribution of a case; case 3 has constants of its own.
  unfoldable pub roll_params : TaskGraph D → ℤ → ℕ → ℤ → D × D
  roll_params g output_case timestep width =
      let spread_at = λ (k : ℕ). fl.of_long (pos (fl.rand k % pos_part width)) in
      if eqb_ℤ output_case (pos 1)
      then (g.onormal_mu, g.onormal_std)
      else if eqb_ℤ output_case (pos 2)
      then (spread_at (2 * timestep), spread_at (2 * timestep + 1))
      else (fl.of_long (pos 2), fl.of_long (pos 2))

  -- From case 4 on nothing is rolled.
  unfoldable pub rolls : TaskGraph D → ℕ → ℤ → List ℕ
  rolls g timestep width =
      let (mu, sigma) = roll_params g g.output_case timestep width in
      let none_rolled = replicate (pos_part width) 0 in
      if leb_ℤ g.output_case (pos 3)
      then roll_loop nrolls 0 width (fl.roll g.output_case timestep mu sigma) none_rolled
      else none_rolled

  unfoldable pub row_sizes : TaskGraph D → ℕ → ℤ → Option (List ℕ)
  row_sizes g timestep width =
      let n = pos_part width in
      let stars = nstars_of g.output_bytes_per_task n in
      let p = rolls g timestep width in
      if g.output_bytes_per_task == 16
      then some (replicate n 16)
      else if eqb_ℤ g.output_case (pos 0)
      then some (replicate n g.output_bytes_per_task)
      else if products_fit stars p
      then some (drawn_sizes stars p)
      else none

  -- The sizes of a row stand from its offset on; the rest of the array is not initialised.
  unfoldable pub size_row : TaskGraph D → ℕ → List (Option ℕ)
  size_row g timestep =
      let offset = offset_at_timestep g (pos timestep) in
      let width = width_at_timestep g (pos timestep) in
      replicate (pos_part offset) none
      ++ (known_sizes (pos_part width) (row_sizes g timestep width)
          ++ replicate (pos_part g.max_width - (pos_part offset + pos_part width)) none)

  unfoldable pub size_rows : TaskGraph D → ℕ → ℕ → List (List (Option ℕ))
  size_rows g zero timestep = []
  size_rows g (suc n) timestep = size_row g timestep ∷ size_rows g n (suc timestep)

  unfoldable pub allocate_bytes : TaskGraph D → TaskGraph D
  allocate_bytes g = record g { output_bytes_size = some (size_rows g (pos_part g.timesteps) 0) }
