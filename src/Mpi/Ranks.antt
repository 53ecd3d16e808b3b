-- ===== src/Mpi/Ranks.antt =====
-- mpi/nonblock.cc: the points of each rank, the tables `rank_by_point` and `tag_bits_by_point`, and
-- the tags of the messages.
pub mod Tag
pub mod Owner
use Prim.Native.Nat.{bit_or}
use task_bench.Base.{ℕ, ◌*◌, ◌&&◌, if◌then◌else◌}
use task_bench.Base.Int.{ℤ, pos, pos_part, ◌+ℤ◌, ◌-ℤ◌, ◌*ℤ◌, ◌/ℤ◌, leb_ℤ, ltb_ℤ, eqb_ℤ}
use task_bench.Base.Outcome.{Outcome, ok, fault, out_of_bounds, ◌>>=◌, ◌>>◌, check_that}
use task_bench.Base.Loops.{for_below}

-- rank * max_width / n_ranks, and (rank + 1) * max_width / n_ranks - 1
unfoldable pub first_point : ℤ → ℤ → ℤ → ℤ
first_point n_ranks max_width rank = rank *ℤ max_width /ℤ n_ranks

unfoldable pub last_point : ℤ → ℤ → ℤ → ℤ
last_point n_ranks max_width rank = (rank +ℤ pos 1) *ℤ max_width /ℤ n_ranks -ℤ pos 1

-- The vectors, by their index.
pub record Tables : Type 0 where
  pub rank_by_point : ℤ → ℤ
  pub tag_bits_by_point : ℤ → ℤ

-- `std::vector<int> v(max_width)` is filled with zeros.
abbrev pub no_tables : Tables
no_tables = record { rank_by_point = λ p. pos 0; tag_bits_by_point = λ p. pos 0 }

-- v[p] = x
abbrev pub put : {A : Type 0} → ℤ → A → (ℤ → A) → ℤ → A
put p x v q = if eqb_ℤ q p then x else v q

-- The body of the loop over the points of a rank; a tag has to fit in 7 bits.
unfoldable pub assign_point : ℤ → ℤ → ℤ → ℤ → Tables → Outcome Tables
assign_point max_width r r_first_point p tables =
    let bits = p -ℤ r_first_point in
    if leb_ℤ (pos 0) p && ltb_ℤ p max_width
    then (do
      check_that (leb_ℤ (pos 0) bits && ltb_ℤ bits (pos 128))
      ok (record {
        rank_by_point = put p r tables.rank_by_point;
        tag_bits_by_point = put p bits tables.tag_bits_by_point;
      }))
    else fault out_of_bounds

unfoldable pub assign_rank : ℤ → ℤ → ℤ → Tables → Outcome Tables
assign_rank n_ranks max_width r tables =
    for_below (first_point n_ranks max_width r) (last_point n_ranks max_width r +ℤ pos 1)
      (λ p t. assign_point max_width r (first_point n_ranks max_width r) p t) tables

unfoldable pub make_tables : ℤ → ℤ → Outcome Tables
make_tables n_ranks max_width =
    for_below (pos 0) n_ranks (λ r t. assign_rank n_ranks max_width r t) no_tables

-- (from << 8) | to, on numbers that are not negative
unfoldable pub tag_of : ℤ → ℤ → ℕ
tag_of from to = bit_or (pos_part from * 256) (pos_part to)
