-- ===== src/Mpi/Network.antt =====
-- What the executors take from MPI: messages between ranks, by their source, destination and tag.
use task_bench.Base.{
  true, ℕ, ◌≡◌, Bool, List, [], ◌∷◌, ◌++◌, Option, none, some, ◌&&◌, if◌then◌else◌, ◌==◌,
}
use task_bench.Base.Int.{ℤ, eqb_ℤ}
use task_bench.Task.{Input}

-- The envelope of a message.
pub record Key : Type 0 where
  pub source : ℤ
  pub dest : ℤ
  pub tag : ℕ

abbrev pub same_key : Key → Key → Bool
same_key a b = eqb_ℤ a.source b.source && eqb_ℤ a.dest b.dest && a.tag == b.tag

-- MPI_Isend on a state of the communicator, the completion of an MPI_Irecv, which is `none` while no
-- message matches it, and whether the sends with an envelope are complete, where their receives are
-- started or not. `pending` are the messages sent and not received yet. The laws are what the standard
-- promises: messages with the same envelope do not overtake each other, a receive takes the first of
-- them, and a send completes once its receive is started. Whether it is complete earlier, since the
-- message is buffered, is left open.
pub record Network (S : Type 0) : Type 0 where
  pub pending : S → Key → List Input
  pub isend : Key → Input → S → S
  pub irecv : Key → S → Option (Input × S)
  pub send_done : Key → Bool → S → Bool
  pub sends_complete : (k : Key) (s : S) → send_done k true s ≡ true
  pub pending-isend :
      (k j : Key) (x : Input) (s : S)
      → pending (isend k x s) j ≡ (if same_key k j then pending s j ++ x ∷ [] else pending s j)
  pub irecv_waits : (k : Key) (s : S) → pending s k ≡ [] → irecv k s ≡ none
  pub irecv_first :
      (k : Key) (x : Input) (rest : List Input) (s : S)
      → pending s k ≡ x ∷ rest
      → (t : S) × (irecv k s ≡ some (x, t))
        × ((j : Key) → pending t j ≡ (if same_key k j then rest else pending s j))
