-- ===== src/Mpi/Rank/Slots.antt =====
-- What a rank requests for its points.
use task_bench.Base.{
  suc, ◌≡◌, refl, ◌≤◌, Bool, true, false, List, [], ◌∷◌, if◌then◌else◌, arith, length,
}
use task_bench.Base.Int.{ℤ, pos, ◌≤ℤ◌, ◌<ℤ◌}
use task_bench.Platform.{Platform}
use task_bench.Graph.{TaskGraph}
use task_bench.Task.{Input, in_last_row}
use task_bench.Mpi.Ranks.{Tables}
use task_bench.Mpi.Rank.{
  copied, Slot, named_points, in_row, is_own, receive_slots, send_list, Requests,
}
use task_bench.Mpi.Rank.Keys.{AllOwned, InRow, rank-is_own}
use task_bench.Mpi.Rank.Points.{AllPoints}
use task_bench.Mpi.Rank.Due.{deps_at, rdeps_at}
use task_bench.Task.Validate.{output_of}

-- The output of a point that is received at a timestep.
abbrev pub payload : {D : Type 0} → TaskGraph D → ℤ → ℤ → Input
payload g timestep p = output_of timestep (λ dep. g.output_bytes_per_task) p

module _ {D : Type 0} ⦃fl : Platform D⦄ (g : TaskGraph D) (n : ℤ) (tables : Tables)
    (timestep : ℤ) where
  -- What a point requests.
  abbrev pub slots_at : ℤ → List Slot
  slots_at q =
      if in_row g timestep q
      then receive_slots g n tables (tables.rank_by_point q) timestep (payload g timestep) q
          (named_points (deps_at g timestep q))
      else []

  abbrev pub requests_at : ℤ → Requests
  requests_at q = record {
    slots = slots_at q;
    sends =
        if in_last_row g timestep q
        then send_list g n tables (tables.rank_by_point q) timestep q
            (named_points (rdeps_at g timestep q))
        else [];
  }

  -- The rank holds the outputs of its points of the row before.
  abbrev pub HoldsOutputs : ℤ → (ℤ → Input) → Type 0
  HoldsOutputs rank outputs =
      (p : ℤ)
      → InRow g p
      → tables.rank_by_point p ≡ rank
      → in_last_row g timestep p ≡ true
      → outputs p ≡ payload g timestep p

pub length-receive_slots :
    {D : Type 0} (g : TaskGraph D) (n : ℤ) (tables : Tables) (rank timestep : ℤ)
    (outputs : ℤ → Input) (q : ℤ) (ps : List ℤ)
    → length (receive_slots g n tables rank timestep outputs q ps) ≤ length ps
unfolding receive_slots
length-receive_slots g n tables rank timestep outputs q [] = omega arith
length-receive_slots g n tables rank timestep outputs q (p ∷ ps) =
    step (in_last_row g timestep p) (is_own g n tables rank p) _ _ _
      (length-receive_slots g n tables rank timestep outputs q ps)
  where
    step :
        (x y : Bool) (a b : Slot) (more : List Slot)
        → length more ≤ length ps
        → length (if x then (if y then a ∷ more else b ∷ more) else more) ≤ suc (length ps)
    step true true a b more h = omega arith
    step true false a b more h = omega arith
    step false y a b more h = omega arith

module _ {D : Type 0} ⦃fl : Platform D⦄ (g : TaskGraph D) (n : ℤ) (tables : Tables)
    (hn : pos 0 <ℤ n) (hw : pos 0 ≤ℤ g.max_width) (owned : AllOwned g n hn tables) (rank : ℤ)
    (h0 : pos 0 ≤ℤ rank) (timestep : ℤ) (outputs : ℤ → Input)
    (holds : HoldsOutputs g n tables timestep rank outputs) where
  -- It makes no difference to the requests whether the outputs are read or known.
  pub same_slots :
      (q : ℤ) (ps : List ℤ)
      → AllPoints g.max_width ps
      → receive_slots g n tables rank timestep outputs q ps
        ≡ receive_slots g n tables rank timestep (payload g timestep) q ps
  unfolding receive_slots
  same_slots q [] h = refl
  same_slots q (p ∷ ps) (hp, h) =
      step (in_last_row g timestep p) (is_own g n tables rank p) _ _ _ refl refl (same_slots q ps h)
    where
      step :
          (x y : Bool) (b : Slot) (more more' : List Slot)
          → in_last_row g timestep p ≡ x
          → is_own g n tables rank p ≡ y
          → more ≡ more'
          → (if x then (if y then copied (outputs p) ∷ more else b ∷ more) else more) ≡ (
              if x then (if y then copied (payload g timestep p) ∷ more' else b ∷ more') else more')
      step true true b more more' e e' same =
          rw (holds p hp (rank-is_own g n tables hn hw owned rank p hp h0 e') e, same) refl
      step true false b more more' e e' same = rw same refl
      step false y b more more' e e' same = same
