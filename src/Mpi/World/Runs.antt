-- ===== src/Mpi/World/Runs.antt =====
-- The runs of a graph on the ranks of a communicator, from its tables to its end.
use task_bench.Base.{
  ℕ, zero, suc, ◌≡◌, refl, sym, ◌∙◌, subst, ◌+◌, ◌*◌, ◌≤◌, ◌⊎◌, Bool, true, false, inl, inr, [],
  arith,
}
use task_bench.Base.Int.{ℤ, pos, negsuc, pos_part, ◌*ℤ◌, ◌≤ℤ◌, ◌<ℤ◌}
use task_bench.Base.Outcome.{ok, ok-injective}
use task_bench.Platform.{Platform}
use task_bench.Graph.{TaskGraph}
use task_bench.Graph.Sound.{IsSound}
use task_bench.Graph.Deps.Count.{one_if}
use task_bench.Kernels.Execute.{Scratch}
use task_bench.Mpi.Ranks.{Tables, make_tables}
use task_bench.Mpi.Ranks.Owner.{make_tables-Owned, Owned}
use task_bench.Mpi.Network.{Key, Network}
use task_bench.Mpi.Rank.{key_of}
use task_bench.Mpi.Rank.Keys.{AllOwned, InRow}
use task_bench.Mpi.Rank.Executes.{RunsTasks}
use task_bench.Mpi.World.{World, Step, Reach, later, Continues, here, next}
use task_bench.Mpi.World.Channels.{channel-behind}
use task_bench.Mpi.World.Invariant.{IsConsistent, sent_to}
use task_bench.Mpi.World.Progress.{world_moves}
use task_bench.Mpi.World.Reachable.{Reach-IsConsistent}
use task_bench.Mpi.World.Length.{steps, steps-done, total_le, done_by}

module _ {D : Type 0} ⦃fl : Platform D⦄ {S : Type 0} (net : Network S) (g : TaskGraph D)
    (sound : IsSound g) (radix : pos 0 ≤ℤ g.radix) (n : ℤ) (hn : pos 0 <ℤ n)
    (few : g.max_width ≤ℤ n *ℤ pos 128) (tables : Tables)
    (made : make_tables n g.max_width ≡ ok tables) (scratch : ℤ → Scratch) (memory : ℤ → ℕ → ℕ)
    (runs : RunsTasks g tables scratch memory) (s : S) (quiet : (k : Key) → net.pending s k ≡ [])
    (w : World S) (reached : Reach net g n tables scratch memory s w) where
  hw : pos 0 ≤ℤ g.max_width
  hw = omega (arith, sound.0)

  owned : AllOwned g n hn tables
  owned hw' =
      let (tables', call, all) = make_tables-Owned n g.max_width hn hw' few in
      subst (λ t. (p : ℤ) → pos 0 ≤ℤ p → p <ℤ g.max_width → Owned n g.max_width hn hw' n t p)
        (ok-injective (sym call ∙ made)) all

  consistent : IsConsistent net g n tables scratch w
  consistent =
      Reach-IsConsistent net g sound radix n tables hn hw owned scratch memory runs s w quiet
        reached

  -- There is no deadlock: on a sound graph with a radix that is not negative, with at most 128
  -- points to a rank on average, outputs of at least sixteen bytes, scratch memory of the size that
  -- the graph says with the magic value in front, and a kernel that returns in every task and does
  -- not change the first words of the scratch memory in its rank, in every world that the ranks
  -- reach from an empty network, every rank has done all timesteps or some rank can take a step.
  pub ranks_move :
      ((rank : ℤ) → pos 0 ≤ℤ rank → rank <ℤ n → w.clock rank ≡ pos_part g.timesteps)
      ⊎ ((w' : World S) × Step net g n tables scratch w w')
  ranks_move =
      elim (world_moves net g sound radix n tables hn hw owned scratch memory runs w consistent) [
        | inl all ↦ inl (λ rank h k. omega (
          arith,
          consistent.clock_within rank,
          at_least (w.clock rank) g.timesteps (all rank h k),
        ))
        | inr moved ↦ inr moved
      ]
    where
      at_least : (m : ℕ) (t : ℤ) → t ≤ℤ pos m → pos_part t ≤ m
      at_least m (pos t) h = omega arith
      at_least m (negsuc t) h = omega arith

  -- No message is left over: on a sound graph with a radix that is not negative, with at most 128
  -- points to a rank on average, outputs of at least sixteen bytes, scratch memory of the size that
  -- the graph says with the magic value in front, and a kernel that returns in every task and does
  -- not change the first words of the scratch memory in its rank, in every world that the ranks
  -- reach from an empty network in which all ranks have done all timesteps, the channel between any
  -- two points is empty.
  pub run_takes_all :
      ((rank : ℤ) → pos 0 ≤ℤ rank → rank <ℤ n → w.clock rank ≡ pos_part g.timesteps)
      → (p q : ℤ) → InRow g p
      → InRow g q
      → net.pending w.state (key_of g n tables p q) ≡ []
  run_takes_all all p q hp hq =
      let (r0, r1, _, _, _, _) = owned hw p hp.0 hp.1 in
      let (q0, q1, _, _, _, _) = owned hw q hq.0 hq.1 in
      channel-behind g n tables p q (sent_to net g n tables scratch w (tables.rank_by_point p))
        (w.clock (tables.rank_by_point q)) _ (consistent.channels p q hp hq)
        (none_sent (all _ r0 r1) (all _ q0 q1) (w.posted (tables.rank_by_point p)) refl)
    where
      none_sent :
          w.clock (tables.rank_by_point p) ≡ pos_part g.timesteps
          → w.clock (tables.rank_by_point q) ≡ pos_part g.timesteps
          → (b : Bool) → w.posted (tables.rank_by_point p) ≡ b
          → w.clock (tables.rank_by_point p) + one_if b ≤ w.clock (tables.rank_by_point q)
      none_sent e e' true posted = absurd (omega (arith, e, consistent.posted_within _ posted))
      none_sent e e' false posted = omega (arith, e, e')

  -- A run has at most two steps for each rank and timestep.
  run_ends :
      steps net g n tables scratch memory s w reached ≤ pos_part n * (2 * pos_part g.timesteps)
  run_ends =
      subst (λ m. m ≤ pos_part n * (2 * pos_part g.timesteps))
        (sym (steps-done net g n tables scratch memory s w reached))
        (total_le (done_by w) (pos_part n) (2 * pos_part g.timesteps)
          (λ rank. bounded rank (w.posted rank) refl))
    where
      bounded :
          (rank : ℤ) (b : Bool)
          → w.posted rank ≡ b
          → 2 * w.clock rank + one_if b ≤ 2 * pos_part g.timesteps
      bounded rank true e = omega (arith, consistent.posted_within rank e)
      bounded rank false e = omega (arith, consistent.clock_within rank)

module _ {D : Type 0} ⦃fl : Platform D⦄ {S : Type 0} (net : Network S) (g : TaskGraph D)
    (sound : IsSound g) (radix : pos 0 ≤ℤ g.radix) (n : ℤ) (hn : pos 0 <ℤ n)
    (few : g.max_width ≤ℤ n *ℤ pos 128) (tables : Tables)
    (made : make_tables n g.max_width ≡ ok tables) (scratch : ℤ → Scratch) (memory : ℤ → ℕ → ℕ)
    (runs : RunsTasks g tables scratch memory) (s : S)
    (quiet : (k : Key) → net.pending s k ≡ []) where
  -- The rest of a run, of which at most `left` steps are missing.
  finish :
      (left : ℕ) (w : World S) (reached : Reach net g n tables scratch memory s w)
      → pos_part n * (2 * pos_part g.timesteps)
        ≤ steps net g n tables scratch memory s w reached + left
      → (end : World S) × Continues net g n tables scratch w end
        × ((rank : ℤ) → pos 0 ≤ℤ rank → rank <ℤ n → end.clock rank ≡ pos_part g.timesteps)
  finish zero w reached enough =
      elim (ranks_move net g sound radix n hn few tables made scratch memory runs s quiet w
        reached) [
          | inl all ↦ (w, here, all)
          | inr (w', step) ↦ absurd (
              omega (
                arith,
                run_ends net g sound radix n hn few tables made scratch memory runs s quiet w'
                    (later reached step),
              ))
        ]
  finish (suc left) w reached enough =
      elim (ranks_move net g sound radix n hn few tables made scratch memory runs s quiet w
        reached) [
          | inl all ↦ (w, here, all)
          | inr (w', step) ↦
              let (end, more, all) = finish left w' (later reached step) (omega arith) in
              (end, next step more, all)
        ]

  pub run_finishes :
      (w : World S)
      → Reach net g n tables scratch memory s w
      → (end : World S) × Continues net g n tables scratch w end
        × ((rank : ℤ) → pos 0 ≤ℤ rank → rank <ℤ n → end.clock rank ≡ pos_part g.timesteps)
  run_finishes w reached = finish (pos_part n * (2 * pos_part g.timesteps)) w reached (omega arith)
