-- ===== src/Mpi/World/Reachable.antt =====
-- The invariant at each step of a run, and what a rank can do in a world that keeps it.
use task_bench.Base.{
  ℕ, ◌≡◌, sym, ◌∙◌, subst, true, inl, inr, List, [], ◌++◌, arith, replicate, some,
}
use task_bench.Base.Int.{ℤ, pos, ◌≤ℤ◌, ◌<ℤ◌}
use task_bench.Base.Outcome.{ok-injective}
use task_bench.Base.Loops.{Returns}
use task_bench.Platform.{Platform}
use task_bench.Graph.{TaskGraph}
use task_bench.Graph.Sound.{IsSound}
use task_bench.Graph.Deps.Count.{weight}
use task_bench.Kernels.Execute.{Scratch}
use task_bench.Task.{Input}
use task_bench.Mpi.Ranks.{Tables}
use task_bench.Mpi.Network.{Key, Network}
use task_bench.Mpi.Rank.{is_own, key_of, post_rank, wait_receives, execute_rank}
use task_bench.Mpi.Rank.Keys.{AllOwned, InRow}
use task_bench.Mpi.Rank.Due.{received}
use task_bench.Mpi.Rank.Posted.{Posted, post_rank-Posted}
use task_bench.Mpi.Rank.Waits.{inputs_at}
use task_bench.Mpi.Rank.Slots.{payload}
use task_bench.Mpi.Rank.Executes.{RunsTasks, Executed, execute_rank-Executed}
use task_bench.Mpi.World.{World, Step, post, run, Reach, start, later}
use task_bench.Mpi.World.Invariant.Posts.{post-IsConsistent}
use task_bench.Mpi.World.Invariant.Executes.{run-IsConsistent}
use task_bench.Mpi.World.Invariant.{
  IsConsistent, start-IsConsistent, consistent_outputs, consistent_waits,
}

some-injective : {A : Type 0} {a b : A} → some a ≡ some b → a ≡ b
some-injective e = cc

module _ {D : Type 0} ⦃fl : Platform D⦄ {S : Type 0} (net : Network S) (g : TaskGraph D)
    (sound : IsSound g) (radix : pos 0 ≤ℤ g.radix) (n : ℤ) (tables : Tables) (hn : pos 0 <ℤ n)
    (hw : pos 0 ≤ℤ g.max_width) (owned : AllOwned g n hn tables) (scratch : ℤ → Scratch)
    (memory : ℤ → ℕ → ℕ) (runs : RunsTasks g tables scratch memory) where
  module _ (w : World S) (c : IsConsistent net g n tables scratch w) (rank : ℤ) (h0 : pos 0 ≤ℤ rank)
      (hr : rank <ℤ n) (below : pos (w.clock rank) <ℤ g.timesteps) where
    pub posts :
        Returns
          (post_rank net g n tables rank (pos (w.clock rank)) w.outputs (w.requests, w.state))
          (Posted net g sound n tables hn hw owned rank h0 hr
            (pos (w.clock rank))
            (omega arith)
            below
            w.outputs
            (consistent_outputs net g sound radix n tables hn hw owned w rank c)
            w.requests
            w.state)
    posts =
        post_rank-Posted net g sound n tables hn hw owned rank h0 hr (pos (w.clock rank))
          (omega arith) below w.outputs
          (consistent_outputs net g sound radix n tables hn hw owned w rank c) w.requests w.state

    -- What an ended wait of the rank leaves.
    abbrev WaitEnd : (ℤ → List Input) × S → Type 0
    WaitEnd (inputs, state) =
        ((q : ℤ)
          → InRow g q
          → tables.rank_by_point q ≡ rank
          → inputs q ≡ inputs_at g (pos (w.clock rank)) q)
        × ((p q : ℤ)
            → InRow g p
            → InRow g q
            → net.pending w.state (key_of g n tables p q)
              ≡ replicate
                  (weight (is_own g n tables rank q) (received g (pos (w.clock rank)) n tables p q))
                  (payload g (pos (w.clock rank)) p)
                ++ net.pending state (key_of g n tables p q))

    pub wait_end :
        (inputs : ℤ → List Input) (state : S)
        → w.posted rank ≡ true
        → wait_receives net g n rank w.requests w.state ≡ some (inputs, state)
        → WaitEnd (inputs, state)
    wait_end inputs state posted wait =
        elim (consistent_waits net g sound radix n tables hn hw owned w rank h0 hr c posted) [
          | inl (stuck, _) ↦ cc
          | inr (inputs', state', done, given, takes) ↦
              subst WaitEnd (some-injective (sym done ∙ wait)) (given, takes)
        ]

    pub executes :
        (inputs : ℤ → List Input) (state : S)
        → WaitEnd (inputs, state)
        → Returns
            (execute_rank g n rank scratch (pos (w.clock rank)) inputs (w.outputs, w.memory rank))
            (Executed g sound n tables hn hw owned rank h0 hr
              (pos (w.clock rank))
              (omega arith)
              below
              scratch
              memory
              runs
              w.outputs)
    executes inputs state end =
        execute_rank-Executed g sound n tables hn hw owned rank h0 hr (pos (w.clock rank))
          (omega arith) below scratch memory runs inputs w.outputs (w.memory rank) end.0 c.sizes
          (c.marked rank)

  Step-IsConsistent :
      (w w' : World S)
      → IsConsistent net g n tables scratch w
      → Step net g n tables scratch w w'
      → IsConsistent net g n tables scratch w'
  Step-IsConsistent w w' c (post rank {requests} {state} h0 hr below idle call) =
      let (end, call', posted) = posts w c rank h0 hr below in
      post-IsConsistent net g sound radix n tables hn hw owned w c rank h0 hr requests state below
        idle
        (subst
          (Posted net g sound n tables hn hw owned rank h0 hr (pos (w.clock rank)) (omega arith)
            below w.outputs (consistent_outputs net g sound radix n tables hn hw owned w rank c)
            w.requests w.state)
          (ok-injective (sym call' ∙ call)) posted)
  Step-IsConsistent w w' c
        (run rank {inputs} {state} {outputs} {memory = bytes} h0 hr posted wait sends call) =
      let below = c.posted_within rank posted in
      let end = wait_end w c rank h0 hr below inputs state posted wait in
      let (end', call', executed) = executes w c rank h0 hr below inputs state end in
      run-IsConsistent net g sound radix n tables hn hw owned w scratch memory runs c rank h0 hr
        below state outputs bytes posted end.1
        (subst
          (Executed g sound n tables hn hw owned rank h0 hr (pos (w.clock rank)) (omega arith) below
            scratch memory runs w.outputs)
          (ok-injective (sym call' ∙ call)) executed)

  pub Reach-IsConsistent :
      (s : S) (w : World S)
      → ((k : Key) → net.pending s k ≡ [])
      → Reach net g n tables scratch memory s w
      → IsConsistent net g n tables scratch w
  Reach-IsConsistent s w quiet start =
      start-IsConsistent net g n tables scratch memory s runs.marked quiet
  Reach-IsConsistent s w quiet (later {w = before} reached step) =
      Step-IsConsistent before w (Reach-IsConsistent s before quiet reached) step
