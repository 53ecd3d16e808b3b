-- ===== src/Mpi/World/Invariant/Executes.antt =====
-- A rank that ends its wait and executes keeps the invariant.
use task_bench.Base.{
  ℕ, suc, ◌≡◌, refl, sym, ap, ◌∙◌, subst, ◌+◌, ◌≤◌, Bool, true, false, ◌++◌, if◌then◌else◌, arith,
  replicate,
}
use mathlib.Core.List.{append_assoc}
use task_bench.Base.Int.{eqb-eq, ℤ, pos, pos_part, ◌≤ℤ◌, ◌<ℤ◌, eqb_ℤ}
use task_bench.Platform.{Platform}
use task_bench.Graph.{TaskGraph}
use task_bench.Graph.Sound.{IsSound}
use task_bench.Graph.Deps.Count.{one_if, weight}
use task_bench.Kernels.Execute.{Scratch}
use task_bench.Task.{Input, in_last_row, written}
use task_bench.Mpi.Ranks.{Tables, put}
use task_bench.Mpi.Network.{Network}
use task_bench.Mpi.Rank.{is_own, key_of}
use task_bench.Mpi.Rank.Keys.{AllOwned, InRow}
use task_bench.Mpi.Rank.Due.{received}
use task_bench.Mpi.Rank.Slots.{payload, requests_at}
use task_bench.Mpi.Rank.Executes.{RunsTasks, Executed, IsMarked}
use task_bench.Mpi.World.{World}
use task_bench.Mpi.World.Channels.{history}
use task_bench.Mpi.World.Invariant.{
  sent_to, IsConsistent, own_test, plus_one, plus_zero, differs, row_test, same_timestep,
}

module _ {D : Type 0} ⦃fl : Platform D⦄ {S : Type 0} (net : Network S) (g : TaskGraph D)
    (sound : IsSound g) (radix : pos 0 ≤ℤ g.radix) (n : ℤ) (tables : Tables) (hn : pos 0 <ℤ n)
    (hw : pos 0 ≤ℤ g.max_width) (owned : AllOwned g n hn tables) (w : World S)
    (scratch : ℤ → Scratch) (memory : ℤ → ℕ → ℕ) (runs : RunsTasks g tables scratch memory)
    (c : IsConsistent net g n tables scratch w) (rank : ℤ) (h0 : pos 0 ≤ℤ rank)
    (hr : rank <ℤ n) where
  pub run-IsConsistent :
      (below : pos (w.clock rank) <ℤ g.timesteps)
      → (state : S) (outputs : ℤ → Input) (bytes : ℕ → ℕ) → w.posted rank ≡ true
      → ((p q : ℤ)
          → InRow g p
          → InRow g q
          → net.pending w.state (key_of g n tables p q)
            ≡ replicate
                (weight (is_own g n tables rank q) (received g (pos (w.clock rank)) n tables p q))
                (payload g (pos (w.clock rank)) p)
              ++ net.pending state (key_of g n tables p q))
      → Executed g sound n tables hn hw owned rank h0 hr
          (pos (w.clock rank))
          (omega arith)
          below
          scratch
          memory
          runs
          w.outputs
          (outputs, bytes)
      → IsConsistent net g n tables scratch (record w {
        state = state;
        outputs = outputs;
        memory = put rank bytes w.memory;
        posted = put rank false w.posted;
        clock = put rank (suc (w.clock rank)) w.clock;
      })
  run-IsConsistent below state outputs bytes posted takes (now, others, sizes, marked) = record {
    sizes = sizes;
    marked = λ r. mark r (eqb_ℤ r rank) refl;
    outputs_now = λ p hp here. output p hp (eqb_ℤ (tables.rank_by_point p) rank) refl here;
    clock_within = λ r. clock r (eqb_ℤ r rank);
    posted_within = λ r e. within r (eqb_ℤ r rank) refl e;
    requested = λ q hq e. request q hq (eqb_ℤ (tables.rank_by_point q) rank) refl e;
    channels = λ p q hp hq.
        ap (history g n tables p q)
          (still_sent (tables.rank_by_point p) (eqb_ℤ (tables.rank_by_point p) rank) refl)
        ∙ channel p q hp hq (eqb_ℤ (tables.rank_by_point q) rank) refl;
  }
    where
      mark :
          (r : ℤ) (b : Bool)
          → eqb_ℤ r rank ≡ b
          → IsMarked g tables scratch r (if b then bytes else w.memory r)
      mark r true e = subst (λ x. IsMarked g tables scratch x bytes) (sym (eqb-eq r rank e)) marked
      mark r false e = c.marked r

      clock :
          (r : ℤ) (b : Bool) → (if b then suc (w.clock rank) else w.clock r) ≤ pos_part g.timesteps
      clock r true = omega arith
      clock r false = c.clock_within r

      output :
          (p : ℤ)
          → InRow g p
          → (b : Bool) → eqb_ℤ (tables.rank_by_point p) rank ≡ b
          → in_last_row g
              (pos (if b then suc (w.clock rank) else w.clock (tables.rank_by_point p)))
              p
            ≡ true
          → outputs p
            ≡ payload g (pos (if b then suc (w.clock rank) else w.clock (tables.rank_by_point p))) p
      output p hp true e here =
          now p hp (eqb-eq _ _ e) (row_test g (w.clock rank) p here)
          ∙ ap
              (λ t. record {
                bytes = g.output_bytes_per_task;
                pairs = written t p g.output_bytes_per_task;
              })
              (sym (same_timestep (w.clock rank)))
      output p hp false e here = others p hp (differs _ _ e) ∙ c.outputs_now p hp here

      within :
          (r : ℤ) (b : Bool)
          → eqb_ℤ r rank ≡ b
          → (if b then false else w.posted r) ≡ true
          → pos (if b then suc (w.clock rank) else w.clock r) <ℤ g.timesteps
      within r true e posted' = cc
      within r false e posted' = c.posted_within r posted'

      request :
          (q : ℤ)
          → InRow g q
          → (b : Bool) → eqb_ℤ (tables.rank_by_point q) rank ≡ b
          → (if b then false else w.posted (tables.rank_by_point q)) ≡ true
          → w.requests q
            ≡ requests_at g n tables
                (pos (if b then suc (w.clock rank) else w.clock (tables.rank_by_point q)))
                q
      request q hq true e posted' = cc
      request q hq false e posted' = c.requested q hq posted'

      still_sent :
          (r : ℤ) (b : Bool)
          → eqb_ℤ r rank ≡ b
          → (if b then suc (w.clock rank) else w.clock r) + one_if (if b then false else w.posted r)
            ≡ w.clock r + one_if (w.posted r)
      still_sent r true e =
          plus_zero _
          ∙ sym (plus_one (w.clock rank))
          ∙ ap (λ b. w.clock rank + one_if b) (sym posted)
          ∙ ap (λ x. w.clock x + one_if (w.posted x)) (sym (eqb-eq r rank e))
      still_sent r false e = refl

      takes_at :
          (p q : ℤ)
          → InRow g p
          → InRow g q
          → (b : Bool) → eqb_ℤ (tables.rank_by_point q) rank ≡ b
          → net.pending w.state (key_of g n tables p q)
            ≡ replicate
                (weight b (received g (pos (w.clock rank)) n tables p q))
                (payload g (pos (w.clock rank)) p)
              ++ net.pending state (key_of g n tables p q)
      takes_at p q hp hq b e =
          takes p q hp hq
          ∙ ap
              (λ x.
                replicate (weight x (received g (pos (w.clock rank)) n tables p q))
                  (payload g (pos (w.clock rank)) p)
                ++ net.pending state (key_of g n tables p q))
              (own_test net g sound radix n tables hn hw owned rank q h0 hq ∙ e)

      channel :
          (p q : ℤ)
          → InRow g p
          → InRow g q
          → (b : Bool) → eqb_ℤ (tables.rank_by_point q) rank ≡ b
          → history g n tables p q (sent_to net g n tables scratch w (tables.rank_by_point p))
            ≡ history g n tables p q
                (if b then suc (w.clock rank) else w.clock (tables.rank_by_point q))
              ++ net.pending state (key_of g n tables p q)
      channel p q hp hq true e =
          c.channels p q hp hq
          ∙ ap
              (λ r.
                history g n tables p q (w.clock r) ++ net.pending w.state (key_of g n tables p q))
              (eqb-eq _ _ e)
          ∙ ap (λ l. history g n tables p q (w.clock rank) ++ l) (takes_at p q hp hq true e)
          ∙ sym (append_assoc (history g n tables p q (w.clock rank)) _ _)
      channel p q hp hq false e =
          c.channels p q hp hq
          ∙ ap (λ l. history g n tables p q (w.clock (tables.rank_by_point q)) ++ l)
              (takes_at p q hp hq false e)
