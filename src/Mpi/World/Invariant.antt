-- ===== src/Mpi/World/Invariant.antt =====
-- What holds in every world that a run reaches.
pub mod Posts
pub mod Executes
use task_bench.Base.{
  ℕ, suc, ◌≡◌, refl, sym, ap, ◌∙◌, subst, ◌+◌, ◌≤◌, Bool, true, false, List, [], ◌++◌, ◌&&◌,
  if◌then◌else◌, arith, replicate,
}
use mathlib.Core.List.{append-nil, append_assoc}
use task_bench.Base.Int.{
  eqb-eq, eqb_self, ℤ, pos, pos_part, ◌+ℤ◌, ◌-ℤ◌, ◌≤ℤ◌, ◌<ℤ◌, eqb_ℤ, leb_ℤ, ltb_ℤ, int_laws,
  eq_of_parts,
}
use task_bench.Platform.{Platform}
use task_bench.Graph.{TaskGraph}
use task_bench.Graph.Shape.{row_before_start}
use task_bench.Graph.Sound.{IsSound}
use task_bench.Graph.Deps.Count.{one_if, weight}
use task_bench.Kernels.Execute.{Scratch}
use task_bench.Task.{Input, in_last_row, written}
use task_bench.Mpi.Ranks.{Tables, put}
use task_bench.Mpi.Network.{Key, Network}
use task_bench.Mpi.Rank.{Slot, is_own, in_row, key_of}
use task_bench.Mpi.Rank.Keys.{AllOwned, InRow, is_own-rank, rank-is_own, bool_ext}
use task_bench.Mpi.Rank.Due.{received, sent, sent-received}
use task_bench.Mpi.Rank.Slots.{payload, requests_at, HoldsOutputs}
use task_bench.Mpi.Rank.Posted.{Posted}
use task_bench.Mpi.Rank.Waited.{Waited, wait_receives-Waited}
use task_bench.Mpi.Rank.Executes.{RunsTasks, Executed, IsMarked}
use task_bench.Mpi.World.{World, start_world}
use task_bench.Mpi.World.Channels.{history, of_timestep, channel-cases}

no_row : (p o w : ℤ) → o ≡ pos 0 → w ≡ pos 0 → (leb_ℤ o p && ltb_ℤ p (o +ℤ w)) ≡ false
no_row p o w e e' = rw (e, e') (grind int_laws)

none_before : {D : Type 0} (g : TaskGraph D) (p : ℤ) → in_last_row g (pos 0) p ≡ true → ⊥
unfolding in_last_row
none_before g p here =
    let (o, w) = row_before_start g (pos 0 -ℤ pos 1) (omega int_laws) in cc (no_row p _ _ o w, here)

pub plus_one : (m : ℕ) → m + 1 ≡ suc m
plus_one m = omega arith

pub plus_zero : (m : ℕ) → m + 0 ≡ m
plus_zero m = omega arith

pub differs : (a b : ℤ) → eqb_ℤ a b ≡ false → ¬ (a ≡ b)
differs a b e h = cc (sym e ∙ ap (λ x. eqb_ℤ x b) h ∙ eqb_self b)

-- The row of a timestep is the last row of the next.
pub same_timestep : (m : ℕ) → pos (suc m) -ℤ pos 1 ≡ pos m
same_timestep m = eq_of_parts (pos (suc m) -ℤ pos 1) (pos m) (omega int_laws)

pub row_test :
    {D : Type 0} (g : TaskGraph D) (m : ℕ) (p : ℤ)
    → in_last_row g (pos (suc m)) p ≡ true
    → in_row g (pos m) p ≡ true
unfolding in_last_row
row_test g m p h = ap (λ t. in_row g t p) (sym (same_timestep m)) ∙ h

module _ {D : Type 0} ⦃fl : Platform D⦄ {S : Type 0} (net : Network S) (g : TaskGraph D) (n : ℤ)
    (tables : Tables) (scratch : ℤ → Scratch) where
  -- How many timesteps a rank has sent the messages of.
  abbrev pub sent_to : World S → ℤ → ℕ
  sent_to w rank = w.clock rank + one_if (w.posted rank)

  -- Every output is the one of its timestep, a rank that has posted has requested the inputs of its
  -- timestep, the scratch memory is marked, and a channel holds what was sent and not taken.
  pub record IsConsistent (w : World S) : Type 0 where
    pub sizes : (p : ℤ) → (w.outputs p).bytes ≡ g.output_bytes_per_task
    pub outputs_now :
        (p : ℤ)
        → InRow g p
        → in_last_row g (pos (w.clock (tables.rank_by_point p))) p ≡ true
        → w.outputs p ≡ payload g (pos (w.clock (tables.rank_by_point p))) p
    pub marked : (rank : ℤ) → IsMarked g tables scratch rank (w.memory rank)
    pub clock_within : (rank : ℤ) → w.clock rank ≤ pos_part g.timesteps
    pub posted_within : (rank : ℤ) → w.posted rank ≡ true → pos (w.clock rank) <ℤ g.timesteps
    pub requested :
        (q : ℤ)
        → InRow g q
        → w.posted (tables.rank_by_point q) ≡ true
        → w.requests q ≡ requests_at g n tables (pos (w.clock (tables.rank_by_point q))) q
    pub channels :
        (p q : ℤ)
        → InRow g p
        → InRow g q
        → history g n tables p q (sent_to w (tables.rank_by_point p))
          ≡ history g n tables p q (w.clock (tables.rank_by_point q))
            ++ net.pending w.state (key_of g n tables p q)

  pub start-IsConsistent :
      (memory : ℤ → ℕ → ℕ) (s : S)
      → ((rank : ℤ) → IsMarked g tables scratch rank (memory rank))
      → ((k : Key) → net.pending s k ≡ [])
      → IsConsistent (start_world g memory s)
  start-IsConsistent memory s marked quiet = record {
    marked = marked;
    sizes = λ p. refl;
    outputs_now = λ p hp here. absurd (none_before g p here);
    clock_within = λ rank. omega arith;
    posted_within = λ rank e. cc;
    requested = λ q hq e. cc;
    channels = λ p q hp hq. sym (quiet (key_of g n tables p q));
  }

module _ {D : Type 0} ⦃fl : Platform D⦄ {S : Type 0} (net : Network S) (g : TaskGraph D)
    (sound : IsSound g) (radix : pos 0 ≤ℤ g.radix) (n : ℤ) (tables : Tables) (hn : pos 0 <ℤ n)
    (hw : pos 0 ≤ℤ g.max_width) (owned : AllOwned g n hn tables) where
  -- Whether a point is a rank's own, by the tables.
  pub own_test :
      (rank p : ℤ)
      → pos 0 ≤ℤ rank
      → InRow g p
      → is_own g n tables rank p ≡ eqb_ℤ (tables.rank_by_point p) rank
  own_test rank p h0 hp =
      bool_ext _ _
        (λ e.
          ap (λ x. eqb_ℤ x rank) (rank-is_own g n tables hn hw owned rank p hp h0 e)
          ∙ eqb_self rank)
        (λ e. is_own-rank g n tables hn hw owned rank p hp (eqb-eq _ _ e))

  -- A rank at its timestep holds the outputs of the one before.
  pub consistent_outputs :
      {scratch : ℤ → Scratch} (w : World S) (rank : ℤ)
      → IsConsistent net g n tables scratch w
      → HoldsOutputs g n tables (pos (w.clock rank)) rank w.outputs
  consistent_outputs {scratch} w rank c p hp own here =
      subst
        (λ r.
          in_last_row g (pos (w.clock r)) p ≡ true → w.outputs p ≡ payload g (pos (w.clock r)) p)
        own (c.outputs_now p hp) here

  -- A rank that has posted meets all of the messages of its timestep on a channel, or none.
  pub consistent_waits :
      {scratch : ℤ → Scratch} (w : World S) (rank : ℤ)
      → pos 0 ≤ℤ rank
      → rank <ℤ n
      → (c : IsConsistent net g n tables scratch w) → (posted : w.posted rank ≡ true)
      → Waited net g sound n tables hn hw owned
          (pos (w.clock rank))
          (omega arith)
          (c.posted_within rank posted)
          rank
          w.requests
          w.state
  consistent_waits {scratch} w rank h0 hr c posted =
      wait_receives-Waited net g sound n tables hn hw owned (pos (w.clock rank)) (omega arith)
        (c.posted_within rank posted) rank h0 hr w.requests w.state
        (λ q hq own. (
          ap (λ r. r.slots)
              (subst
                (λ r. w.posted r ≡ true → w.requests q ≡ requests_at g n tables (pos (w.clock r)) q)
                own (c.requested q hq) posted),
          λ p hp.
              channel-cases g n tables p q
                (sent_to net g n tables scratch w (tables.rank_by_point p)) (w.clock rank) _
                (subst
                  (λ r.
                    history g n tables p q
                      (sent_to net g n tables scratch w (tables.rank_by_point p))
                    ≡ history g n tables p q (w.clock r)
                      ++ net.pending w.state (key_of g n tables p q))
                  own (c.channels p q hp hq)),
        ))
