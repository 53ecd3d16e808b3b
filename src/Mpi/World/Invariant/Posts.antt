-- ===== src/Mpi/World/Invariant/Posts.antt =====
-- A rank that posts keeps the invariant.
use task_bench.Base.{
  ◌≡◌, refl, sym, ap, ◌∙◌, subst, ◌+◌, Bool, true, false, ◌++◌, if◌then◌else◌, arith, replicate,
}
use mathlib.Core.List.{append-nil, append_assoc}
use task_bench.Base.Int.{eqb-eq, ℤ, pos, ◌≤ℤ◌, ◌<ℤ◌, eqb_ℤ}
use task_bench.Platform.{Platform}
use task_bench.Graph.{TaskGraph}
use task_bench.Graph.Sound.{IsSound}
use task_bench.Graph.Deps.Count.{one_if, weight}
use task_bench.Kernels.Execute.{Scratch}
use task_bench.Mpi.Ranks.{Tables, put}
use task_bench.Mpi.Network.{Network}
use task_bench.Mpi.Rank.{Requests, key_of}
use task_bench.Mpi.Rank.Keys.{AllOwned, InRow}
use task_bench.Mpi.Rank.Due.{sent, sent-received}
use task_bench.Mpi.Rank.Slots.{payload, requests_at}
use task_bench.Mpi.Rank.Posted.{Posted}
use task_bench.Mpi.World.{World}
use task_bench.Mpi.World.Channels.{history, of_timestep}
use task_bench.Mpi.World.Invariant.{
  IsConsistent, own_test, consistent_outputs, plus_one, plus_zero, differs,
}

module _ {D : Type 0} ⦃fl : Platform D⦄ {S : Type 0} (net : Network S) (g : TaskGraph D)
    (sound : IsSound g) (radix : pos 0 ≤ℤ g.radix) (n : ℤ) (tables : Tables) (hn : pos 0 <ℤ n)
    (hw : pos 0 ≤ℤ g.max_width) (owned : AllOwned g n hn tables) {scratch : ℤ → Scratch}
    (w : World S) (c : IsConsistent net g n tables scratch w) (rank : ℤ) (h0 : pos 0 ≤ℤ rank)
    (hr : rank <ℤ n) where
  -- A rank posts.
  pub post-IsConsistent :
      (requests : ℤ → Requests) (state : S)
      → (below : pos (w.clock rank) <ℤ g.timesteps) → w.posted rank ≡ false
      → Posted net g sound n tables hn hw owned rank h0 hr
          (pos (w.clock rank))
          (omega arith)
          below
          w.outputs
          (consistent_outputs net g sound radix n tables hn hw owned w rank c)
          w.requests
          w.state
          (requests, state)
      → IsConsistent net g n tables scratch
          (record w { state = state; requests = requests; posted = put rank true w.posted })
  post-IsConsistent requests state below idle (own, other, sends) = record {
    sizes = c.sizes;
    marked = c.marked;
    outputs_now = c.outputs_now;
    clock_within = c.clock_within;
    posted_within = λ r e. within r (eqb_ℤ r rank) refl e;
    requested = λ q hq e. request q hq (eqb_ℤ (tables.rank_by_point q) rank) refl e;
    channels = λ p q hp hq. channel p q hp hq (eqb_ℤ (tables.rank_by_point p) rank) refl;
  }
    where
      within :
          (r : ℤ) (b : Bool)
          → eqb_ℤ r rank ≡ b
          → (if b then true else w.posted r) ≡ true
          → pos (w.clock r) <ℤ g.timesteps
      within r true e posted =
          subst (λ x. pos (w.clock x) <ℤ g.timesteps) (sym (eqb-eq r rank e)) below
      within r false e posted = c.posted_within r posted

      request :
          (q : ℤ)
          → InRow g q
          → (b : Bool) → eqb_ℤ (tables.rank_by_point q) rank ≡ b
          → (if b then true else w.posted (tables.rank_by_point q)) ≡ true
          → requests q ≡ requests_at g n tables (pos (w.clock (tables.rank_by_point q))) q
      request q hq true e posted =
          own q hq (eqb-eq _ _ e)
          ∙ ap (λ r. requests_at g n tables (pos (w.clock r)) q) (sym (eqb-eq _ _ e))
      request q hq false e posted = other q hq (differs _ _ e) ∙ c.requested q hq posted

      sends_from :
          (p q : ℤ)
          → InRow g p
          → InRow g q
          → (b : Bool) → eqb_ℤ (tables.rank_by_point p) rank ≡ b
          → net.pending state (key_of g n tables p q)
            ≡ net.pending w.state (key_of g n tables p q)
              ++ replicate
                  (weight b (sent g (pos (w.clock rank)) n tables p q))
                  (payload g (pos (w.clock rank)) p)
      sends_from p q hp hq b e =
          sends p q hp hq
          ∙ ap
              (λ x.
                net.pending w.state (key_of g n tables p q)
                ++ replicate (weight x (sent g (pos (w.clock rank)) n tables p q))
                    (payload g (pos (w.clock rank)) p))
              (own_test net g sound radix n tables hn hw owned rank p h0 hp ∙ e)

      channel :
          (p q : ℤ)
          → InRow g p
          → InRow g q
          → (b : Bool) → eqb_ℤ (tables.rank_by_point p) rank ≡ b
          → history g n tables p q (
              w.clock (tables.rank_by_point p)
              + one_if (if b then true else w.posted (tables.rank_by_point p)))
            ≡ history g n tables p q (w.clock (tables.rank_by_point q))
              ++ net.pending state (key_of g n tables p q)
      channel p q hp hq true e =
          ap (history g n tables p q) (plus_one (w.clock (tables.rank_by_point p)))
          ∙ ap (λ l. l ++ of_timestep g n tables p q (w.clock (tables.rank_by_point p)))
              (ap (history g n tables p q) (
                  sym (
                    ap (λ b. w.clock (tables.rank_by_point p) + one_if b)
                      (ap w.posted (eqb-eq _ _ e) ∙ idle)
                    ∙ plus_zero (w.clock (tables.rank_by_point p))))
                ∙ c.channels p q hp hq)
          ∙ append_assoc (history g n tables p q (w.clock (tables.rank_by_point q))) _ _
          ∙ ap (λ l. history g n tables p q (w.clock (tables.rank_by_point q)) ++ l)
              (ap
                  (λ r.
                    net.pending w.state (key_of g n tables p q)
                    ++ of_timestep g n tables p q (w.clock r))
                  (eqb-eq _ _ e)
                ∙ sym (
                    sends_from p q hp hq true e
                    ∙ ap
                        (λ m.
                          net.pending w.state (key_of g n tables p q)
                          ++ replicate m (payload g (pos (w.clock rank)) p))
                        (sent-received g sound (pos (w.clock rank)) (omega arith) below radix n
                          tables hn owned p q hp hq)))
      channel p q hp hq false e =
          c.channels p q hp hq
          ∙ ap (λ l. history g n tables p q (w.clock (tables.rank_by_point q)) ++ l)
              (sym (sends_from p q hp hq false e ∙ append-nil _))
