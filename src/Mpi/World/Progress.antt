-- ===== src/Mpi/World/Progress.antt =====
-- That the ranks of a run never wait for each other for good.
use task_bench.Base.{
  ℕ, zero, suc, ◌≡◌, refl, sym, ap, ◌∙◌, subst, ◌+◌, ◌≤◌, ◌<◌, ◌⊎◌, Bool, true, false, inl, inr,
  List, [], ◌++◌, arith, replicate, Bool-cases, leb, ltb, leb→le, ltb→lt,
}
use task_bench.Base.Int.{ℤ, pos, negsuc, ◌≤ℤ◌, ◌<ℤ◌, ltb_ℤ, int_laws, eq_of_parts, le_of_not_ltb}
use task_bench.Platform.{Platform}
use task_bench.Graph.{TaskGraph}
use task_bench.Graph.Sound.{IsSound}
use task_bench.Graph.Deps.Count.{one_if}
use task_bench.Kernels.Execute.{Scratch}
use task_bench.Mpi.Ranks.{Tables}
use task_bench.Mpi.Network.{Network}
use task_bench.Mpi.Rank.{key_of}
use task_bench.Mpi.Rank.Keys.{AllOwned, InRow}
use task_bench.Mpi.Rank.Due.{received}
use task_bench.Mpi.Rank.Most.{before_or_at}
use task_bench.Mpi.Rank.SendsDone.{wait_sends-cases}
use task_bench.Mpi.Rank.Slots.{requests_at}
use task_bench.Mpi.Rank.Executes.{RunsTasks}
use task_bench.Mpi.World.{World, Step, post, run, has_started}
use task_bench.Mpi.World.Channels.{history, channel-ahead}
use task_bench.Mpi.World.Invariant.{sent_to, IsConsistent, consistent_waits}
use task_bench.Mpi.World.Reachable.{posts, executes}

not_before : (a b : ℕ) → ltb a b ≡ false → b ≤ a
not_before a b e = ground arith

more : (a b : ℕ) → leb a b ≡ false → b < a
more a b e = ground arith

-- One of the first ranks with the least number.
least :
    (f : ℤ → ℕ) (m : ℕ)
    → (r : ℤ) × (pos 0 ≤ℤ r)
      × (r <ℤ pos (suc m))
      × ((s : ℤ) → pos 0 ≤ℤ s → s <ℤ pos (suc m) → f r ≤ f s)
least f zero = (
  pos 0,
  omega arith,
  omega arith,
  λ s h k. subst (λ x. f (pos 0) ≤ f x) (eq_of_parts (pos 0) s (omega arith)) (omega arith),
)
least f (suc m) =
    let (r, h0, h1, low) = least f m in
    elim (Bool-cases (leb (f r) (f (pos (suc m))))) [
      | inl e ↦ (
        r,
        h0,
        omega arith,
        λ s h k. elim (before_or_at s (pos (suc m)) (omega int_laws)) [
          | inl b ↦ low s h b
          | inr same ↦ subst (λ x. f r ≤ f x) (sym same) (leb→le _ _ e)
        ],
      )
      | inr e ↦ (
        pos (suc m),
        omega arith,
        omega arith,
        λ s h k. elim (before_or_at s (pos (suc m)) (omega int_laws)) [
          | inl b ↦ omega (arith, low s h b, more (f r) (f (pos (suc m))) e)
          | inr same ↦ subst (λ x. f (pos (suc m)) ≤ f x) (sym same) (omega arith)
        ],
      )
    ]

least_rank :
    (f : ℤ → ℕ) (n : ℤ)
    → pos 0 <ℤ n
    → (r : ℤ) × (pos 0 ≤ℤ r) × (r <ℤ n) × ((s : ℤ) → pos 0 ≤ℤ s → s <ℤ n → f r ≤ f s)
least_rank f (pos zero) h = absurd (omega arith)
least_rank f (pos (suc m)) h = least f m
least_rank f (negsuc m) h = absurd (omega arith)

none_of_some : {A : Type 0} (k : ℕ) (x : A) (rest : List A) → 0 < k → [] ≡ replicate k x ++ rest → ⊥
none_of_some zero x rest h e = omega arith
none_of_some (suc k) x rest h e = cc

-- A rank that has not started the receives of a timestep that it has come to has not posted.
not_started :
    {S : Type 0} (w : World S) (m : ℕ) (d : ℤ)
    → m ≤ w.clock d
    → has_started w m d ≡ false
    → (w.clock d ≡ m) × (w.posted d ≡ false)
not_started w m d h e = ground arith

module _ {D : Type 0} ⦃fl : Platform D⦄ {S : Type 0} (net : Network S) (g : TaskGraph D)
    (sound : IsSound g) (radix : pos 0 ≤ℤ g.radix) (n : ℤ) (tables : Tables) (hn : pos 0 <ℤ n)
    (hw : pos 0 ≤ℤ g.max_width) (owned : AllOwned g n hn tables) (scratch : ℤ → Scratch)
    (memory : ℤ → ℕ → ℕ) (runs : RunsTasks g tables scratch memory) where
  -- In a consistent world, every rank that has not done all timesteps can take a step, or there is
  -- another one that can.
  pub world_moves :
      (w : World S)
      → IsConsistent net g n tables scratch w
      → ((rank : ℤ) → pos 0 ≤ℤ rank → rank <ℤ n → g.timesteps ≤ℤ pos (w.clock rank))
        ⊎ ((w' : World S) × Step net g n tables scratch w w')
  world_moves w c =
      let (rank, h0, hr, low) = least_rank w.clock n hn in
      elim (Bool-cases (ltb_ℤ (pos (w.clock rank)) g.timesteps)) [
        | inl e ↦ inr (moves rank h0 hr low (ltb→lt _ _ e) (w.posted rank) refl)
        | inr e ↦
            inl
              (λ s h k. omega (arith, low s h k, le_of_not_ltb (pos (w.clock rank)) g.timesteps e))
      ]
    where
      post_now :
          (rank : ℤ)
          → pos 0 ≤ℤ rank
          → rank <ℤ n
          → pos (w.clock rank) <ℤ g.timesteps
          → w.posted rank ≡ false
          → (w' : World S) × Step net g n tables scratch w w'
      post_now rank h0 hr below idle =
          let ((requests, state), call, _) =
            posts net g sound radix n tables hn hw owned scratch memory runs w c rank h0 hr below in
          (_, post rank h0 hr below idle call)

      not_ahead :
          (rank q p : ℤ)
          → tables.rank_by_point q ≡ rank
          → InRow g q
          → InRow g p
          → net.pending w.state (key_of g n tables p q) ≡ []
          → 0 < received g (pos (w.clock rank)) n tables p q
          → sent_to net g n tables scratch w (tables.rank_by_point p) ≤ w.clock rank
      not_ahead rank q p own hq hp empty due =
          elim (Bool-cases
            (ltb (w.clock rank) (sent_to net g n tables scratch w (tables.rank_by_point p)))) [
              | inl e ↦
                  let (rest, there) =
                    channel-ahead g n tables p q
                      (sent_to net g n tables scratch w (tables.rank_by_point p)) (w.clock rank) _
                      (subst
                        (λ r.
                          history g n tables p q
                            (sent_to net g n tables scratch w (tables.rank_by_point p))
                          ≡ history g n tables p q (w.clock r)
                            ++ net.pending w.state (key_of g n tables p q))
                        own (c.channels p q hp hq))
                      (ltb→lt _ _ e) in
                  absurd (none_of_some _ _ rest due (sym empty ∙ there))
              | inr e ↦ not_before (w.clock rank) _ e
            ]

      idle :
          (rank p : ℤ)
          → w.clock rank ≤ w.clock (tables.rank_by_point p)
          → sent_to net g n tables scratch w (tables.rank_by_point p) ≤ w.clock rank
          → (b : Bool) → w.posted (tables.rank_by_point p) ≡ b
          → w.posted (tables.rank_by_point p) ≡ false
      idle rank p h behind false e = e
      idle rank p h behind true e =
          absurd (omega (arith, h, behind, ap (λ b. w.clock (tables.rank_by_point p) + one_if b) e))

      moves :
          (rank : ℤ)
          → pos 0 ≤ℤ rank
          → rank <ℤ n
          → ((s : ℤ) → pos 0 ≤ℤ s → s <ℤ n → w.clock rank ≤ w.clock s)
          → pos (w.clock rank) <ℤ g.timesteps
          → (b : Bool) → w.posted rank ≡ b
          → (w' : World S) × Step net g n tables scratch w w'
      moves rank h0 hr low below false idle = post_now rank h0 hr below idle
      moves rank h0 hr low below true posted =
          elim (consistent_waits net g sound radix n tables hn hw owned w rank h0 hr c posted) [
            | inl (stuck, (q, hq, own, (p, hp, empty, due))) ↦
                let (r0, r1, _, _, _, _) = owned hw p hp.0 hp.1 in
                let behind = not_ahead rank q p own hq hp empty due in
                post_now (tables.rank_by_point p) r0 r1 (omega (arith, behind, below))
                  (idle rank p (low _ r0 r1) behind (w.posted (tables.rank_by_point p)) refl)
            | inr (inputs, state, done, given, takes) ↦
                elim (wait_sends-cases net g sound n tables hn hw owned (pos (w.clock rank))
                  (omega arith) below rank h0 hr (has_started w (w.clock rank)) w.requests w.state
                  (λ q hq own.
                    subst
                      (λ r.
                        w.posted r ≡ true
                        → w.requests q ≡ requests_at g n tables (pos (w.clock r)) q)
                      own (c.requested q hq) posted)) [
                        | inl sends ↦
                            let ((outputs, bytes), call, _) =
                              executes net g sound radix n tables hn hw owned scratch memory runs w
                                c rank h0 hr below inputs state (given, takes) in
                            (_, run rank h0 hr posted done sends call)
                        | inr (d, d0, dn, late) ↦
                            let (same, idle) = not_started w (w.clock rank) d (low d d0 dn) late in
                            post_now d d0 dn (omega (arith, same, below)) idle
                      ]
          ]
