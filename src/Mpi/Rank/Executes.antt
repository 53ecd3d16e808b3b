-- ===== src/Mpi/Rank/Executes.antt =====
-- The tasks that a rank executes in a timestep.
use task_bench.Base.{
  ℕ, ◌≡◌, refl, sym, ap, ◌∙◌, subst, ◌≤◌, ◌<◌, Bool, true, false, inl, inr, List, [], ◌&&◌,
  if◌then◌else◌, arith, Bool-cases, ltb→lt,
}
use task_bench.Base.Int.{
  ℤ, pos, pos_part, ◌+ℤ◌, ◌-ℤ◌, ◌≤ℤ◌, ◌<ℤ◌, eqb_ℤ, leb_ℤ, ltb_ℤ, max_ℤ, min_ℤ, int_laws,
  le_of_not_ltb, parts_disjoint,
}
use task_bench.Base.Outcome.{Outcome, ok, ok-injective, ◌>>=◌}
use task_bench.Base.Loops.{for_range, for_below, for_below_inv, Returns}
use task_bench.Platform.{Platform}
use task_bench.Graph.{TaskGraph, offset_at_timestep, width_at_timestep}
use task_bench.Graph.Deps.{dependencies}
use task_bench.Graph.Sound.{IsSound}
use task_bench.Kernels.Execute.{Scratch, Work, execute}
use task_bench.Task.{Input, execute_point, magic_value, written}
use task_bench.Task.Validate.{gather}
use task_bench.Task.Accepts.{execute_point-gather}
use task_bench.Mpi.Ranks.{Tables, put, first_point, last_point}
use task_bench.Mpi.Rank.Bytes.{word_at, run_moves}
use task_bench.Mpi.Rank.{in_row, execute_rank}
use task_bench.Mpi.Rank.Keys.{rank_bounds, AllOwned, InRow, put_at, put_other, before_differs}
use task_bench.Mpi.Rank.Due.{deps_at, lists_at}
use task_bench.Mpi.Rank.Most.{before_or_at, loop_point}
use task_bench.Mpi.Rank.Waits.{inputs_at}

module _ {D : Type 0} (g : TaskGraph D) (tables : Tables) (scratch : ℤ → Scratch) where
  -- The first word of the scratch memory of each point of a rank is the magic value.
  abbrev pub IsMarked : ℤ → (ℕ → ℕ) → Type 0
  IsMarked rank memory =
      (p : ℤ)
      → InRow g p
      → tables.rank_by_point p ≡ rank
      → 0 < (scratch p).bytes
      → word_at memory (scratch p).base ≡ magic_value

-- What the tasks of a run need besides their inputs: the scratch memory that is prepared, and a
-- kernel that returns in all of them and leaves the first words of the scratch memory in its rank.
pub record RunsTasks {D : Type 0} ⦃fl : Platform D⦄ (g : TaskGraph D) (tables : Tables)
    (scratch : ℤ → Scratch) (memory : ℤ → ℕ → ℕ) : Type 0 where
  pub room : 16 ≤ g.output_bytes_per_task
  pub sizes : (p : ℤ) → (scratch p).bytes ≡ g.scratch_bytes_per_task
  pub marked : (rank : ℤ) → IsMarked g tables scratch rank (memory rank)
  pub kernel_returns :
      (timestep p : ℤ)
      → pos 0 ≤ℤ timestep
      → timestep <ℤ g.timesteps
      → InRow g p
      → (work : Work) × (execute g.kernel g.graph_index timestep p (scratch p) ≡ ok work)
        × ((q : ℤ)
            → InRow g q
            → tables.rank_by_point q ≡ tables.rank_by_point p
            → 0 < (scratch q).bytes
            → (m : ℕ → ℕ)
            → word_at (run_moves work.moves m) (scratch q).base ≡ word_at m (scratch q).base)

row_test : (o p s : ℤ) → o ≤ℤ p → p <ℤ s → (leb_ℤ o p && ltb_ℤ p s) ≡ true
row_test o p s h k = ground arith

for_below_none :
    {S : Type 0} (first end : ℤ) (body : ℤ → S → Outcome S) (s : S)
    → end <ℤ first
    → for_below first end body s ≡ ok s
unfolding for_range
for_below_none first end body s h = ap (λ m. for_range m first body s) (no_rounds first end h)
  where
    no_rounds : (a b : ℤ) → b <ℤ a → pos_part (b -ℤ a) ≡ 0
    no_rounds a b h = omega (int_laws, parts_disjoint (b -ℤ a))

loop_bounds :
    (f l o s p : ℤ)
    → f ≤ℤ p
    → p ≤ℤ l
    → (leb_ℤ o p && ltb_ℤ p s) ≡ true
    → (max_ℤ f o ≤ℤ p) × (p <ℤ min_ℤ l (s -ℤ pos 1) +ℤ pos 1)
loop_bounds f l o s p h k e = grind int_laws

loop_facts :
    (f l o s p : ℤ)
    → max_ℤ f o ≤ℤ p
    → p <ℤ min_ℤ l (s -ℤ pos 1) +ℤ pos 1
    → (f ≤ℤ p) × (p <ℤ l +ℤ pos 1) × (o ≤ℤ p) × (p <ℤ s)
loop_facts f l o s p h k = grind int_laws

size_after :
    {m : ℕ} (p q : ℤ) (this : Input) (v : ℤ → Input)
    → this.bytes ≡ m
    → (v q).bytes ≡ m
    → (put p this v q).bytes ≡ m
size_after {m} p q this v h k = step (eqb_ℤ q p)
  where
    step : (b : Bool) → (if b then this else v q).bytes ≡ m
    step true = h
    step false = k

module _ {D : Type 0} ⦃fl : Platform D⦄ (g : TaskGraph D) (sound : IsSound g) (n : ℤ)
    (tables : Tables) (hn : pos 0 <ℤ n) (hw : pos 0 ≤ℤ g.max_width) (owned : AllOwned g n hn tables)
    (rank : ℤ) (h0 : pos 0 ≤ℤ rank) (hr : rank <ℤ n) (timestep : ℤ) (ht : pos 0 ≤ℤ timestep)
    (hT : timestep <ℤ g.timesteps) (scratch : ℤ → Scratch) (memory : ℤ → ℕ → ℕ)
    (runs : RunsTasks g tables scratch memory) where
  abbrev offset : ℤ
  offset = offset_at_timestep g timestep

  abbrev stop : ℤ
  stop = offset +ℤ width_at_timestep g timestep

  -- What a point leaves.
  abbrev pub left : ℤ → Input
  left p = record {
    bytes = g.output_bytes_per_task;
    pairs = written timestep p g.output_bytes_per_task;
  }

  execute_inputs :
      (p : ℤ) (bytes : ℕ) (inputs : List Input) (word : ℕ)
      → (0 < (scratch p).bytes → word ≡ magic_value)
      → bytes ≡ g.output_bytes_per_task
      → inputs ≡ inputs_at g timestep p
      → InRow g p
      → offset ≤ℤ p
      → p <ℤ stop
      → (work : Work) × (execute_point g timestep p bytes inputs (scratch p) word
          ≡ ok (written timestep p g.output_bytes_per_task, work))
        × ((q : ℤ)
            → InRow g q
            → tables.rank_by_point q ≡ tables.rank_by_point p
            → 0 < (scratch q).bytes
            → (m : ℕ → ℕ)
            → word_at (run_moves work.moves m) (scratch q).base ≡ word_at m (scratch q).base)
  execute_inputs p bytes inputs word magic size e hp low high =
      let (work, run, keeps) = runs.kernel_returns timestep p ht hT hp in
      let (dset, deps, set, call, done) =
        execute_point-gather g timestep p (λ dep. g.output_bytes_per_task) g.output_bytes_per_task
          (scratch p) word work sound (λ dep. runs.room) ht hT low high runs.room (runs.sizes p)
          magic run in
      let (dset', set', _, _, call', _, _, _) = lists_at g sound timestep ht hT p hp in
      let same_set : dset ≡ dset' = ok-injective (sym set ∙ set') in
      let same : deps ≡ deps_at g timestep p =
        ok-injective (sym call ∙ ap (λ d. dependencies g d p) same_set ∙ call') in
      (
        work,
        ap (λ b. execute_point g timestep p b inputs (scratch p) word) size
            ∙ ap (λ i. execute_point g timestep p g.output_bytes_per_task i (scratch p) word)
                (e
                  ∙ ap
                      (λ b.
                        if b
                        then gather g timestep (λ dep. g.output_bytes_per_task)
                            (deps_at g timestep p)
                        else [])
                      (row_test offset p stop low high)
                  ∙ ap (gather g timestep (λ dep. g.output_bytes_per_task)) (sym same))
            ∙ done,
        keeps,
      )

  abbrev ExecutedBefore : (ℤ → Input) → ℤ → ℤ → (ℤ → Input) × (ℕ → ℕ) → Type 0
  ExecutedBefore before start j (outputs, bytes) =
      ((p : ℤ) → start ≤ℤ p → p <ℤ j → outputs p ≡ left p)
      × ((p : ℤ) → InRow g p → ¬ (tables.rank_by_point p ≡ rank) → outputs p ≡ before p)
      × ((p : ℤ) → (outputs p).bytes ≡ g.output_bytes_per_task)
      × IsMarked g tables scratch rank bytes

  abbrev pub Executed : (ℤ → Input) → (ℤ → Input) × (ℕ → ℕ) → Type 0
  Executed before (outputs, bytes) =
      ((p : ℤ)
        → InRow g p
        → tables.rank_by_point p ≡ rank
        → in_row g timestep p ≡ true
        → outputs p ≡ left p)
      × ((p : ℤ) → InRow g p → ¬ (tables.rank_by_point p ≡ rank) → outputs p ≡ before p)
      × ((p : ℤ) → (outputs p).bytes ≡ g.output_bytes_per_task)
      × IsMarked g tables scratch rank bytes

  -- With their inputs, the tasks of the rank in the row of the timestep run, and each leaves its
  -- timestep and point; the scratch memory keeps its first words.
  pub execute_rank-Executed :
      (inputs : ℤ → List Input) (outputs : ℤ → Input) (bytes : ℕ → ℕ)
      → ((q : ℤ) → InRow g q → tables.rank_by_point q ≡ rank → inputs q ≡ inputs_at g timestep q)
      → ((p : ℤ) → (outputs p).bytes ≡ g.output_bytes_per_task)
      → IsMarked g tables scratch rank bytes
      → Returns (execute_rank g n rank scratch timestep inputs (outputs, bytes)) (Executed outputs)
  unfolding execute_rank
  execute_rank-Executed inputs outputs bytes given sizes marked =
      elim (Bool-cases (ltb_ℤ end start)) [
        | inl e ↦ (
          (outputs, bytes),
          for_below_none start end _ (outputs, bytes) (ltb→lt _ _ e),
          (
            (λ p hp own here. absurd (omega (int_laws, ltb→lt _ _ e, in_loop p hp own here))),
            (λ p hp other. refl),
            sizes,
            marked,
          ),
        )
        | inr e ↦
            let ((outputs', bytes'), loop, (now, others, sizes', marked')) =
              for_below_inv (ExecutedBefore outputs start) _ start end (outputs, bytes)
                (le_of_not_ltb end start e) step
                ((λ p h k. absurd (omega (arith, h, k))), (λ p hp other. refl), sizes, marked) in
            (
              (outputs', bytes'),
              loop,
              (
                (λ p hp own here. now p (in_loop p hp own here).0 (in_loop p hp own here).1),
                others,
                sizes',
                marked',
              ),
            )
      ]
    where
      first : ℤ
      first = first_point n g.max_width rank

      last : ℤ
      last = last_point n g.max_width rank

      start : ℤ
      start = max_ℤ first offset

      end : ℤ
      end = min_ℤ last (stop -ℤ pos 1) +ℤ pos 1

      in_loop :
          (p : ℤ)
          → InRow g p
          → tables.rank_by_point p ≡ rank
          → in_row g timestep p ≡ true
          → (start ≤ℤ p) × (p <ℤ end)
      in_loop p hp own here =
          let (low, high) = rank_bounds g n tables hn hw owned rank p hp own in
          loop_bounds first last offset stop p low high here

      step :
          (p : ℤ) (before : (ℤ → Input) × (ℕ → ℕ))
          → start ≤ℤ p
          → p <ℤ end
          → ExecutedBefore outputs start p before
          → Returns
              (execute_point g timestep p
                  (before.0 p).bytes
                  (inputs p)
                  (scratch p)
                  (word_at before.1 (scratch p).base)
                >>= λ done. ok (
                  put p (record { bytes = (before.0 p).bytes; pairs = done.0 }) before.0,
                  run_moves done.1.moves before.1,
                ))
              (ExecutedBefore outputs start (p +ℤ pos 1))
      step p (outputs', bytes') h k (now, others, sizes', marked') =
          let (hf, hl, low, high) = loop_facts first last offset stop p h k in
          let (hp, own) = loop_point g sound n tables hn hw owned rank h0 hr p hf hl in
          let (work, run, keeps) =
            execute_inputs p _ (inputs p) (word_at bytes' (scratch p).base) (marked' p hp own)
              (sizes' p) (given p hp own) hp low high in
          let this : Input = record {
            bytes = (outputs' p).bytes;
            pairs = written timestep p g.output_bytes_per_task;
          } in
          let is_left : this ≡ left p =
            ap (λ b. record { bytes = b; pairs = written timestep p g.output_bytes_per_task })
              (sizes' p) in
          (
            (put p this outputs', run_moves work.moves bytes'),
            rw run refl,
            (
              (λ q l b. elim (before_or_at q p b) [
                | inl b' ↦ put_other p q this outputs' (before_differs q p b') ∙ now q l b'
                | inr e ↦
                    subst (λ z. put p this outputs' z ≡ left z) (sym e)
                      (put_at p this outputs' ∙ is_left)
              ]),
              (λ q hq other.
                  put_other p q this outputs' (λ e. other (ap tables.rank_by_point e ∙ own))
                  ∙ others q hq other),
              (λ q. size_after p q this outputs' (sizes' p) (sizes' q)),
              λ q hq at size. keeps q hq (at ∙ sym own) size bytes' ∙ marked' q hq at size,
            ),
          )
