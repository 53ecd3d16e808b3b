-- ===== src/Mpi/Rank/Waits.antt =====
-- The wait of a rank for all that it has requested in a timestep.
use task_bench.Base.{
  ℕ, zero, suc, ◌≡◌, refl, sym, ap, ◌∙◌, subst, ◌<◌, ◌⊎◌, Bool, true, false, not, inl, inr, List,
  [], ◌∷◌, ◌++◌, ◌&&◌, if◌then◌else◌, replicate, none, some,
}
use task_bench.Base.Int.{
  eqb-eq, ℤ, pos, pos_part, ◌+ℤ◌, ◌-ℤ◌, ◌≤ℤ◌, ◌<ℤ◌, eqb_ℤ, int_laws, parts_disjoint,
}
use task_bench.Platform.{Platform}
use task_bench.Graph.{TaskGraph}
use task_bench.Graph.Sound.{IsSound}
use task_bench.Graph.Deps.{Interval, rounds}
use task_bench.Graph.Deps.Count.{weight}
use task_bench.Task.{Input, in_last_row}
use task_bench.Task.Validate.{gather, gathered}
use task_bench.Mpi.Ranks.{Tables}
use task_bench.Mpi.Network.{Network}
use task_bench.Mpi.Rank.{
  Slot, points_from, named_points, in_row, is_own, key_of, receive_slots, resolve,
}
use task_bench.Mpi.Rank.Keys.{occurrences, AllOwned, InRow}
use task_bench.Mpi.Rank.Points.{AllPoints-named_points}
use task_bench.Mpi.Rank.Receives.{expected, resolve-Resolved}
use task_bench.Mpi.Rank.Due.{deps_at, received, lists_at}
use task_bench.Mpi.Rank.Slots.{payload, slots_at}

-- The inputs of a point.
abbrev pub inputs_at : {D : Type 0} → ⦃fl : Platform D⦄ → TaskGraph D → ℤ → ℤ → List Input
inputs_at g timestep q =
    if in_row g timestep q
    then gather g timestep (λ dep. g.output_bytes_per_task) (deps_at g timestep q)
    else []

module _ {D : Type 0} ⦃fl : Platform D⦄ {S : Type 0} (net : Network S) (g : TaskGraph D)
    (sound : IsSound g) (n : ℤ) (tables : Tables) (hn : pos 0 <ℤ n) (hw : pos 0 ≤ℤ g.max_width)
    (owned : AllOwned g n hn tables) (timestep : ℤ) (ht : pos 0 ≤ℤ timestep)
    (hT : timestep <ℤ g.timesteps) where
  abbrev pub due : ℤ → ℤ → List Input
  due p q = replicate (received g timestep n tables p q) (payload g timestep p)

  abbrev pub channel : S → ℤ → ℤ → List Input
  channel s p q = net.pending s (key_of g n tables p q)

  -- Each channel to a point has all its messages of the timestep or none.
  abbrev pub AllOrNone : S → ℤ → Type 0
  AllOrNone s q =
      (p : ℤ)
      → InRow g p
      → ((rest : List Input) × (channel s p q ≡ due p q ++ rest)) ⊎ (channel s p q ≡ [])

  -- A channel to a point has none of the messages that it waits for.
  abbrev pub WaitsFor : S → ℤ → Type 0
  WaitsFor s q = (p : ℤ) × InRow g p × (channel s p q ≡ []) × (0 < received g timestep n tables p q)

  abbrev pub TakenAt : ℤ → S → S → Type 0
  TakenAt q0 s t =
      (p q : ℤ)
      → InRow g p
      → InRow g q
      → channel s p q
        ≡ replicate (weight (eqb_ℤ q0 q) (received g timestep n tables p q)) (payload g timestep p)
          ++ channel t p q

  abbrev local :
      (q : ℤ) (p : ℤ)
      → in_last_row g timestep p ≡ true
      → is_own g n tables (tables.rank_by_point q) p ≡ true
      → InRow g p
      → payload g timestep p ≡ payload g timestep p
  local q p a b c = refl

  abbrev inputs_from : (q : ℤ) → InRow g q → List ℤ → List Input
  inputs_from q hq =
      expected net g n tables hn hw owned timestep (payload g timestep) (payload g timestep) q hq
        (local q)

  inputs_from-append :
      (q : ℤ) (hq : InRow g q) (a b : List ℤ)
      → inputs_from q hq (a ++ b) ≡ inputs_from q hq a ++ inputs_from q hq b
  inputs_from-append q hq [] b = refl
  inputs_from-append q hq (p ∷ a) b =
      step (in_last_row g timestep p) _ _ _ (inputs_from-append q hq a b)
    where
      step :
          (y : Bool) (l m k : List Input)
          → l ≡ m ++ k
          → (if y then payload g timestep p ∷ l else l)
            ≡ (if y then payload g timestep p ∷ m else m) ++ k
      step true l m k e = ap (λ r. payload g timestep p ∷ r) e
      step false l m k e = e

  inputs_from-points_from :
      (q : ℤ) (hq : InRow g q) (m : ℕ) (i : ℤ)
      → inputs_from q hq (points_from m i)
        ≡ gathered g timestep (λ dep. g.output_bytes_per_task) m i
  unfolding points_from
  inputs_from-points_from q hq zero i = refl
  inputs_from-points_from q hq (suc m) i =
      ap (λ l. if in_last_row g timestep i then payload g timestep i ∷ l else l)
        (inputs_from-points_from q hq m (i +ℤ pos 1))

  -- The inputs in the order of the requests are the ones that a task checks.
  inputs_from-gather :
      (q : ℤ) (hq : InRow g q) (deps : List Interval)
      → inputs_from q hq (named_points deps)
        ≡ gather g timestep (λ dep. g.output_bytes_per_task) deps
  inputs_from-gather q hq [] = refl
  inputs_from-gather q hq (span ∷ deps) =
      inputs_from-append q hq (points_from (rounds span.0 span.1) span.0) (named_points deps)
      ∙ ap (λ l. l ++ inputs_from q hq (named_points deps))
          (inputs_from-points_from q hq (rounds span.0 span.1) span.0
            ∙ ap (λ m. gathered g timestep (λ dep. g.output_bytes_per_task) m span.0)
                (same_rounds span.0 span.1))
      ∙ ap
          (λ l.
            gathered g timestep (λ dep. g.output_bytes_per_task)
              (pos_part (span.1 +ℤ pos 1 -ℤ span.0)) span.0
            ++ l)
          (inputs_from-gather q hq deps)
    where
      same_rounds : (a b : ℤ) → rounds a b ≡ pos_part (b +ℤ pos 1 -ℤ a)
      same_rounds a b =
          omega (int_laws, parts_disjoint (b -ℤ a +ℤ pos 1), parts_disjoint (b +ℤ pos 1 -ℤ a))

  unfoldable pub Ended : List Slot → List Input → ℤ → S → Type 0
  Ended slots inputs q s =
      ((resolve net slots s ≡ none) × WaitsFor s q)
      ⊎ ((t : S) × (resolve net slots s ≡ some (inputs, t)) × TakenAt q s t)

  -- A message count at a point of the row, and at one that is not.
  in_row-received :
      (q : ℤ) (b : Bool)
      → in_row g timestep q ≡ b
      → (p : ℤ)
      → received g timestep n tables p q
        ≡ weight b (
            weight
              (in_last_row g timestep p && not (is_own g n tables (tables.rank_by_point q) p))
              (occurrences p (named_points (deps_at g timestep q))))
  in_row-received q b e p =
      ap
        (λ x. weight x (
          weight (in_last_row g timestep p && not (is_own g n tables (tables.rank_by_point q) p))
            (occurrences p (named_points (deps_at g timestep q)))))
        e

  -- What one point takes, as what all points take.
  TakenAt-point :
      (q : ℤ) (s t : S)
      → ((p : ℤ) → InRow g p → channel s p q ≡ due p q ++ channel t p q)
      → ((p q' : ℤ) → InRow g p → InRow g q' → eqb_ℤ q q' ≡ false → channel t p q' ≡ channel s p q')
      → TakenAt q s t
  TakenAt-point q s t taken others p q' hp hq' = step (eqb_ℤ q q') refl
    where
      step :
          (y : Bool)
          → eqb_ℤ q q' ≡ y
          → channel s p q'
            ≡ replicate (weight y (received g timestep n tables p q')) (payload g timestep p)
              ++ channel t p q'
      step true e =
          subst (λ z. channel s p z ≡ due p z ++ channel t p z) (eqb-eq q q' e) (taken p hp)
      step false e = sym (others p q' hp hq' e)

  resolve_row :
      (q : ℤ) (s : S)
      → InRow g q
      → in_row g timestep q ≡ true
      → AllOrNone s q
      → Ended
          (receive_slots g n tables
            (tables.rank_by_point q)
            timestep
            (payload g timestep)
            q
            (named_points (deps_at g timestep q)))
          (gather g timestep (λ dep. g.output_bytes_per_task) (deps_at g timestep q))
          q
          s
  unfolding Ended
  resolve_row q s hq e ready =
      elim (resolve-Resolved net g n tables hn hw owned timestep (payload g timestep)
        (payload g timestep) q hq (local q) (named_points (deps_at g timestep q)) s
        (AllPoints-named_points g.max_width _ (lists_at g sound timestep ht hT q hq).6)
        (λ p hp. elim (ready p hp) [
          | inl (rest, h) ↦ inl (
            rest,
            h ∙ ap (λ k. replicate k (payload g timestep p) ++ rest) (in_row-received q true e p),
          )
          | inr empty ↦ inr empty
        ])) [
          | inl (stuck, (p, hp, empty, due_in)) ↦
              inl (
                stuck,
                (p, hp, empty, subst (λ k. 0 < k) (sym (in_row-received q true e p)) due_in),
              )
          | inr (t, done, (taken, others)) ↦ inr (
            t,
            done ∙ ap (λ l. some (l, t)) (inputs_from-gather q hq _),
            TakenAt-point q s t
                (λ p hp.
                  taken p hp
                  ∙ ap (λ k. replicate k (payload g timestep p) ++ channel t p q)
                      (sym (in_row-received q true e p)))
                others,
          )
        ]

  -- The wait for one point is blocked on an empty channel, or ends with its inputs.
  pub resolve_point :
      (q : ℤ) (s : S)
      → InRow g q
      → AllOrNone s q
      → Ended (slots_at g n tables timestep q) (inputs_at g timestep q) q s
  unfolding resolve Ended
  resolve_point q s hq ready = step (in_row g timestep q) refl
    where
      step :
          (b : Bool)
          → in_row g timestep q ≡ b
          → Ended
              (if b
                then receive_slots g n tables
                    (tables.rank_by_point q)
                    timestep
                    (payload g timestep)
                    q
                    (named_points (deps_at g timestep q))
                else [])
              (if b
                then gather g timestep (λ dep. g.output_bytes_per_task) (deps_at g timestep q)
                else [])
              q
              s
      step false e = inr (
        s,
        refl,
        TakenAt-point q s s
            (λ p hp.
              ap (λ k. replicate k (payload g timestep p) ++ channel s p q)
                (sym (in_row-received q false e p)))
            (λ p q' hp hq' d. refl),
      )
      step true e = resolve_row q s hq e ready
