-- ===== src/Mpi/Rank/WaitLoop.antt =====
-- The wait of a rank, over its points.
use task_bench.Base.{
  ℕ, zero, suc, ◌≡◌, refl, sym, ap, ◌∙◌, subst, ◌+◌, ◌⊎◌, false, inl, inr, List, ◌++◌, ◌&&◌, arith,
  replicate, Option, none, some,
}
use mathlib.Core.List.{append_assoc}
use task_bench.Base.Int.{ℤ, pos, ◌+ℤ◌, ◌≤ℤ◌, ◌<ℤ◌, eqb_ℤ, leb_ℤ, ltb_ℤ, int_laws}
use task_bench.Platform.{Platform}
use task_bench.Graph.{TaskGraph}
use task_bench.Graph.Sound.{IsSound}
use task_bench.Graph.Deps.Count.{weight}
use task_bench.Task.{Input}
use task_bench.Mpi.Ranks.{Tables, put}
use task_bench.Mpi.Network.{Network}
use task_bench.Mpi.Rank.{Slot, key_of, resolve, resolve_points}
use task_bench.Mpi.Rank.Keys.{put_at, put_other, before_differs, AllOwned, InRow}
use task_bench.Mpi.Rank.Sends.{replicate-add}
use task_bench.Mpi.Rank.Due.{received}
use task_bench.Mpi.Rank.Slots.{payload, slots_at}
use task_bench.Mpi.Rank.Waits.{inputs_at, AllOrNone, WaitsFor, TakenAt, Ended, resolve_point}
use task_bench.Mpi.Rank.Most.{before_or_at}

none_left : (i q : ℤ) → (leb_ℤ i q && ltb_ℤ q (i +ℤ pos 0)) ≡ false
none_left i q = grind int_laws

later_differs : (i q : ℤ) → i +ℤ pos 1 ≤ℤ q → eqb_ℤ i q ≡ false
later_differs i q h = grind int_laws

one_more :
    (i q : ℤ) (m k : ℕ)
    → weight (eqb_ℤ i q) k + weight (leb_ℤ (i +ℤ pos 1) q && ltb_ℤ q (i +ℤ pos 1 +ℤ pos m)) k
      ≡ weight (leb_ℤ i q && ltb_ℤ q (i +ℤ pos (suc m))) k
one_more i q m k = grind int_laws

at_or_behind : (i q : ℤ) → i ≤ℤ q → (i +ℤ pos 1 ≤ℤ q) ⊎ (q ≡ i)
at_or_behind i q h = elim (before_or_at i q (omega int_laws)) [
  | inl b ↦ inl (omega int_laws)
  | inr e ↦ inr (sym e)
]

module _ {D : Type 0} ⦃fl : Platform D⦄ {S : Type 0} (net : Network S) (g : TaskGraph D)
    (sound : IsSound g) (n : ℤ) (tables : Tables) (hn : pos 0 <ℤ n) (hw : pos 0 ≤ℤ g.max_width)
    (owned : AllOwned g n hn tables) (timestep : ℤ) (ht : pos 0 ≤ℤ timestep)
    (hT : timestep <ℤ g.timesteps) where
  abbrev here_channel : S → ℤ → ℤ → List Input
  here_channel s p q = net.pending s (key_of g n tables p q)

  abbrev Ready : S → ℤ → Type 0
  Ready = AllOrNone net g sound n tables hn hw owned timestep ht hT

  abbrev Lacks : S → ℤ → Type 0
  Lacks = WaitsFor net g sound n tables hn hw owned timestep ht hT

  -- The points from `i` on have been waited for.
  abbrev TakenFrom : ℤ → ℕ → S → S → Type 0
  TakenFrom i m s t =
      (p q : ℤ)
      → InRow g p
      → InRow g q
      → here_channel s p q
        ≡ replicate (weight (leb_ℤ i q && ltb_ℤ q (i +ℤ pos m)) (received g timestep n tables p q))
            (payload g timestep p)
          ++ here_channel t p q

  abbrev InputsFrom : ℤ → ℕ → (ℤ → List Input) → (ℤ → List Input) → Type 0
  InputsFrom i m before inputs =
      ((q : ℤ) → i ≤ℤ q → q <ℤ i +ℤ pos m → inputs q ≡ inputs_at g timestep q)
      × ((q : ℤ) → q <ℤ i → inputs q ≡ before q)

  -- The loop of the rest after one point.
  rest_points :
      (ℤ → List Slot)
      → ℕ
      → ℤ
      → (ℤ → List Input)
      → Option (List Input × S)
      → Option ((ℤ → List Input) × S)
  rest_points requests m i inputs none = none
  rest_points requests m i inputs (some (here, t)) =
      resolve_points net requests m (i +ℤ pos 1) (put i here inputs) t

  resolve_points-step :
      (requests : ℤ → List Slot) (m : ℕ) (i : ℤ) (inputs : ℤ → List Input) (s : S)
      (end : Option (List Input × S))
      → requests i ≡ slots_at g n tables timestep i
      → resolve net (slots_at g n tables timestep i) s ≡ end
      → resolve_points net requests (suc m) i inputs s ≡ rest_points requests m i inputs end
  unfolding resolve_points rest_points
  resolve_points-step requests m i inputs s end e e' =
      ap (λ l. rest_points requests m i inputs (resolve net l s)) e
      ∙ ap (rest_points requests m i inputs) e'

  unfoldable pub Over : (ℤ → List Slot) → ℕ → ℤ → (ℤ → List Input) → S → Type 0
  Over requests m i inputs s =
      ((resolve_points net requests m i inputs s ≡ none)
        × ((q : ℤ) × (i ≤ℤ q) × (q <ℤ i +ℤ pos m) × Lacks s q))
      ⊎ ((inputs' : ℤ → List Input) × (t : S) × (resolve_points net requests m i inputs s
            ≡ some (inputs', t))
          × InputsFrom i m inputs inputs'
          × TakenFrom i m s t)

  unmoved :
      (i : ℤ) (s t : S)
      → TakenAt net g sound n tables hn hw owned timestep ht hT i s t
      → (p q : ℤ) → InRow g p
      → InRow g q
      → i +ℤ pos 1 ≤ℤ q
      → here_channel s p q ≡ here_channel t p q
  unmoved i s t taken p q hp hq h =
      taken p q hp hq
      ∙ ap
          (λ b.
            replicate (weight b (received g timestep n tables p q)) (payload g timestep p)
            ++ here_channel t p q)
          (later_differs i q h)

  InputsFrom-step :
      (i : ℤ) (m : ℕ) (inputs inputs' : ℤ → List Input)
      → InputsFrom (i +ℤ pos 1) m (put i (inputs_at g timestep i) inputs) inputs'
      → InputsFrom i (suc m) inputs inputs'
  InputsFrom-step i m inputs inputs' (now, before) = (
    λ q h k. elim (at_or_behind i q h) [
      | inl b ↦ now q b (omega int_laws)
      | inr e ↦
          before q (subst (λ z. z <ℤ i +ℤ pos 1) (sym e) (omega int_laws))
          ∙ subst (λ z. put i (inputs_at g timestep i) inputs z ≡ inputs_at g timestep z) (sym e)
              (put_at i _ inputs)
    ],
    λ q h. before q (omega int_laws) ∙ put_other i q _ inputs (before_differs q i h),
  )

  TakenFrom-step :
      (i : ℤ) (m : ℕ) (s t u : S)
      → TakenAt net g sound n tables hn hw owned timestep ht hT i s t
      → TakenFrom (i +ℤ pos 1) m t u
      → TakenFrom i (suc m) s u
  TakenFrom-step i m s t u first rest p q hp hq =
      first p q hp hq
      ∙ ap
          (λ l.
            replicate (weight (eqb_ℤ i q) (received g timestep n tables p q)) (payload g timestep p)
            ++ l)
          (rest p q hp hq)
      ∙ sym (
          append_assoc
            (replicate (weight (eqb_ℤ i q) (received g timestep n tables p q))
              (payload g timestep p))
            _ _)
      ∙ ap (λ l. l ++ here_channel u p q)
          (sym (replicate-add _ _ (payload g timestep p))
            ∙ ap (λ k. replicate k (payload g timestep p))
                (one_more i q m (received g timestep n tables p q)))

  from_first :
      (requests : ℤ → List Slot) (m : ℕ) (i : ℤ) (inputs : ℤ → List Input) (s : S)
      → InRow g i
      → requests i ≡ slots_at g n tables timestep i
      → ((q : ℤ)
          → i ≤ℤ q
          → q <ℤ i +ℤ pos (suc m)
          → InRow g q × (requests q ≡ slots_at g n tables timestep q) × Ready s q)
      → Ended net g sound n tables hn hw owned timestep ht hT
          (slots_at g n tables timestep i)
          (inputs_at g timestep i)
          i
          s
      → ((inputs' : ℤ → List Input) (t : S)
          → ((q : ℤ)
              → i +ℤ pos 1 ≤ℤ q
              → q <ℤ i +ℤ pos 1 +ℤ pos m
              → InRow g q × (requests q ≡ slots_at g n tables timestep q) × Ready t q)
          → Over requests m (i +ℤ pos 1) inputs' t)
      → Over requests (suc m) i inputs s
  unfolding Over Ended rest_points
  from_first requests m i inputs s hi e all (inl (stuck, lacks)) next = inl (
    resolve_points-step requests m i inputs s none e stuck,
    (i, omega arith, omega int_laws, lacks),
  )
  from_first requests m i inputs s hi e all (inr (t, done, taken)) next =
      go (next (put i (inputs_at g timestep i) inputs) t still)
    where
      still :
          (q : ℤ)
          → i +ℤ pos 1 ≤ℤ q
          → q <ℤ i +ℤ pos 1 +ℤ pos m
          → InRow g q × (requests q ≡ slots_at g n tables timestep q) × Ready t q
      still q h k =
          let (hq, e', ready) = all q (omega int_laws) (omega int_laws) in
          (
            hq,
            e',
            λ p hp. elim (ready p hp) [
              | inl (rest, e'') ↦ inl (rest, sym (unmoved i s t taken p q hp hq h) ∙ e'')
              | inr empty ↦ inr (sym (unmoved i s t taken p q hp hq h) ∙ empty)
            ],
          )

      go :
          Over requests m (i +ℤ pos 1) (put i (inputs_at g timestep i) inputs) t
          → Over requests (suc m) i inputs s
      go (inl (stuck, (q, h, k, (p, hp, empty, lacks)))) =
          let (hq, _, _) = all q (omega int_laws) (omega int_laws) in
          inl (
            resolve_points-step requests m i inputs s _ e done ∙ stuck,
            (
              q,
              omega int_laws,
              omega int_laws,
              (p, hp, unmoved i s t taken p q hp hq h ∙ empty, lacks),
            ),
          )
      go (inr (inputs', u, done', inputs_now, taken')) = inr (
        inputs',
        u,
        resolve_points-step requests m i inputs s _ e done ∙ done',
        InputsFrom-step i m inputs inputs' inputs_now,
        TakenFrom-step i m s t u taken taken',
      )

  pub resolve_points-Over :
      (requests : ℤ → List Slot) (m : ℕ) (i : ℤ) (inputs : ℤ → List Input) (s : S)
      → ((q : ℤ)
          → i ≤ℤ q
          → q <ℤ i +ℤ pos m
          → InRow g q × (requests q ≡ slots_at g n tables timestep q) × Ready s q)
      → Over requests m i inputs s
  unfolding Over resolve_points
  resolve_points-Over requests zero i inputs s all = inr (
    inputs,
    s,
    refl,
    ((λ q h k. absurd (omega int_laws)), λ q h. refl),
    λ p q hp hq.
        ap
          (λ b.
            replicate (weight b (received g timestep n tables p q)) (payload g timestep p)
            ++ here_channel s p q)
          (sym (none_left i q)),
  )
  resolve_points-Over requests (suc m) i inputs s all =
      let (hi, e, ready) = all i (omega arith) (omega int_laws) in
      from_first requests m i inputs s hi e all
        (resolve_point net g sound n tables hn hw owned timestep ht hT i s hi ready)
        (λ inputs' t all'. resolve_points-Over requests m (i +ℤ pos 1) inputs' t all')
