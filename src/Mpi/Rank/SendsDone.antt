-- ===== src/Mpi/Rank/SendsDone.antt =====
-- What keeps a rank waiting for its sends.
use task_bench.Base.{
  ℕ, zero, suc, ◌≡◌, refl, sym, subst, ◌⊎◌, Bool, true, false, inl, inr, not, List, [], ◌∷◌, ◌&&◌,
  if◌then◌else◌, Bool-cases,
}
use task_bench.Base.Int.{ℤ, pos, ◌+ℤ◌, ◌≤ℤ◌, ◌<ℤ◌, int_laws}
use task_bench.Platform.{Platform}
use task_bench.Graph.{TaskGraph}
use task_bench.Graph.Sound.{IsSound}
use task_bench.Graph.Deps.{rounds}
use task_bench.Task.{in_last_row}
use task_bench.Mpi.Ranks.{Tables, first_point, last_point}
use task_bench.Mpi.Network.{Key, Network}
use task_bench.Mpi.Rank.{
  Requests, in_row, is_own, key_of, send_list, all_done, points_done, wait_sends,
}
use task_bench.Mpi.Rank.Keys.{AllOwned, InRow}
use task_bench.Mpi.Rank.Points.{AllPoints, AllPoints-named_points}
use task_bench.Mpi.Rank.Due.{lists_at}
use task_bench.Mpi.Rank.Slots.{requests_at}
use task_bench.Mpi.Rank.Most.{loop_point, first_stop}
use task_bench.Mpi.Rank.Waited.{before_stop}

-- Messages to ranks of the communicator.
abbrev AllToRanks : ℤ → List Key → Type 0
AllToRanks n [] = Unit
AllToRanks n (key ∷ rest) = ((pos 0 ≤ℤ key.dest) × (key.dest <ℤ n)) × AllToRanks n rest

-- A rank that has not started its receives.
abbrev pub IsLate : ℤ → (ℤ → Bool) → Type 0
IsLate n started = (d : ℤ) × (pos 0 ≤ℤ d) × (d <ℤ n) × (started d ≡ false)

module _ {S : Type 0} (net : Network S) (n : ℤ) (started : ℤ → Bool) (s : S) where
  all_done-cases :
      (keys : List Key)
      → AllToRanks n keys
      → (all_done net started keys s ≡ true) ⊎ IsLate n started
  unfolding all_done
  all_done-cases [] h = inl refl
  all_done-cases (key ∷ rest) ((low, high), h) = elim (Bool-cases (started key.dest)) [
    | inl e ↦ elim (all_done-cases rest h) [
      | inl e' ↦ inl (rw (e, net.sends_complete key s, e') refl)
      | inr late ↦ inr late
    ]
    | inr e ↦ inr (key.dest, low, high, e)
  ]

  points_done-cases :
      (sends : ℤ → List Key) (m : ℕ) (i : ℤ)
      → ((q : ℤ) → i ≤ℤ q → q <ℤ i +ℤ pos m → AllToRanks n (sends q))
      → (points_done net started sends m i s ≡ true) ⊎ IsLate n started
  unfolding points_done
  points_done-cases sends zero i h = inl refl
  points_done-cases sends (suc m) i h =
      elim (all_done-cases (sends i) (h i (omega int_laws) (omega int_laws))) [
        | inl e ↦
            elim (points_done-cases sends m (i +ℤ pos 1)
              (λ q l k. h q (omega int_laws) (omega int_laws))) [
                | inl e' ↦ inl (rw (e, e') refl)
                | inr late ↦ inr late
              ]
        | inr late ↦ inr late
      ]

module _ {D : Type 0} (g : TaskGraph D) (n : ℤ) (tables : Tables) (hn : pos 0 <ℤ n)
    (hw : pos 0 ≤ℤ g.max_width) (owned : AllOwned g n hn tables) where
  send_list-AllToRanks :
      (rank timestep p : ℤ) (qs : List ℤ)
      → AllPoints g.max_width qs
      → AllToRanks n (send_list g n tables rank timestep p qs)
  unfolding send_list
  send_list-AllToRanks rank timestep p [] h = tt
  send_list-AllToRanks rank timestep p (q ∷ qs) (hq, h) =
      let (low, high, _, _, _, _) = owned hw q hq.0 hq.1 in
      step (in_row g timestep q && not (is_own g n tables rank q)) low high _
        (send_list-AllToRanks rank timestep p qs h)
    where
      step :
          (b : Bool)
          → pos 0 ≤ℤ tables.rank_by_point q
          → tables.rank_by_point q <ℤ n
          → (more : List Key) → AllToRanks n more
          → AllToRanks n
              (if b then record (key_of g n tables p q) { source = rank } ∷ more else more)
      step true low high more h = ((low, high), h)
      step false low high more h = h

module _ {D : Type 0} ⦃fl : Platform D⦄ {S : Type 0} (net : Network S) (g : TaskGraph D)
    (sound : IsSound g) (n : ℤ) (tables : Tables) (hn : pos 0 <ℤ n) (hw : pos 0 ≤ℤ g.max_width)
    (owned : AllOwned g n hn tables) (timestep : ℤ) (ht : pos 0 ≤ℤ timestep)
    (hT : timestep <ℤ g.timesteps) where
  sends-AllToRanks : (p : ℤ) → InRow g p → AllToRanks n (requests_at g n tables timestep p).sends
  sends-AllToRanks p hp =
      let (_, _, _, _, _, _, _, inside) = lists_at g sound timestep ht hT p hp in
      step (in_last_row g timestep p) _ (
        send_list-AllToRanks g n tables hn hw owned (tables.rank_by_point p) timestep p _
          (AllPoints-named_points g.max_width _ inside))
    where
      step :
          (b : Bool) (keys : List Key) → AllToRanks n keys → AllToRanks n (if b then keys else [])
      step true keys h = h
      step false keys h = tt

  -- The sends of a rank that has posted are complete, or a rank has not started its receives.
  pub wait_sends-cases :
      (rank : ℤ)
      → pos 0 ≤ℤ rank
      → rank <ℤ n
      → (started : ℤ → Bool) (requests : ℤ → Requests) (s : S)
      → ((q : ℤ)
          → InRow g q
          → tables.rank_by_point q ≡ rank
          → requests q ≡ requests_at g n tables timestep q)
      → (wait_sends net g n rank started requests s ≡ true) ⊎ IsLate n started
  unfolding wait_sends
  wait_sends-cases rank h0 hr started requests s all =
      points_done-cases net n started s (λ q. (requests q).sends) (rounds first last) first
        (λ q h k.
          let (hq, own) =
            loop_point g sound n tables hn hw owned rank h0 hr q h
              (before_stop first last q (first_stop g sound n tables hn hw owned rank h0 hr).0 k) in
          subst (λ r. AllToRanks n r.sends) (sym (all q hq own)) (sends-AllToRanks q hq))
    where
      first : ℤ
      first = first_point n g.max_width rank

      last : ℤ
      last = last_point n g.max_width rank
