-- ===== src/Mpi/Rank/Waited.antt =====
-- The wait of a rank, by how it ends.
use task_bench.Base.{ℕ, ◌≡◌, ap, ◌∙◌, ◌⊎◌, inl, inr, List, [], ◌++◌, ◌&&◌, replicate, none, some}
use task_bench.Base.Int.{ℤ, pos, ◌+ℤ◌, ◌-ℤ◌, ◌≤ℤ◌, ◌<ℤ◌, leb_ℤ, ltb_ℤ, int_laws, parts_disjoint}
use task_bench.Platform.{Platform}
use task_bench.Graph.{TaskGraph}
use task_bench.Graph.Sound.{IsSound}
use task_bench.Graph.Deps.{rounds}
use task_bench.Graph.Deps.Count.{weight}
use task_bench.Task.{Input}
use task_bench.Mpi.Ranks.{Tables, first_point, last_point}
use task_bench.Mpi.Network.{Network}
use task_bench.Mpi.Rank.{Requests, is_own, key_of, wait_receives}
use task_bench.Mpi.Rank.Keys.{rank_bounds, AllOwned, InRow}
use task_bench.Mpi.Rank.Due.{received}
use task_bench.Mpi.Rank.Slots.{payload, slots_at}
use task_bench.Mpi.Rank.Waits.{inputs_at, AllOrNone, WaitsFor}
use task_bench.Mpi.Rank.Most.{loop_point, first_stop}
use task_bench.Mpi.Rank.WaitLoop.{Over, resolve_points-Over}

pub before_stop : (f l q : ℤ) → f ≤ℤ l +ℤ pos 1 → q <ℤ f +ℤ pos (rounds f l) → q <ℤ l +ℤ pos 1
before_stop f l q h k = omega (int_laws, h, k, parts_disjoint (l -ℤ f +ℤ pos 1))

behind_start : (f l q : ℤ) → f ≤ℤ l +ℤ pos 1 → q ≤ℤ l → q <ℤ f +ℤ pos (rounds f l)
behind_start f l q h k = omega (int_laws, h, k, parts_disjoint (l -ℤ f +ℤ pos 1))

all_points :
    (f l q : ℤ)
    → f ≤ℤ l +ℤ pos 1
    → (leb_ℤ f q && ltb_ℤ q (f +ℤ pos (rounds f l))) ≡ (leb_ℤ f q && leb_ℤ q l)
all_points f l q h = grind (int_laws, parts_disjoint (l -ℤ f +ℤ pos 1))

module _ {D : Type 0} ⦃fl : Platform D⦄ {S : Type 0} (net : Network S) (g : TaskGraph D)
    (sound : IsSound g) (n : ℤ) (tables : Tables) (hn : pos 0 <ℤ n) (hw : pos 0 ≤ℤ g.max_width)
    (owned : AllOwned g n hn tables) (timestep : ℤ) (ht : pos 0 ≤ℤ timestep)
    (hT : timestep <ℤ g.timesteps) where
  abbrev here_channel : S → ℤ → ℤ → List Input
  here_channel s p q = net.pending s (key_of g n tables p q)

  abbrev Ready : S → ℤ → Type 0
  Ready = AllOrNone net g sound n tables hn hw owned timestep ht hT

  abbrev Lacks : S → ℤ → Type 0
  Lacks = WaitsFor net g sound n tables hn hw owned timestep ht hT

  -- The wait of a rank either lacks all messages on one channel, or ends with the inputs of its
  -- points, and has taken the messages of the timestep and no others.
  abbrev pub Waited : ℤ → (ℤ → Requests) → S → Type 0
  Waited rank requests s =
      ((wait_receives net g n rank requests s ≡ none)
        × ((q : ℤ) × InRow g q × (tables.rank_by_point q ≡ rank) × Lacks s q))
      ⊎ ((inputs : ℤ → List Input) × (t : S) × (wait_receives net g n rank requests s
            ≡ some (inputs, t))
          × ((q : ℤ)
              → InRow g q
              → tables.rank_by_point q ≡ rank
              → inputs q ≡ inputs_at g timestep q)
          × ((p q : ℤ)
              → InRow g p
              → InRow g q
              → here_channel s p q
                ≡ replicate (weight (is_own g n tables rank q) (received g timestep n tables p q))
                    (payload g timestep p)
                  ++ here_channel t p q))

  pub wait_receives-Waited :
      (rank : ℤ)
      → pos 0 ≤ℤ rank
      → rank <ℤ n
      → (requests : ℤ → Requests) (s : S)
      → ((q : ℤ)
          → InRow g q
          → tables.rank_by_point q ≡ rank
          → ((requests q).slots ≡ slots_at g n tables timestep q) × Ready s q)
      → Waited rank requests s
  unfolding wait_receives Over
  wait_receives-Waited rank h0 hr requests s all =
      elim (resolve_points-Over net g sound n tables hn hw owned timestep ht hT
        (λ q. (requests q).slots) m first (λ point. []) s
        (λ q h k.
          let (hq, own) = loop_point g sound n tables hn hw owned rank h0 hr q h (stop q k) in
          let (e, ready) = all q hq own in (hq, e, ready))) [
            | inl (stuck, (q, h, k, lacks)) ↦
                let (hq, own) = loop_point g sound n tables hn hw owned rank h0 hr q h (stop q k) in
                inl (stuck, (q, hq, own, lacks))
            | inr (inputs, t, done, (now, _), taken) ↦ inr (
              inputs,
              t,
              done,
              (λ q hq own.
                  now q (rank_bounds g n tables hn hw owned rank q hq own).0
                    (start q (rank_bounds g n tables hn hw owned rank q hq own).1)),
              λ p q hp hq.
                  taken p q hp hq
                  ∙ ap
                      (λ b.
                        replicate (weight b (received g timestep n tables p q))
                          (payload g timestep p)
                        ++ here_channel t p q)
                      (all_points first last q
                        (first_stop g sound n tables hn hw owned rank h0 hr).0),
            )
          ]
    where
      first : ℤ
      first = first_point n g.max_width rank

      last : ℤ
      last = last_point n g.max_width rank

      m : ℕ
      m = rounds first last

      stop : (q : ℤ) → q <ℤ first +ℤ pos m → q <ℤ last +ℤ pos 1
      stop q k = before_stop first last q (first_stop g sound n tables hn hw owned rank h0 hr).0 k

      start : (q : ℤ) → q ≤ℤ last → q <ℤ first +ℤ pos m
      start q h = behind_start first last q (first_stop g sound n tables hn hw owned rank h0 hr).0 h
