-- ===== src/Mpi/Rank/Due.antt =====
-- The messages of a timestep: those that a rank sends are those that the other receives.
use task_bench.Base.{
  ℕ, ◌≡◌, refl, sym, ap, ◌∙◌, subst, Bool, true, false, not, List, [], ◌&&◌, arith,
}
use task_bench.Base.Int.{ℤ, pos, ◌≤ℤ◌, ◌<ℤ◌}
use task_bench.Base.Outcome.{Outcome, ok, ok-injective, fault, ◌>>=◌}
use task_bench.Platform.{Platform}
use task_bench.Graph.{TaskGraph, dependence_set_at_timestep, max_dependence_sets}
use task_bench.Graph.Shape.{dependence_set_bounds}
use task_bench.Graph.Sound.{IsSound}
use task_bench.Graph.Deps.{Interval, dependencies, reverse_dependencies}
use task_bench.Graph.Deps.Count.{weight}
use task_bench.Graph.Deps.Buffer.{dependencies_fit, reverse_dependencies_fit}
use task_bench.Graph.Deps.Buffer.Within.{AllWithin}
use task_bench.Graph.Deps.Mirror.{mirror}
use task_bench.Task.{in_last_row}
use task_bench.Mpi.Ranks.{Tables}
use task_bench.Mpi.Rank.{named_points, in_row, is_own}
use task_bench.Mpi.Rank.Keys.{occurrences, AllOwned, InRow, is_own-rank, rank-is_own, bool_ext}
use task_bench.Mpi.Rank.Points.{occurrences-named_points}

-- The list of a call that returns.
abbrev pub list_or_empty : Outcome (List Interval) → List Interval
list_or_empty (ok spans) = spans
list_or_empty (fault stop) = []

module _ {D : Type 0} ⦃fl : Platform D⦄ (g : TaskGraph D) (timestep : ℤ) where
  abbrev pub deps_at : ℤ → List Interval
  deps_at q =
      list_or_empty (dependence_set_at_timestep g timestep >>= λ dset. dependencies g dset q)

  abbrev pub rdeps_at : ℤ → List Interval
  rdeps_at p =
      list_or_empty
        (dependence_set_at_timestep g timestep >>= λ dset. reverse_dependencies g dset p)

  module _ (n : ℤ) (tables : Tables) (p q : ℤ) where
    -- How many messages go from `p` to `q`, as the receiver counts them, and as the sender does.
    abbrev pub received : ℕ
    received = weight (in_row g timestep q) (
        weight (in_last_row g timestep p && not (is_own g n tables (tables.rank_by_point q) p))
          (occurrences p (named_points (deps_at q))))

    abbrev pub sent : ℕ
    sent = weight (in_last_row g timestep p) (
        weight (in_row g timestep q && not (is_own g n tables (tables.rank_by_point p) q))
          (occurrences q (named_points (rdeps_at p))))

same_weights :
    (r l o o' : Bool) (a b : ℕ)
    → o ≡ o'
    → a ≡ b
    → weight l (weight (r && not o') b) ≡ weight r (weight (l && not o) a)
same_weights true true o o' a b e f = rw (e, f) refl
same_weights true false o o' a b e f = refl
same_weights false true o o' a b e f = refl
same_weights false false o o' a b e f = refl

list_eq :
    (o : Outcome ℤ) (call : ℤ → Outcome (List Interval)) (d : ℤ) (spans : List Interval)
    → o ≡ ok d
    → call d ≡ ok spans
    → list_or_empty (o >>= call) ≡ spans
list_eq o call d spans e e' = rw (e, e') refl

module _ {D : Type 0} ⦃fl : Platform D⦄ (g : TaskGraph D) (sound : IsSound g) (timestep : ℤ)
    (ht : pos 0 ≤ℤ timestep) (hT : timestep <ℤ g.timesteps) where
  -- In a sound graph both lists of a point exist at a timestep of the run.
  pub lists_at :
      (p : ℤ)
      → InRow g p
      → (dset : ℤ) × (dependence_set_at_timestep g timestep ≡ ok dset)
        × (pos 0 ≤ℤ dset)
        × (dset <ℤ max_dependence_sets g)
        × (dependencies g dset p ≡ ok (deps_at g timestep p))
        × (reverse_dependencies g dset p ≡ ok (rdeps_at g timestep p))
        × AllWithin g.max_width (deps_at g timestep p)
        × AllWithin g.max_width (rdeps_at g timestep p)
  lists_at p h =
      let (dset, set, above, below) = dependence_set_bounds g timestep ht sound.1 in
      let (deps, _, call, _, _, inside) = dependencies_fit g dset p h (sound.2 dset above below) in
      let (rdeps, _, call', _, _, inside') =
        reverse_dependencies_fit g dset p h (sound.2 dset above below) in
      let same =
        list_eq (dependence_set_at_timestep g timestep) (λ d. dependencies g d p) dset deps set
          call in
      let same' =
        list_eq (dependence_set_at_timestep g timestep) (λ d. reverse_dependencies g d p) dset rdeps
          set call' in
      (
        dset,
        set,
        above,
        below,
        call ∙ ap ok (sym same),
        call' ∙ ap ok (sym same'),
        subst (AllWithin g.max_width) (sym same) inside,
        subst (AllWithin g.max_width) (sym same') inside',
      )

  -- What a rank is due to send from a point to another is what the rank of the other is due to
  -- receive for it.
  pub sent-received :
      pos 0 ≤ℤ g.radix
      → (n : ℤ) (tables : Tables) (hn : pos 0 <ℤ n) → AllOwned g n hn tables
      → (p q : ℤ) → InRow g p
      → InRow g q
      → sent g timestep n tables p q ≡ received g timestep n tables p q
  sent-received hr n tables hn owned p q hp hq =
      let (dset, set, above, _, call, _, _, _) = lists_at q hq in
      let (dset', set', _, _, _, call', _, _) = lists_at p hp in
      let same_set : dset' ≡ dset = ok-injective (sym set' ∙ set) in
      same_weights (in_row g timestep q) (in_last_row g timestep p)
        (is_own g n tables (tables.rank_by_point q) p)
        (is_own g n tables (tables.rank_by_point p) q) _ _
        (bool_ext _ _
          (λ e.
            is_own-rank g n tables hn hw owned _ q hq
              (sym (rank-is_own g n tables hn hw owned _ p hp (rank_nonneg q hq) e)))
          (λ e.
            is_own-rank g n tables hn hw owned _ p hp
              (sym (rank-is_own g n tables hn hw owned _ q hq (rank_nonneg p hp) e))))
        (occurrences-named_points p (deps_at g timestep q)
          ∙ mirror g dset q p hq hp above hr call
              (subst (λ d. reverse_dependencies g d p ≡ ok (rdeps_at g timestep p)) same_set call')
          ∙ sym (occurrences-named_points q (rdeps_at g timestep p)))
    where
      hw : pos 0 ≤ℤ g.max_width
      hw = omega (arith, sound.0)

      rank_nonneg : (x : ℤ) → InRow g x → pos 0 ≤ℤ tables.rank_by_point x
      rank_nonneg x hx = (owned hw x hx.0 hx.1).0
