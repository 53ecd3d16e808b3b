-- ===== src/Mpi/Rank/Matching.antt =====
-- The messages that the send loop of one rank makes are those that the receive loop of another asks
-- for.
use task_bench.Base.{
  ℕ, ◌≡◌, refl, sym, ap, ◌∙◌, ◌+◌, Bool, true, false, not, List, [], ◌∷◌, ◌&&◌, if◌then◌else◌,
  arith,
}
use native.Mathlib.Nat.{zero-add}
use task_bench.Base.Int.{ℤ, pos, eqb-eq, eqb_self, ◌≤ℤ◌, ◌<ℤ◌, eqb_ℤ}
use task_bench.Base.Outcome.{ok, ok-injective}
use task_bench.Platform.{Platform}
use task_bench.Graph.{TaskGraph, dependence_set_at_timestep}
use task_bench.Graph.Sound.{IsSound}
use task_bench.Graph.Deps.{Interval, dependencies, reverse_dependencies}
use task_bench.Graph.Deps.Count.{one_if, weight}
use task_bench.Task.{Input, in_last_row}
use task_bench.Mpi.Ranks.{Tables}
use task_bench.Mpi.Network.{Key, same_key}
use task_bench.Mpi.Rank.{
  Slot, copied, requested, named_points, in_row, is_own, key_of, receive_slots, send_list,
}
use task_bench.Mpi.Rank.Keys.{occurrences, AllOwned, InRow, same_key-points}
use task_bench.Mpi.Rank.Points.{AllPoints, AllPoints-named_points}
use task_bench.Mpi.Rank.Sends.{once_more}
use task_bench.Mpi.Rank.Due.{deps_at, rdeps_at, lists_at, sent-received}

-- How many sends, and how many receives, have an envelope.
abbrev pub count_sends : Key → List Key → ℕ
count_sends key [] = 0
count_sends key (other ∷ rest) = one_if (same_key other key) + count_sends key rest

abbrev pub count_receives : Key → List Slot → ℕ
count_receives key [] = 0
count_receives key (copied input ∷ rest) = count_receives key rest
count_receives key (requested other ∷ rest) = one_if (same_key other key) + count_receives key rest

module _ {D : Type 0} (g : TaskGraph D) (n : ℤ) (tables : Tables) (hn : pos 0 <ℤ n)
    (hw : pos 0 ≤ℤ g.max_width) (owned : AllOwned g n hn tables) (timestep p q : ℤ) (hp : InRow g p)
    (hq : InRow g q) where
  send_list-occurrences :
      (qs : List ℤ)
      → AllPoints g.max_width qs
      → count_sends
          (key_of g n tables p q)
          (send_list g n tables (tables.rank_by_point p) timestep p qs)
        ≡ weight
            (in_row g timestep q && not (is_own g n tables (tables.rank_by_point p) q))
            (occurrences q qs)
  unfolding send_list
  send_list-occurrences [] h = none (in_row g timestep q && not (is_own g n tables _ q))
    where
      none : (b : Bool) → 0 ≡ weight b 0
      none true = refl
      none false = refl
  send_list-occurrences (x ∷ qs) (hx, h) = step (to x) refl _ (send_list-occurrences qs h) (
      same_key-points g n tables hn hw owned p x p q hp hx hp hq
      ∙ ap (λ b. b && eqb_ℤ x q) (eqb_self p))
    where
      to : ℤ → Bool
      to y = in_row g timestep y && not (is_own g n tables (tables.rank_by_point p) y)

      step :
          (b : Bool)
          → to x ≡ b
          → (more : List Key)
          → count_sends (key_of g n tables p q) more ≡ weight (to q) (occurrences q qs)
          → same_key (key_of g n tables p x) (key_of g n tables p q) ≡ eqb_ℤ x q
          → count_sends (key_of g n tables p q) (if b then key_of g n tables p x ∷ more else more)
            ≡ weight (to q) (one_if (eqb_ℤ x q) + occurrences q qs)
      step true e more rest same =
          rw (same, rest)
            (sym (
              once_more true true (to q) (eqb_ℤ x q) (occurrences q qs)
                (λ h'. ap to (sym (eqb-eq x q h')) ∙ e)))
      step false e more rest same =
          rest
          ∙ sym (
              once_more true false (to q) (eqb_ℤ x q) (occurrences q qs)
                (λ h'. ap to (sym (eqb-eq x q h')) ∙ e)
              ∙ zero-add _)

  receive_slots-occurrences :
      (outputs : ℤ → Input) (ps : List ℤ)
      → AllPoints g.max_width ps
      → count_receives
          (key_of g n tables p q)
          (receive_slots g n tables (tables.rank_by_point q) timestep outputs q ps)
        ≡ weight
            (in_last_row g timestep p && not (is_own g n tables (tables.rank_by_point q) p))
            (occurrences p ps)
  unfolding receive_slots
  receive_slots-occurrences outputs [] h =
      none (in_last_row g timestep p && not (is_own g n tables _ p))
    where
      none : (b : Bool) → 0 ≡ weight b 0
      none true = refl
      none false = refl
  receive_slots-occurrences outputs (x ∷ ps) (hx, h) =
      step (in_last_row g timestep x) (is_own g n tables (tables.rank_by_point q) x) refl _
        (receive_slots-occurrences outputs ps h)
        (same_key-points g n tables hn hw owned x q p q hx hq hp hq
          ∙ ap (λ b. eqb_ℤ x p && b) (eqb_self q)
          ∙ and_true (eqb_ℤ x p))
    where
      and_true : (b : Bool) → (b && true) ≡ b
      and_true true = refl
      and_true false = refl

      from : ℤ → Bool
      from y = in_last_row g timestep y && not (is_own g n tables (tables.rank_by_point q) y)

      step :
          (a b : Bool)
          → from x ≡ (a && not b)
          → (more : List Slot)
          → count_receives (key_of g n tables p q) more ≡ weight (from p) (occurrences p ps)
          → same_key (key_of g n tables x q) (key_of g n tables p q) ≡ eqb_ℤ x p
          → count_receives (key_of g n tables p q) (
              if a
              then (if b
                  then copied (outputs x) ∷ more
                  else requested (key_of g n tables x q) ∷ more)
              else more)
            ≡ weight (from p) (one_if (eqb_ℤ x p) + occurrences p ps)
      step true false e more rest same =
          rw (same, rest)
            (sym (
              once_more true true (from p) (eqb_ℤ x p) (occurrences p ps)
                (λ h'. ap from (sym (eqb-eq x p h')) ∙ e)))
      step true true e more rest same =
          rest
          ∙ sym (
              once_more true false (from p) (eqb_ℤ x p) (occurrences p ps)
                (λ h'. ap from (sym (eqb-eq x p h')) ∙ e)
              ∙ zero-add _)
      step false b e more rest same =
          rest
          ∙ sym (
              once_more true false (from p) (eqb_ℤ x p) (occurrences p ps)
                (λ h'. ap from (sym (eqb-eq x p h')) ∙ e)
              ∙ zero-add _)

module _ {D : Type 0} ⦃fl : Platform D⦄ (g : TaskGraph D) (sound : IsSound g)
    (radix : pos 0 ≤ℤ g.radix) (n : ℤ) (tables : Tables) (hn : pos 0 <ℤ n)
    (owned : AllOwned g n hn tables) (timestep : ℤ) (ht : pos 0 ≤ℤ timestep)
    (hT : timestep <ℤ g.timesteps) where
  -- In a sound graph with a radix that is not negative, at a timestep of the run, for at least one
  -- rank and over tables that give each point of the row its rank and number: the rank of a point `p`
  -- of the row makes as many sends with the envelope of the messages from `p` to a point `q` of the
  -- row, in its loop over the reverse dependencies of `p`, as the rank of `q` starts receives with it,
  -- in its loop over the dependencies of `q`. A point has these loops where it is in the row before,
  -- and in the row of the timestep.
  pub sends-receives :
      (p q dset : ℤ) (deps rdeps : List Interval) (outputs : ℤ → Input)
      → InRow g p
      → InRow g q
      → dependence_set_at_timestep g timestep ≡ ok dset
      → dependencies g dset q ≡ ok deps
      → reverse_dependencies g dset p ≡ ok rdeps
      → count_sends (key_of g n tables p q) (
          if in_last_row g timestep p
          then send_list g n tables (tables.rank_by_point p) timestep p (named_points rdeps)
          else [])
        ≡ count_receives (key_of g n tables p q) (
            if in_row g timestep q
            then receive_slots g n tables
                (tables.rank_by_point q)
                timestep
                outputs
                q
                (named_points deps)
            else [])
  sends-receives p q dset deps rdeps outputs hp hq set call call' =
      let (d, set1, _, _, made, _, inside, _) = lists_at g sound timestep ht hT q hq in
      let (d', set2, _, _, _, made', _, inside') = lists_at g sound timestep ht hT p hp in
      let same : deps ≡ deps_at g timestep q =
        ok-injective
          (sym call ∙ ap (λ x. dependencies g x q) (ok-injective (sym set ∙ set1)) ∙ made) in
      let same' : rdeps ≡ rdeps_at g timestep p = ok-injective (
        sym call' ∙ ap (λ x. reverse_dependencies g x p) (ok-injective (sym set ∙ set2)) ∙ made') in
      rw (same, same')
        (sends (in_last_row g timestep p) _ (
            send_list-occurrences g n tables hn hw owned timestep p q hp hq _
              (AllPoints-named_points g.max_width _ inside'))
          ∙ sent-received g sound timestep ht hT radix n tables hn owned p q hp hq
          ∙ sym (
              receives (in_row g timestep q) _ (
                receive_slots-occurrences g n tables hn hw owned timestep p q hp hq outputs _
                  (AllPoints-named_points g.max_width _ inside))))
    where
      hw : pos 0 ≤ℤ g.max_width
      hw = omega (arith, sound.0)

      sends :
          (b : Bool) (keys : List Key) {m : ℕ}
          → count_sends (key_of g n tables p q) keys ≡ m
          → count_sends (key_of g n tables p q) (if b then keys else []) ≡ weight b m
      sends true keys e = e
      sends false keys e = refl

      receives :
          (b : Bool) (slots : List Slot) {m : ℕ}
          → count_receives (key_of g n tables p q) slots ≡ m
          → count_receives (key_of g n tables p q) (if b then slots else []) ≡ weight b m
      receives true slots e = e
      receives false slots e = refl
