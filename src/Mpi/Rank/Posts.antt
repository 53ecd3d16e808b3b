-- ===== src/Mpi/Rank/Posts.antt =====
-- What a rank posts in a timestep: it always gets through, and the channels have its messages.
use task_bench.Base.{
  ℕ, ◌≡◌, refl, sym, ap, ◌∙◌, subst, ◌≤◌, Bool, true, false, List, [], ◌++◌, if◌then◌else◌, arith,
  length, le→leb, replicate,
}
use mathlib.Core.List.{append-nil}
use task_bench.Base.Int.{eqb-eq, ℤ, pos, ◌≤ℤ◌, ◌<ℤ◌, eqb_ℤ, int_laws}
use task_bench.Base.Outcome.{ok}
use task_bench.Base.Loops.{Returns}
use task_bench.Platform.{Platform}
use task_bench.Graph.{TaskGraph, max_dependence_sets}
use task_bench.Graph.Sound.{IsSound}
use task_bench.Graph.Deps.{Interval, dependencies}
use task_bench.Graph.Deps.Count.{weight}
use task_bench.Graph.Deps.Buffer.Within.{AllWithin}
use task_bench.Task.{Input, in_last_row}
use task_bench.Mpi.Ranks.{Tables, put}
use task_bench.Mpi.Network.{Key, Network}
use task_bench.Mpi.Rank.{
  Slot, Requests, named_points, in_row, key_of, receive_slots, send_list, send_all, sum_sizes,
  post_point,
}
use task_bench.Mpi.Rank.Keys.{occurrences, AllOwned, InRow}
use task_bench.Mpi.Rank.Points.{AllPoints-named_points, length-named_points}
use task_bench.Mpi.Rank.Sends.{send_all-pending, goes}
use task_bench.Mpi.Rank.Due.{deps_at, rdeps_at, sent, lists_at}
use task_bench.Mpi.Rank.Slots.{
  payload, slots_at, requests_at, HoldsOutputs, length-receive_slots, same_slots,
}

fits : (a b : ℕ) (c m : ℤ) → a ≤ b → c ≡ pos b → c ≤ℤ m → pos a ≤ℤ m
fits a b c m h e k = least (subst (λ x. x ≤ℤ m) e k)
  where
    least : pos b ≤ℤ m → pos a ≤ℤ m
    least l = omega (int_laws, h)

module _ {D : Type 0} ⦃fl : Platform D⦄ {S : Type 0} (net : Network S) (g : TaskGraph D)
    (sound : IsSound g) (n : ℤ) (tables : Tables) (hn : pos 0 <ℤ n) (hw : pos 0 ≤ℤ g.max_width)
    (owned : AllOwned g n hn tables) (rank : ℤ) (h0 : pos 0 ≤ℤ rank) (hr : rank <ℤ n) (timestep : ℤ)
    (ht : pos 0 ≤ℤ timestep) (hT : timestep <ℤ g.timesteps) (outputs : ℤ → Input)
    (holds : HoldsOutputs g n tables timestep rank outputs) where
  -- A point sends what is due from it.
  abbrev Sent : ℤ → S → S → Type 0
  Sent p0 s s' =
      (p q : ℤ)
      → InRow g p
      → InRow g q
      → net.pending s' (key_of g n tables p q)
        ≡ net.pending s (key_of g n tables p q)
          ++ replicate (weight (eqb_ℤ p0 p) (sent g timestep n tables p q)) (payload g timestep p)

  point-Sent :
      (p0 : ℤ) (s : S)
      → InRow g p0
      → tables.rank_by_point p0 ≡ rank
      → Sent p0 s (
          send_all net
            (if in_last_row g timestep p0
              then send_list g n tables rank timestep p0 (named_points (rdeps_at g timestep p0))
              else [])
            (outputs p0)
            s)
  unfolding send_all
  point-Sent p0 s h0' own p q hp hq =
      subst
        (λ r.
          net.pending
            (send_all net
              (if in_last_row g timestep p0
                then send_list g n tables r timestep p0 (named_points (rdeps_at g timestep p0))
                else [])
              (outputs p0) s)
            (key_of g n tables p q)
          ≡ net.pending s (key_of g n tables p q)
            ++ replicate (weight (eqb_ℤ p0 p) (sent g timestep n tables p q))
                (payload g timestep p))
        own (from (in_last_row g timestep p0) refl)
    where
      due : ℕ
      due =
          weight (goes net g n tables hn hw owned (tables.rank_by_point p0) timestep q)
            (occurrences q (named_points (rdeps_at g timestep p0)))

      none_due : (y : Bool) (x : Input) → [] ≡ replicate (weight y 0) x
      none_due true x = refl
      none_due false x = refl

      goal : ℤ → List Input
      goal z = replicate (sent g timestep n tables z q) (payload g timestep z)

      here :
          (y : Bool)
          → eqb_ℤ p0 p ≡ y
          → (k : ℕ) (x : Input) → replicate k x ≡ goal p0
          → replicate (weight y k) x
            ≡ replicate (weight y (sent g timestep n tables p q)) (payload g timestep p)
      here true e k x h = h ∙ ap goal (eqb-eq p0 p e)
      here false e k x h = refl

      from :
          (x : Bool)
          → in_last_row g timestep p0 ≡ x
          → net.pending
              (send_all net
                (if x
                  then send_list g n tables
                      (tables.rank_by_point p0)
                      timestep
                      p0
                      (named_points (rdeps_at g timestep p0))
                  else [])
                (outputs p0)
                s)
              (key_of g n tables p q)
            ≡ net.pending s (key_of g n tables p q)
              ++ replicate
                  (weight (eqb_ℤ p0 p) (sent g timestep n tables p q))
                  (payload g timestep p)
      from true e =
          let (dset, set, above, below, call, call', inside, inside') =
            lists_at g sound timestep ht hT p0 h0' in
          send_all-pending net g n tables hn hw owned timestep outputs p0 _ s p q h0'
            (AllPoints-named_points g.max_width _ inside') hp hq
          ∙ ap (λ l. net.pending s (key_of g n tables p q) ++ l)
              (here (eqb_ℤ p0 p) refl _ (outputs p0) (
                ap (replicate due) (holds p0 h0' own e)
                ∙ ap (λ b. replicate (weight b due) (payload g timestep p0)) (sym e)))
      from false e =
          sym (append-nil _)
          ∙ ap (λ l. net.pending s (key_of g n tables p q) ++ l)
              (none_due (eqb_ℤ p0 p) (payload g timestep p0)
                ∙ here (eqb_ℤ p0 p) refl 0 (payload g timestep p0)
                    (ap (λ b. replicate (weight b due) (payload g timestep p0)) (sym e)))

  pub post_point-Returns :
      (most p0 : ℤ) (requests : ℤ → Requests) (s : S)
      → InRow g p0
      → tables.rank_by_point p0 ≡ rank
      → ((dset : ℤ) (deps : List Interval)
          → pos 0 ≤ℤ dset
          → dset <ℤ max_dependence_sets g
          → dependencies g dset p0 ≡ ok deps
          → sum_sizes deps ≤ℤ most)
      → Returns
          (post_point net g n tables rank timestep outputs most p0 (requests, s))
          (λ end. (end.0 ≡ put p0 (requests_at g n tables timestep p0) requests) × Sent p0 s end.1)
  unfolding post_point
  post_point-Returns most p0 requests s h0' own few =
      let (dset, set, above, below, call, call', inside, inside') =
        lists_at g sound timestep ht hT p0 h0' in
      (
        (
          put p0 (record { slots = slots; sends = sends }) requests,
          send_all net sends (outputs p0) s,
        ),
        rw (set, call, call', le→leb _ _ (room dset above below call inside)) refl,
        (
          ap (λ x. put p0 (record { slots = x; sends = sends }) requests)
                (same_row (in_row g timestep p0) inside)
              ∙ ap
                  (λ r.
                    put p0
                      (record {
                        slots = slots_at g n tables timestep p0;
                        sends =
                            if in_last_row g timestep p0
                            then send_list g n tables r timestep p0
                                (named_points (rdeps_at g timestep p0))
                            else [];
                      })
                      requests)
                  (sym own),
          point-Sent p0 s h0' own,
        ),
      )
    where
      slots : List Slot
      slots =
          if in_row g timestep p0
          then receive_slots g n tables rank timestep outputs p0
              (named_points (deps_at g timestep p0))
          else []

      sends : List Key
      sends =
          if in_last_row g timestep p0
          then send_list g n tables rank timestep p0 (named_points (rdeps_at g timestep p0))
          else []

      same_row :
          (y : Bool)
          → AllWithin g.max_width (deps_at g timestep p0)
          → (if y
              then receive_slots g n tables rank timestep outputs p0
                  (named_points (deps_at g timestep p0))
              else [])
            ≡ (if y
                then receive_slots g n tables
                    (tables.rank_by_point p0)
                    timestep
                    (payload g timestep)
                    p0
                    (named_points (deps_at g timestep p0))
                else [])
      same_row true inside =
          same_slots g n tables hn hw owned rank h0 timestep outputs holds p0 _
            (AllPoints-named_points g.max_width _ inside)
          ∙ ap
              (λ r.
                receive_slots g n tables r timestep (payload g timestep) p0
                  (named_points (deps_at g timestep p0)))
              (sym own)
      same_row false inside = refl

      few_slots :
          (y : Bool)
          → length (
              if y
              then receive_slots g n tables rank timestep outputs p0
                  (named_points (deps_at g timestep p0))
              else [])
            ≤ length (named_points (deps_at g timestep p0))
      few_slots true = length-receive_slots g n tables rank timestep outputs p0 _
      few_slots false = omega arith

      room :
          (dset : ℤ)
          → pos 0 ≤ℤ dset
          → dset <ℤ max_dependence_sets g
          → dependencies g dset p0 ≡ ok (deps_at g timestep p0)
          → AllWithin g.max_width (deps_at g timestep p0)
          → pos (length slots) ≤ℤ most
      room dset above below call inside =
          fits _ _ _ _ (few_slots (in_row g timestep p0)) (length-named_points g.max_width _ inside)
            (few dset _ above below call)
