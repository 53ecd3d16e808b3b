-- ===== src/Mpi/Rank/Sends.antt =====
-- The messages that a rank sends in a timestep.
use task_bench.Base.{
  ℕ, zero, suc, ◌≡◌, refl, sym, ap, ◌∙◌, ◌+◌, Bool, true, false, not, List, [], ◌∷◌, ◌++◌, ◌&&◌,
  if◌then◌else◌, arith, replicate,
}
use native.Mathlib.Nat.{zero-add, suc-add}
use mathlib.Core.List.{append-nil, append_assoc}
use task_bench.Base.Int.{eqb-eq, ℤ, pos, ◌≤ℤ◌, ◌<ℤ◌, eqb_ℤ}
use task_bench.Graph.{TaskGraph}
use task_bench.Graph.Deps.Count.{one_if, weight}
use task_bench.Mpi.Ranks.{Tables}
use task_bench.Task.{Input}
use task_bench.Mpi.Network.{Network}
use task_bench.Mpi.Rank.{key_of, is_own, in_row, send_list, send_all}
use task_bench.Mpi.Rank.Keys.{occurrences, AllOwned, InRow, same_key-points}
use task_bench.Mpi.Rank.Points.{AllPoints}

pub replicate-add {ℓ} :
    {A : Type ℓ} (a b : ℕ) (x : A) → replicate (a + b) x ≡ replicate a x ++ replicate b x
replicate-add zero b x = ap (λ k. replicate k x) (zero-add b)
replicate-add (suc a) b x =
    ap (λ k. replicate k x) (suc-add a b) ∙ ap (λ r. x ∷ r) (replicate-add a b x)

-- One message more on a channel, or none.
one_message :
    (c : Bool) (k : ℕ) (old : List Input) (x : Input) (now : List Input)
    → now ≡ (if c then old ++ x ∷ [] else old)
    → now ++ replicate k x ≡ old ++ replicate (one_if c + k) x
one_message true k old x now e =
    ap (λ l. l ++ replicate k x) e
    ∙ append_assoc old (x ∷ []) (replicate k x)
    ∙ ap (λ l. old ++ l) (sym (replicate-add 1 k x))
one_message false k old x now e =
    ap (λ l. l ++ replicate k x) e ∙ ap (λ j. old ++ replicate j x) (sym (zero-add k))

-- A point that is named once more, where it is sent to.
pub once_more :
    (x y z e : Bool) (k : ℕ)
    → (e ≡ true → z ≡ y)
    → weight x (weight z (one_if e + k)) ≡ weight y (one_if (x && e)) + weight x (weight z k)
once_more false true z e k h = refl
once_more false false z e k h = refl
once_more true true true true k h = refl
once_more true true true false k h = refl
once_more true true false true k h = cc (h refl)
once_more true true false false k h = refl
once_more true false true true k h = cc (h refl)
once_more true false true false k h = omega arith
once_more true false false true k h = refl
once_more true false false false k h = refl

module _ {D : Type 0} {S : Type 0} (net : Network S) (g : TaskGraph D) (n : ℤ) (tables : Tables)
    (hn : pos 0 <ℤ n) (hw : pos 0 ≤ℤ g.max_width) (owned : AllOwned g n hn tables) where
  -- Whether a rank sends to a point at a timestep.
  abbrev pub goes : ℤ → ℤ → ℤ → Bool
  goes rank timestep q = in_row g timestep q && not (is_own g n tables rank q)

  -- What the sends of the point `p` add to the channel from `p'` to `q'`: an output of `p` for each
  -- time that `q'` is named, if `p` is `p'`.
  pub send_all-pending :
      (timestep : ℤ) (outputs : ℤ → Input) (p : ℤ) (qs : List ℤ) (s : S) (p' q' : ℤ)
      → InRow g p
      → AllPoints g.max_width qs
      → InRow g p'
      → InRow g q'
      → net.pending
          (send_all net (send_list g n tables (tables.rank_by_point p) timestep p qs) (outputs p) s)
          (key_of g n tables p' q')
        ≡ net.pending s (key_of g n tables p' q')
          ++ replicate
              (weight
                (eqb_ℤ p p')
                (weight (goes (tables.rank_by_point p) timestep q') (occurrences q' qs)))
              (outputs p)
  unfolding send_all send_list
  send_all-pending timestep outputs p [] s p' q' hp hqs hp' hq' =
      sym (append-nil _)
      ∙ ap (λ k. net.pending s (key_of g n tables p' q') ++ replicate k (outputs p))
          (nothing (eqb_ℤ p p') (goes (tables.rank_by_point p) timestep q'))
    where
      nothing : (x y : Bool) → 0 ≡ weight x (weight y 0)
      nothing true true = refl
      nothing true false = refl
      nothing false y = refl
  send_all-pending timestep outputs p (q ∷ qs) s p' q' hp (hq, hqs) hp' hq' =
      step (goes (tables.rank_by_point p) timestep q) refl
        (λ s'. send_all-pending timestep outputs p qs s' p' q' hp hqs hp' hq')
    where
      same :
          (y : Bool)
          → goes (tables.rank_by_point p) timestep q ≡ y
          → eqb_ℤ q q' ≡ true
          → goes (tables.rank_by_point p) timestep q' ≡ y
      same y e h = ap (goes (tables.rank_by_point p) timestep) (sym (eqb-eq q q' h)) ∙ e

      step :
          (y : Bool)
          → goes (tables.rank_by_point p) timestep q ≡ y
          → ((s' : S)
              → net.pending
                  (send_all net
                    (send_list g n tables (tables.rank_by_point p) timestep p qs)
                    (outputs p)
                    s')
                  (key_of g n tables p' q')
                ≡ net.pending s' (key_of g n tables p' q')
                  ++ replicate
                      (weight
                        (eqb_ℤ p p')
                        (weight (goes (tables.rank_by_point p) timestep q') (occurrences q' qs)))
                      (outputs p))
          → let more = send_list g n tables (tables.rank_by_point p) timestep p qs in
            net.pending
              (send_all net (if y then key_of g n tables p q ∷ more else more) (outputs p) s)
              (key_of g n tables p' q')
            ≡ net.pending s (key_of g n tables p' q')
              ++ replicate
                  (weight (eqb_ℤ p p') (
                    weight
                      (goes (tables.rank_by_point p) timestep q')
                      (one_if (eqb_ℤ q q') + occurrences q' qs)))
                  (outputs p)
      step true e rest =
          rest (net.isend (key_of g n tables p q) (outputs p) s)
          ∙ one_message (eqb_ℤ p p' && eqb_ℤ q q') _ _ (outputs p) _ (
              net.pending-isend (key_of g n tables p q) (key_of g n tables p' q') (outputs p) s
              ∙ ap
                  (λ b.
                    if b
                    then net.pending s (key_of g n tables p' q') ++ outputs p ∷ []
                    else net.pending s (key_of g n tables p' q'))
                  (same_key-points g n tables hn hw owned p q p' q' hp hq hp' hq'))
          ∙ ap (λ k. net.pending s (key_of g n tables p' q') ++ replicate k (outputs p))
              (sym (once_more (eqb_ℤ p p') true _ (eqb_ℤ q q') (occurrences q' qs) (same true e)))
      step false e rest =
          rest s
          ∙ ap (λ k. net.pending s (key_of g n tables p' q') ++ replicate k (outputs p))
              (sym (
                once_more (eqb_ℤ p p') false _ (eqb_ℤ q q') (occurrences q' qs) (same false e)
                ∙ zero-add _))
