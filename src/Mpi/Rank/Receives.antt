-- ===== src/Mpi/Rank/Receives.antt =====
-- The inputs that a rank receives for a point.
use task_bench.Base.{
  ℕ, zero, suc, ◌≡◌, refl, sym, ap, ◌∙◌, subst, ◌+◌, ◌<◌, ◌⊎◌, Bool, true, false, not, inl, inr,
  List, [], ◌∷◌, ◌++◌, ◌&&◌, if◌then◌else◌, arith, replicate, Option, none, some,
}
use task_bench.Base.Int.{eqb-eq, eqb_self, ℤ, pos, ◌≤ℤ◌, ◌<ℤ◌, eqb_ℤ}
use task_bench.Graph.{TaskGraph}
use task_bench.Graph.Deps.Count.{one_if, weight}
use task_bench.Mpi.Ranks.{Tables}
use task_bench.Task.{Input, in_last_row}
use task_bench.Mpi.Network.{Key, same_key, Network}
use task_bench.Mpi.Rank.{key_of, is_own, Slot, copied, requested, receive_slots, resolve}
use task_bench.Mpi.Rank.Keys.{occurrences, AllOwned, InRow, same_key-points}
use task_bench.Mpi.Rank.Points.{AllPoints}
use task_bench.Mpi.Rank.Sends.{replicate-add}
use mathlib.Core.List.{append_assoc}

module _ {D : Type 0} {S : Type 0} (net : Network S) (g : TaskGraph D) (n : ℤ) (tables : Tables)
    (hn : pos 0 <ℤ n) (hw : pos 0 ≤ℤ g.max_width) (owned : AllOwned g n hn tables) (timestep : ℤ)
    (outputs payload : ℤ → Input) (q : ℤ) (hq : InRow g q)
    (local : (p : ℤ)
      → in_last_row g timestep p ≡ true
      → is_own g n tables (tables.rank_by_point q) p ≡ true
      → InRow g p
      → outputs p ≡ payload p) where
  -- Whether a point's output comes in a message.
  abbrev pub comes : ℤ → Bool
  comes p = in_last_row g timestep p && not (is_own g n tables (tables.rank_by_point q) p)

  -- How many messages from a point are to be received.
  abbrev pub due_in : ℤ → List ℤ → ℕ
  due_in p ps = weight (comes p) (occurrences p ps)

  -- The inputs in their order.
  abbrev pub expected : List ℤ → List Input
  expected [] = []
  expected (p ∷ ps) =
      let more = expected ps in if in_last_row g timestep p then payload p ∷ more else more

  abbrev channel : S → ℤ → List Input
  channel s p = net.pending s (key_of g n tables p q)

  -- The channel of a point has its messages, or none at all.
  abbrev pub IsReady : S → List ℤ → ℤ → Type 0
  IsReady s ps p =
      ((rest : List Input) × (channel s p ≡ replicate (due_in p ps) (payload p) ++ rest))
      ⊎ (channel s p ≡ [])

  -- The messages of this point are taken off the channels, and nothing else.
  abbrev pub Taken : S → S → List ℤ → Type 0
  Taken s t ps =
      ((p : ℤ) → InRow g p → channel s p ≡ replicate (due_in p ps) (payload p) ++ channel t p)
      × ((p q' : ℤ)
          → InRow g p
          → InRow g q'
          → eqb_ℤ q q' ≡ false
          → net.pending t (key_of g n tables p q') ≡ net.pending s (key_of g n tables p q'))

  abbrev pub Blocked : S → List ℤ → Type 0
  Blocked s ps = (p : ℤ) × InRow g p × (channel s p ≡ []) × (0 < due_in p ps)

  abbrev slots : List ℤ → List Slot
  slots ps = receive_slots g n tables (tables.rank_by_point q) timestep outputs q ps

  -- A point that sends no message changes no count.
  due_in-skip : (p0 p : ℤ) (ps : List ℤ) → comes p0 ≡ false → due_in p (p0 ∷ ps) ≡ due_in p ps
  due_in-skip p0 p ps e = step (eqb_ℤ p0 p) (comes p) same
    where
      same : eqb_ℤ p0 p ≡ true → comes p ≡ false
      same h = ap comes (sym (eqb-eq p0 p h)) ∙ e

      step :
          (x y : Bool)
          → (x ≡ true → y ≡ false)
          → weight y (one_if x + occurrences p ps) ≡ weight y (occurrences p ps)
      step true true h = cc (h refl)
      step true false h = refl
      step false true h = omega arith
      step false false h = refl

  -- A point that sends one has one more.
  due_in-more :
      (p0 p : ℤ) (ps : List ℤ)
      → comes p0 ≡ true
      → due_in p (p0 ∷ ps) ≡ one_if (eqb_ℤ p0 p) + due_in p ps
  due_in-more p0 p ps e = step (eqb_ℤ p0 p) (comes p) same
    where
      same : eqb_ℤ p0 p ≡ true → comes p ≡ true
      same h = ap comes (sym (eqb-eq p0 p h)) ∙ e

      step :
          (x y : Bool)
          → (x ≡ true → y ≡ true)
          → weight y (one_if x + occurrences p ps) ≡ one_if x + weight y (occurrences p ps)
      step true true h = refl
      step true false h = cc (h refl)
      step false true h = refl
      step false false h = refl

  abbrev Resolved : List Slot → List Input → S → List ℤ → Type 0
  Resolved here inputs s ps =
      ((resolve net here s ≡ none) × Blocked s ps)
      ⊎ ((t : S) × (resolve net here s ≡ some (inputs, t)) × Taken s t ps)

  resolve-own :
      (here : List Slot) (inputs : List Input) (p0 : ℤ) (s : S) (ps : List ℤ)
      → comes p0 ≡ false
      → outputs p0 ≡ payload p0
      → Resolved here inputs s ps
      → Resolved (copied (outputs p0) ∷ here) (payload p0 ∷ inputs) s (p0 ∷ ps)
  unfolding resolve
  resolve-own here inputs p0 s ps e l (inl (stuck, (p, hp, empty, due))) =
      inl (rw stuck refl, (p, hp, empty, subst (λ k. 0 < k) (sym (due_in-skip p0 p ps e)) due))
  resolve-own here inputs p0 s ps e l (inr (t, done, (taken, others))) = inr (
    t,
    rw (done, l) refl,
    (
      λ p hp.
          taken p hp
          ∙ ap (λ k. replicate k (payload p) ++ channel t p) (sym (due_in-skip p0 p ps e)),
      others,
    ),
  )

  resolve-skip :
      (here : List Slot) (inputs : List Input) (p0 : ℤ) (s : S) (ps : List ℤ)
      → comes p0 ≡ false
      → Resolved here inputs s ps
      → Resolved here inputs s (p0 ∷ ps)
  resolve-skip here inputs p0 s ps e (inl (stuck, (p, hp, empty, due))) =
      inl (stuck, (p, hp, empty, subst (λ k. 0 < k) (sym (due_in-skip p0 p ps e)) due))
  resolve-skip here inputs p0 s ps e (inr (t, done, (taken, others))) = inr (
    t,
    done,
    (
      λ p hp.
          taken p hp
          ∙ ap (λ k. replicate k (payload p) ++ channel t p) (sym (due_in-skip p0 p ps e)),
      others,
    ),
  )

  IsReady-skip :
      (p0 : ℤ) (s : S) (ps : List ℤ) (p : ℤ)
      → comes p0 ≡ false
      → IsReady s (p0 ∷ ps) p
      → IsReady s ps p
  IsReady-skip p0 s ps p e (inr empty) = inr empty
  IsReady-skip p0 s ps p e (inl (rest, h)) =
      inl (rest, h ∙ ap (λ k. replicate k (payload p) ++ rest) (due_in-skip p0 p ps e))

  -- One message is taken off the channel of `p0`.
  abbrev Received : S → S → ℤ → Type 0
  Received s t p0 =
      ((p : ℤ)
        → InRow g p
        → channel s p ≡ replicate (one_if (eqb_ℤ p0 p)) (payload p) ++ channel t p)
      × ((p q' : ℤ)
          → InRow g p
          → InRow g q'
          → eqb_ℤ q q' ≡ false
          → net.pending t (key_of g n tables p q') ≡ net.pending s (key_of g n tables p q'))

  tail_eq :
      (c : Bool) (x : Input) (a b : List Input)
      → replicate (one_if c) x ++ a ≡ replicate (one_if c) x ++ b
      → a ≡ b
  tail_eq true x a b e = ap tail_or e
    where
      tail_or : List Input → List Input
      tail_or [] = []
      tail_or (y ∷ l) = l
  tail_eq false x a b e = e

  left_over :
      (p0 : ℤ) (s t : S) (ps : List ℤ) (p : ℤ)
      → InRow g p
      → comes p0 ≡ true
      → Received s t p0
      → (rest : List Input) → channel s p ≡ replicate (due_in p (p0 ∷ ps)) (payload p) ++ rest
      → channel t p ≡ replicate (due_in p ps) (payload p) ++ rest
  left_over p0 s t ps p hp e (got, _) rest h = tail_eq (eqb_ℤ p0 p) (payload p) _ _ (
      sym (got p hp)
      ∙ h
      ∙ ap (λ k. replicate k (payload p) ++ rest) (due_in-more p0 p ps e)
      ∙ ap (λ l. l ++ rest) (replicate-add (one_if (eqb_ℤ p0 p)) (due_in p ps) (payload p))
      ∙ append_assoc (replicate (one_if (eqb_ℤ p0 p)) (payload p)) _ rest)

  IsReady-more :
      (p0 : ℤ) (s t : S) (ps : List ℤ) (p : ℤ)
      → InRow g p
      → comes p0 ≡ true
      → Received s t p0
      → IsReady s (p0 ∷ ps) p
      → IsReady t ps p
  IsReady-more p0 s t ps p hp e got (inl (rest, h)) =
      inl (rest, left_over p0 s t ps p hp e got rest h)
  IsReady-more p0 s t ps p hp e got (inr empty) =
      inr (nothing_left (eqb_ℤ p0 p) (payload p) (channel t p) (sym empty ∙ got.0 p hp))
    where
      nothing_left :
          (c : Bool) (x : Input) (l : List Input) → [] ≡ replicate (one_if c) x ++ l → l ≡ []
      nothing_left true x l k = cc
      nothing_left false x l k = sym k

  -- The wait after the first of its receives.
  abbrev wait_rest : List Slot → Option (Input × S) → Option (List Input × S)
  wait_rest here none = none
  wait_rest here (some (input, t)) = elim (resolve net here t) [
    | none ↦ none
    | some (inputs, u) ↦ some (input ∷ inputs, u)
  ]

  abbrev put_first : Input → Option (List Input × S) → Option (List Input × S)
  put_first x none = none
  put_first x (some (inputs, u)) = some (x ∷ inputs, u)

  resolve-waits :
      (key : Key) (here : List Slot) (s : S)
      → net.irecv key s ≡ none
      → resolve net (requested key ∷ here) s ≡ none
  unfolding resolve
  resolve-waits key here s e = ap (wait_rest here) e

  resolve-took :
      (key : Key) (x : Input) (here : List Slot) (end : Option (List Input × S)) (s t : S)
      → net.irecv key s ≡ some (x, t)
      → resolve net here t ≡ end
      → resolve net (requested key ∷ here) s ≡ put_first x end
  unfolding resolve
  resolve-took key x here end s t e e' = ap (wait_rest here) e ∙ ap (put_first x) e'

  resolve-message :
      (here : List Slot) (inputs : List Input) (p0 : ℤ) (s t : S) (ps : List ℤ)
      → ((p : ℤ) → InRow g p → IsReady s (p0 ∷ ps) p)
      → comes p0 ≡ true
      → Received s t p0
      → net.irecv (key_of g n tables p0 q) s ≡ some (payload p0, t)
      → Resolved here inputs t ps
      → Resolved (requested (key_of g n tables p0 q) ∷ here) (payload p0 ∷ inputs) s (p0 ∷ ps)
  unfolding resolve
  resolve-message here inputs p0 s t ps ready e got first (inl (stuck, (p, hp, empty, due))) =
      blocked (ready p hp)
    where
      some_left : (k : ℕ) (x : Input) (rest : List Input) → 0 < k → [] ≡ replicate k x ++ rest → ⊥
      some_left zero x rest h k = omega arith
      some_left (suc k) x rest h e = cc

      blocked :
          IsReady s (p0 ∷ ps) p
          → Resolved (requested (key_of g n tables p0 q) ∷ here) (payload p0 ∷ inputs) s (p0 ∷ ps)
      blocked (inl (rest, h)) = absurd (
          some_left (due_in p ps) (payload p) rest due
            (sym empty ∙ left_over p0 s t ps p hp e got rest h))
      blocked (inr h) = inl (
        resolve-took _ _ here none s t first stuck,
        (p, hp, h, omega (arith, due_in-more p0 p ps e)),
      )
  resolve-message here inputs p0 s t ps ready e got first (inr (u, done, (taken, others))) = inr (
    u,
    resolve-took _ _ here (some (inputs, u)) s t first done,
    (
      λ p hp.
          got.0 p hp
          ∙ ap (λ l. replicate (one_if (eqb_ℤ p0 p)) (payload p) ++ l) (taken p hp)
          ∙ sym (append_assoc (replicate (one_if (eqb_ℤ p0 p)) (payload p)) _ (channel u p))
          ∙ ap (λ l. l ++ channel u p)
              (sym (replicate-add (one_if (eqb_ℤ p0 p)) (due_in p ps) (payload p))
                ∙ ap (λ k. replicate k (payload p)) (sym (due_in-more p0 p ps e))),
      λ p q' hp hq' d. others p q' hp hq' d ∙ got.1 p q' hp hq' d,
    ),
  )

  -- The first message of the channel is taken off.
  Received-first :
      (p0 : ℤ) (s t : S) (left : List Input)
      → InRow g p0
      → channel s p0 ≡ payload p0 ∷ left
      → ((j : Key)
          → net.pending t j
            ≡ (if same_key (key_of g n tables p0 q) j then left else net.pending s j))
      → Received s t p0
  Received-first p0 s t left h0 first moved = (
    λ p hp. taken p (eqb_ℤ p0 p) refl (
        moved (key_of g n tables p q)
        ∙ ap (λ b. if b then left else channel s p)
            (same_key-points g n tables hn hw owned p0 q p q h0 hq hp hq
              ∙ ap (λ b. eqb_ℤ p0 p && b) (eqb_self q)
              ∙ and_true (eqb_ℤ p0 p))),
    λ p q' hp hq' d.
        moved (key_of g n tables p q')
        ∙ ap (λ b. if b then left else net.pending s (key_of g n tables p q'))
            (same_key-points g n tables hn hw owned p0 q p q' h0 hq hp hq'
              ∙ ap (λ b. eqb_ℤ p0 p && b) d
              ∙ and_false (eqb_ℤ p0 p)),
  )
    where
      and_true : (b : Bool) → (b && true) ≡ b
      and_true true = refl
      and_true false = refl

      and_false : (b : Bool) → (b && false) ≡ false
      and_false true = refl
      and_false false = refl

      taken :
          (p : ℤ) (c : Bool)
          → eqb_ℤ p0 p ≡ c
          → channel t p ≡ (if c then left else channel s p)
          → channel s p ≡ replicate (one_if c) (payload p) ++ channel t p
      taken p true e h =
          ap (channel s) (sym (eqb-eq p0 p e))
          ∙ first
          ∙ ap (λ x. x ∷ left) (ap payload (eqb-eq p0 p e))
          ∙ ap (λ l. payload p ∷ l) (sym h)
      taken p false e h = sym h

  -- Of the two ends of a wait, at a point that sends a message.
  receive :
      (here : List Slot) (inputs : List Input) (p0 : ℤ) (s : S) (ps : List ℤ)
      → InRow g p0
      → ((p : ℤ) → InRow g p → IsReady s (p0 ∷ ps) p)
      → comes p0 ≡ true
      → ((t : S) → ((p : ℤ) → InRow g p → IsReady t ps p) → Resolved here inputs t ps)
      → Resolved (requested (key_of g n tables p0 q) ∷ here) (payload p0 ∷ inputs) s (p0 ∷ ps)
  unfolding resolve
  receive here inputs p0 s ps h0 ready e rest = from (ready p0 h0)
    where
      one_more : (k : ℕ) → 1 + k ≡ suc k
      one_more k = omega arith

      due_here : due_in p0 (p0 ∷ ps) ≡ suc (due_in p0 ps)
      due_here =
          due_in-more p0 p0 ps e
          ∙ ap (λ b. one_if b + due_in p0 ps) (eqb_self p0)
          ∙ one_more (due_in p0 ps)

      from :
          IsReady s (p0 ∷ ps) p0
          → Resolved (requested (key_of g n tables p0 q) ∷ here) (payload p0 ∷ inputs) s (p0 ∷ ps)
      from (inr empty) = inl (
        resolve-waits _ here s (net.irecv_waits (key_of g n tables p0 q) s empty),
        (p0, h0, empty, omega (arith, due_here)),
      )
      from (inl (more, h)) =
          let first = h ∙ ap (λ k. replicate k (payload p0) ++ more) due_here in
          let (t, took, moved) = net.irecv_first (key_of g n tables p0 q) (payload p0) _ s first in
          let got = Received-first p0 s t _ h0 first moved in
          resolve-message here inputs p0 s t ps ready e got took
            (rest t (λ p hp. IsReady-more p0 s t ps p hp e got (ready p hp)))

  -- The wait for the inputs of a point is blocked on an empty channel, or it ends with the outputs
  -- of the points that it depends on, in their order.
  pub resolve-Resolved :
      (ps : List ℤ) (s : S)
      → AllPoints g.max_width ps
      → ((p : ℤ) → InRow g p → IsReady s ps p)
      → Resolved (slots ps) (expected ps) s ps
  unfolding resolve receive_slots
  resolve-Resolved [] s h ready =
      inr (s, refl, (λ p hp. nothing (comes p) (payload p) (channel s p), λ p q' hp hq' e. refl))
    where
      nothing : (c : Bool) (x : Input) (l : List Input) → l ≡ replicate (weight c 0) x ++ l
      nothing true x l = refl
      nothing false x l = refl
  resolve-Resolved (p0 ∷ ps) s (h0, h) ready =
      split (in_last_row g timestep p0) (is_own g n tables (tables.rank_by_point q) p0) refl refl
        (λ s' ready'. resolve-Resolved ps s' h ready')
    where
      split :
          (x y : Bool)
          → in_last_row g timestep p0 ≡ x
          → is_own g n tables (tables.rank_by_point q) p0 ≡ y
          → ((s' : S)
              → ((p : ℤ) → InRow g p → IsReady s' ps p)
              → Resolved (slots ps) (expected ps) s' ps)
          → Resolved
              (if x
                then (if y
                    then copied (outputs p0) ∷ slots ps
                    else requested (key_of g n tables p0 q) ∷ slots ps)
                else slots ps)
              (if x then payload p0 ∷ expected ps else expected ps)
              s
              (p0 ∷ ps)
      split false y e e' rest =
          resolve-skip (slots ps) (expected ps) p0 s ps (rw e refl)
            (rest s (λ p hp. IsReady-skip p0 s ps p (rw e refl) (ready p hp)))
      split true true e e' rest =
          resolve-own (slots ps) (expected ps) p0 s ps (rw (e, e') refl) (local p0 e e' h0)
            (rest s (λ p hp. IsReady-skip p0 s ps p (rw (e, e') refl) (ready p hp)))
      split true false e e' rest =
          receive (slots ps) (expected ps) p0 s ps h0 ready (rw (e, e') refl) rest
