-- ===== src/Mpi/Rank/Posted.antt =====
-- All that a rank posts in a timestep.
use task_bench.Base.{
  ℕ, ◌≡◌, refl, sym, ap, ◌∙◌, subst, ◌+◌, false, inl, inr, List, ◌++◌, ◌&&◌, arith, replicate,
}
use mathlib.Core.List.{append-nil, append_assoc}
use task_bench.Base.Int.{ℤ, pos, ◌+ℤ◌, ◌≤ℤ◌, ◌<ℤ◌, eqb_ℤ, leb_ℤ, ltb_ℤ, int_laws}
use task_bench.Base.Outcome.{ok}
use task_bench.Base.Loops.{for_below_inv, Returns}
use task_bench.Platform.{Platform}
use task_bench.Graph.{TaskGraph, max_dependence_sets}
use task_bench.Graph.Deps.{Interval, dependencies}
use task_bench.Graph.Sound.{IsSound}
use task_bench.Graph.Deps.Count.{weight}
use task_bench.Task.{Input}
use task_bench.Mpi.Ranks.{Tables, put, first_point, last_point}
use task_bench.Mpi.Network.{Network}
use task_bench.Mpi.Rank.{Requests, is_own, key_of, sum_sizes, post_point, post_rank}
use task_bench.Mpi.Rank.Keys.{rank_bounds, AllOwned, InRow, put_other, put_at, before_differs}
use task_bench.Mpi.Rank.Sends.{replicate-add}
use task_bench.Mpi.Rank.Due.{sent}
use task_bench.Mpi.Rank.Most.{before_or_at, first_stop, loop_point, max_deps-Most}
use task_bench.Mpi.Rank.Slots.{payload, requests_at, HoldsOutputs}
use task_bench.Mpi.Rank.Posts.{post_point-Returns}

one_more :
    (f l p p0 : ℤ) (k : ℕ)
    → f ≤ℤ p0
    → p0 <ℤ l +ℤ pos 1
    → weight ((leb_ℤ f p && leb_ℤ p l) && ltb_ℤ p p0) k + weight (eqb_ℤ p0 p) k
      ≡ weight ((leb_ℤ f p && leb_ℤ p l) && ltb_ℤ p (p0 +ℤ pos 1)) k
one_more f l p p0 k h h' = grind int_laws

none_yet : (f l p : ℤ) → ((leb_ℤ f p && leb_ℤ p l) && ltb_ℤ p f) ≡ false
none_yet f l p = grind int_laws

all_now :
    (f l p : ℤ) → ((leb_ℤ f p && leb_ℤ p l) && ltb_ℤ p (l +ℤ pos 1)) ≡ (leb_ℤ f p && leb_ℤ p l)
all_now f l p = grind int_laws

module _ {D : Type 0} ⦃fl : Platform D⦄ {S : Type 0} (net : Network S) (g : TaskGraph D)
    (sound : IsSound g) (n : ℤ) (tables : Tables) (hn : pos 0 <ℤ n) (hw : pos 0 ≤ℤ g.max_width)
    (owned : AllOwned g n hn tables) (rank : ℤ) (h0 : pos 0 ≤ℤ rank) (hr : rank <ℤ n) (timestep : ℤ)
    (ht : pos 0 ≤ℤ timestep) (hT : timestep <ℤ g.timesteps) (outputs : ℤ → Input)
    (holds : HoldsOutputs g n tables timestep rank outputs) (requests0 : ℤ → Requests)
    (s0 : S) where
  abbrev first : ℤ
  first = first_point n g.max_width rank

  abbrev last : ℤ
  last = last_point n g.max_width rank

  -- The points before `j` of the rank have posted.
  PostedBefore : ℤ → (ℤ → Requests) × S → Type 0
  PostedBefore j (requests, s) =
      ((q : ℤ)
        → InRow g q
        → tables.rank_by_point q ≡ rank
        → first ≤ℤ q
        → q <ℤ j
        → requests q ≡ requests_at g n tables timestep q)
      × ((q : ℤ) → InRow g q → ¬ (tables.rank_by_point q ≡ rank) → requests q ≡ requests0 q)
      × ((p q : ℤ)
          → InRow g p
          → InRow g q
          → net.pending s (key_of g n tables p q)
            ≡ net.pending s0 (key_of g n tables p q)
              ++ replicate
                  (weight (is_own g n tables rank p && ltb_ℤ p j) (sent g timestep n tables p q))
                  (payload g timestep p))

  PostedBefore-step :
      (p0 : ℤ) (requests requests' : ℤ → Requests) (s s' : S)
      → first ≤ℤ p0
      → p0 <ℤ last +ℤ pos 1
      → PostedBefore p0 (requests, s)
      → requests' ≡ put p0 (requests_at g n tables timestep p0) requests
      → ((p q : ℤ)
          → InRow g p
          → InRow g q
          → net.pending s' (key_of g n tables p q)
            ≡ net.pending s (key_of g n tables p q)
              ++ replicate
                  (weight (eqb_ℤ p0 p) (sent g timestep n tables p q))
                  (payload g timestep p))
      → PostedBefore (p0 +ℤ pos 1) (requests', s')
  unfolding PostedBefore
  PostedBefore-step p0 requests requests' s s' h k (own, other, channels) e more =
      let (here, at) = loop_point g sound n tables hn hw owned rank h0 hr p0 h k in
      (
        λ q hq hq' l b. elim (before_or_at q p0 b) [
          | inl b' ↦
              ap (λ f. f q) e
              ∙ put_other p0 q _ requests (before_differs q p0 b')
              ∙ own q hq hq' l b'
          | inr e' ↦
              ap (λ f. f q) e
              ∙ subst
                  (λ z.
                    put p0 (requests_at g n tables timestep p0) requests z
                    ≡ requests_at g n tables timestep z)
                  (sym e') (put_at p0 _ requests)
        ],
        λ q hq d.
            ap (λ f. f q) e
            ∙ put_other p0 q _ requests (λ e'. d (ap tables.rank_by_point e' ∙ at))
            ∙ other q hq d,
        λ p q hp hq.
            more p q hp hq
            ∙ ap
                (λ l.
                  l
                  ++ replicate (weight (eqb_ℤ p0 p) (sent g timestep n tables p q))
                      (payload g timestep p))
                (channels p q hp hq)
            ∙ append_assoc (net.pending s0 (key_of g n tables p q)) _ _
            ∙ ap (λ l. net.pending s0 (key_of g n tables p q) ++ l)
                (sym (replicate-add _ _ (payload g timestep p))
                  ∙ ap (λ m. replicate m (payload g timestep p)) (one_more first last p p0 _ h k)),
      )

  -- All the points of the rank have posted.
  abbrev pub Posted : (ℤ → Requests) × S → Type 0
  Posted (requests, s) =
      ((q : ℤ)
        → InRow g q
        → tables.rank_by_point q ≡ rank
        → requests q ≡ requests_at g n tables timestep q)
      × ((q : ℤ) → InRow g q → ¬ (tables.rank_by_point q ≡ rank) → requests q ≡ requests0 q)
      × ((p q : ℤ)
          → InRow g p
          → InRow g q
          → net.pending s (key_of g n tables p q)
            ≡ net.pending s0 (key_of g n tables p q)
              ++ replicate (weight (is_own g n tables rank p) (sent g timestep n tables p q))
                  (payload g timestep p))

  pub post_rank-Posted :
      Returns (post_rank net g n tables rank timestep outputs (requests0, s0)) Posted
  unfolding post_rank PostedBefore
  post_rank-Posted =
      let (most, call, few) = max_deps-Most g sound n tables hn hw owned rank h0 hr in
      let ((requests, s), loop, (own, other, channels)) =
        for_below_inv PostedBefore _ first (last +ℤ pos 1) (requests0, s0)
          (first_stop g sound n tables hn hw owned rank h0 hr).0
          (λ p0 before h k posted. next most few p0 before h k posted) start in
      (
        (requests, s),
        rw call loop,
        (
          λ q hq e.
              let (low, high) = rank_bounds g n tables hn hw owned rank q hq e in
              own q hq e low (omega (int_laws, high)),
          other,
          λ p q hp hq.
              channels p q hp hq
              ∙ ap
                  (λ b.
                    net.pending s0 (key_of g n tables p q)
                    ++ replicate (weight b (sent g timestep n tables p q)) (payload g timestep p))
                  (all_now first last p),
        ),
      )
    where
      start : PostedBefore first (requests0, s0)
      start = (
        λ q hq e l b. absurd (omega (arith, l, b)),
        λ q hq e. refl,
        λ p q hp hq.
            sym (append-nil _)
            ∙ ap
                (λ b.
                  net.pending s0 (key_of g n tables p q)
                  ++ replicate (weight b (sent g timestep n tables p q)) (payload g timestep p))
                (sym (none_yet first last p)),
      )

      next :
          (most : ℤ)
          → ((d p : ℤ) (deps : List Interval)
              → pos 0 ≤ℤ d
              → d <ℤ max_dependence_sets g
              → first ≤ℤ p
              → p <ℤ last +ℤ pos 1
              → dependencies g d p ≡ ok deps
              → sum_sizes deps ≤ℤ most)
          → (p0 : ℤ) (before : (ℤ → Requests) × S) → first ≤ℤ p0
          → p0 <ℤ last +ℤ pos 1
          → PostedBefore p0 before
          → Returns
              (post_point net g n tables rank timestep outputs most p0 before)
              (PostedBefore (p0 +ℤ pos 1))
      next most few p0 (requests, s) h k posted =
          let (here, at) = loop_point g sound n tables hn hw owned rank h0 hr p0 h k in
          let ((requests', s'), call, (e, more)) =
            post_point-Returns net g sound n tables hn hw owned rank h0 hr timestep ht hT outputs
              holds most p0 requests s here at (λ d deps l b call'. few d p0 deps l b h k call') in
          ((requests', s'), call, PostedBefore-step p0 requests requests' s s' h k posted e more)
