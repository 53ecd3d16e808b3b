-- ===== src/Mpi/Rank/Most.antt =====
-- The points of a rank, and the most inputs that one of them has.
use task_bench.Base.{
  ◌≡◌, refl, sym, ap, ◌∙◌, subst, Bool-cases, inl, inr, List, arith, le→leb, ltb→lt, ◌⊎◌,
}
use task_bench.Base.Int.{
  ℤ, pos, ◌+ℤ◌, ◌-ℤ◌, ◌≤ℤ◌, ◌<ℤ◌, ltb_ℤ, max_ℤ, int_laws, eq_of_parts, le_of_not_ltb,
}
use task_bench.Base.Outcome.{Outcome, ok, ok-injective, ◌>>=◌}
use task_bench.Base.Loops.{for_below, for_below_inv, Returns}
use task_bench.Platform.{Platform}
use task_bench.Graph.{TaskGraph, max_dependence_sets}
use task_bench.Graph.Sound.{IsSound}
use task_bench.Graph.Deps.{Interval, dependencies}
use task_bench.Graph.Deps.Buffer.{dependencies_fit}
use task_bench.Mpi.Ranks.{Tables, first_point, last_point}
use task_bench.Mpi.Ranks.Owner.{first_mono, first_nonneg, first_end, last-first}
use task_bench.Mpi.Rank.{sum_sizes, max_deps}
use task_bench.Mpi.Rank.Keys.{AllOwned, InRow, rank-is_own}

pub at_most : (p l : ℤ) → p <ℤ l +ℤ pos 1 → p ≤ℤ l
at_most p l h = omega int_laws

keep : (a b c : ℤ) → a ≤ℤ b → a ≤ℤ max_ℤ b c
keep a b c h = omega int_laws

size_at : (b a c : ℤ) → a ≡ c → a ≤ℤ max_ℤ b c
size_at b a c e = subst (λ x. x ≤ℤ max_ℤ b c) (sym e) (omega int_laws)

pub before_or_at : (p j : ℤ) → p <ℤ j +ℤ pos 1 → (p <ℤ j) ⊎ (p ≡ j)
before_or_at p j h = elim (Bool-cases (ltb_ℤ p j)) [
  | inl e ↦ inl (ltb→lt _ _ e)
  | inr e ↦ inr (eq_of_parts p j (omega (int_laws, le_of_not_ltb p j e)))
]

module _ {D : Type 0} ⦃fl : Platform D⦄ (g : TaskGraph D) (sound : IsSound g) (n : ℤ)
    (tables : Tables) (hn : pos 0 <ℤ n) (hw : pos 0 ≤ℤ g.max_width) (owned : AllOwned g n hn tables)
    (rank : ℤ) (h0 : pos 0 ≤ℤ rank) (hr : rank <ℤ n) where
  abbrev first : ℤ
  first = first_point n g.max_width rank

  abbrev last : ℤ
  last = last_point n g.max_width rank

  pub first_stop : (first ≤ℤ last +ℤ pos 1) × (last <ℤ g.max_width)
  first_stop =
      let mono = first_mono n g.max_width hn hw rank (rank +ℤ pos 1) h0 (omega int_laws) in
      let end =
        first_mono n g.max_width hn hw (rank +ℤ pos 1) n (omega int_laws) (omega int_laws) in
      rw (last-first n g.max_width hn hw rank)
        (bounds _ _ _ _ mono end (first_end n g.max_width hn hw))
    where
      bounds :
          (a b c w : ℤ) → a ≤ℤ b → b ≤ℤ c → c ≡ w → (a ≤ℤ b -ℤ pos 1 +ℤ pos 1) × (b -ℤ pos 1 <ℤ w)
      bounds a b c w h k e = rw (← e) (omega int_laws)

  -- The points of the loops are those of the rank.
  pub loop_point :
      (p : ℤ) → first ≤ℤ p → p <ℤ last +ℤ pos 1 → InRow g p × (tables.rank_by_point p ≡ rank)
  loop_point p h k =
      let here : InRow g p =
        (inside _ p last _ (first_nonneg n g.max_width hn hw rank h0) h k first_stop.1) in
      (
        here,
        rank-is_own g n tables hn hw owned rank p here h0
            (rw (le→leb _ _ h, le→leb _ _ (at_most p last k)) refl),
      )
    where
      inside :
          (f p l w : ℤ) → pos 0 ≤ℤ f → f ≤ℤ p → p <ℤ l +ℤ pos 1 → l <ℤ w → (pos 0 ≤ℤ p) × (p <ℤ w)
      inside f p l w a b c d = omega int_laws

  abbrev Most : ℤ → ℤ → Type 0
  Most dset most =
      (d p : ℤ) (deps : List Interval)
      → pos 0 ≤ℤ d
      → d <ℤ dset
      → first ≤ℤ p
      → p <ℤ last +ℤ pos 1
      → dependencies g d p ≡ ok deps
      → sum_sizes deps ≤ℤ most

  -- The most inputs of a point of the rank.
  pub max_deps-Most : Returns (max_deps g n rank) (Most (max_dependence_sets g))
  unfolding max_deps
  max_deps-Most =
      for_below_inv Most _ (pos 0) (max_dependence_sets g) (pos 0) (omega (arith, sound.1))
        (λ dset most hd hd' before. next_set dset most hd hd' before (row dset most hd hd'))
        (λ d p deps l k. absurd (omega arith))
    where
      step : ℤ → ℤ → ℤ → Outcome ℤ
      step dset point most = do deps ← dependencies g dset point; ok (max_ℤ most (sum_sizes deps))

      Part : ℤ → ℤ → ℤ → ℤ → Type 0
      Part dset start p most =
          (start ≤ℤ most)
          × ((p' : ℤ) (deps : List Interval)
              → first ≤ℤ p'
              → p' <ℤ p
              → dependencies g dset p' ≡ ok deps
              → sum_sizes deps ≤ℤ most)

      row :
          (dset most : ℤ)
          → pos 0 ≤ℤ dset
          → dset <ℤ max_dependence_sets g
          → Returns
              (for_below first (last +ℤ pos 1) (step dset) most)
              (Part dset most (last +ℤ pos 1))
      row dset most hd hd' =
          for_below_inv (Part dset most) (step dset) first (last +ℤ pos 1) most first_stop.0
            (λ p most' h k part.
              let (here, _) = loop_point p h k in
              let (deps, _, call, _, _, _) = dependencies_fit g dset p here (sound.2 dset hd hd') in
              (
                max_ℤ most' (sum_sizes deps),
                rw call refl,
                (
                  keep _ _ _ part.0,
                  λ p' deps' l b call'. elim (before_or_at p' p b) [
                    | inl b' ↦ keep _ _ _ (part.1 p' deps' l b' call')
                    | inr e ↦ size_at most' _ _ (
                        ap sum_sizes (ok-injective (sym call' ∙ ap (dependencies g dset) e ∙ call)))
                  ],
                ),
              ))
            (omega arith, λ p deps h k. absurd (omega arith))

      next_set :
          (dset most : ℤ)
          → pos 0 ≤ℤ dset
          → dset <ℤ max_dependence_sets g
          → Most dset most
          → Returns
              (for_below first (last +ℤ pos 1) (step dset) most)
              (Part dset most (last +ℤ pos 1))
          → Returns (for_below first (last +ℤ pos 1) (step dset) most) (Most (dset +ℤ pos 1))
      next_set dset most hd hd' before (most', call, (more, here)) = (
        most',
        call,
        λ d p deps l b h k call'. elim (before_or_at d dset b) [
          | inl b' ↦ omega (arith, before d p deps l b' h k call', more)
          | inr e ↦ here p deps h k (ap (λ x. dependencies g x p) (sym e) ∙ call')
        ],
      )
