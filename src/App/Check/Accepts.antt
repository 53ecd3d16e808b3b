-- ===== src/App/Check/Accepts.antt =====
-- `App::check`: the dependence sets that it accepts.
use task_bench.Base.{
  ℕ, ◌≡◌, refl, sym, ap, ◌∙◌, ◌+◌, ◌≤◌, ◌<◌, Bool, true, false, List, [], ◌∷◌, arith,
}
use task_bench.Base.Int.{eqb-eq, ℤ, pos, pos_part, neg_part, ◌+ℤ◌, ◌≤ℤ◌, ◌<ℤ◌, eqb_ℤ, int_laws}
use task_bench.Base.Outcome.{Outcome, ok, fault, check_that}
use task_bench.Base.Loops.{Returns, for_below_inv, for_each_inv}
use task_bench.Platform.{Platform}
use task_bench.Graph.{TaskGraph}
use task_bench.Graph.Deps.{Interval, dependencies, reverse_dependencies}
use task_bench.Graph.Deps.Count.{weight, count, one_if}
use task_bench.Graph.Deps.Mirror.{InRow, mirror}
use task_bench.Graph.Deps.Buffer.{Ready, dependencies_fit, reverse_dependencies_fit}
use task_bench.Graph.Deps.Buffer.Within.{AllWithin}
use task_bench.App.Check.{
  Materialized, has_dep, materialize_point, materialize, check_reverse_point, check_set,
}
use task_bench.App.Check.Materialize.{entries, has_dep-some, AllOrdered, insert_spans, within_of}

strictly : (i a : ℤ) → eqb_ℤ i a ≡ false → a <ℤ i +ℤ pos 1 → a <ℤ i
strictly i a h k = grind int_laws

self : (i a : ℤ) → i ≡ a → i ≤ℤ a
self i a e = omega (int_laws, ap pos_part e, ap neg_part e)

past_self : (i a : ℤ) → i ≡ a → i +ℤ pos 1 ≤ℤ a → ⊥
past_self i a e h = omega (int_laws, ap pos_part e, ap neg_part e)

-- How often the outcome of a call names a point.
abbrev named : Outcome (List Interval) → ℤ → ℕ
named (ok deps) b = count b deps
named (fault e) b = 0

AllWithin-AllOrdered : (w : ℤ) (deps : List Interval) → AllWithin w deps → AllOrdered deps
AllWithin-AllOrdered w [] h = tt
AllWithin-AllOrdered w (i ∷ deps) ((_, h, _), rest) = (h, AllWithin-AllOrdered w deps rest)

eqb-ne : (a b : ℤ) → eqb_ℤ a b ≡ false → a ≤ℤ b → a +ℤ pos 1 ≤ℤ b
eqb-ne a b h k = grind int_laws

module _ {D : Type 0} ⦃fl : Platform D⦄ (g : TaskGraph D) (dset : ℤ)
    (ready : Ready g.dependence g dset) where
  -- The map behind the points before `i`.
  abbrev Holds : ℤ → Materialized → Type 0
  Holds i m =
      (a b : ℤ)
      → (i ≤ℤ a → entries a b m ≡ 0)
        × (pos 0 ≤ℤ a → a <ℤ i → entries a b m ≡ named (dependencies g dset a) b)

  -- No point of the row names a dependence twice.
  abbrev pub NoneTwice : Type 0
  NoneTwice =
      (p b : ℤ) (deps : List Interval)
      → InRow g p
      → dependencies g dset p ≡ ok deps
      → count b deps ≤ 1

  module _ (once : NoneTwice) (hw : pos 0 ≤ℤ g.max_width) where
    materialize_point-Holds :
        (i : ℤ) (m : Materialized)
        → pos 0 ≤ℤ i
        → i <ℤ g.max_width
        → Holds i m
        → Returns (materialize_point g dset i m) (Holds (i +ℤ pos 1))
    unfolding materialize_point
    materialize_point-Holds i m low high holds =
        let (deps, _, call, _, _, inside) = dependencies_fit g dset i (low, high) ready in
        let (m', run, added) =
          insert_spans i deps m (AllWithin-AllOrdered g.max_width deps inside)
            (λ b. omega (arith, (holds i b).0 (omega arith), once i b deps (low, high) call)) in
        (m', rw call run, λ a b. step a b (eqb_ℤ i a) refl m' deps call (added a b))
      where
        step :
            (a b : ℤ) (x : Bool)
            → eqb_ℤ i a ≡ x
            → (m' : Materialized) (deps : List Interval) → dependencies g dset i ≡ ok deps
            → entries a b m' ≡ entries a b m + weight x (count b deps)
            → (i +ℤ pos 1 ≤ℤ a → entries a b m' ≡ 0)
              × (pos 0 ≤ℤ a → a <ℤ i +ℤ pos 1 → entries a b m' ≡ named (dependencies g dset a) b)
        step a b true e m' deps call added =
            let same : i ≡ a = eqb-eq i a e in
            (
              (λ past. absurd (past_self i a same past)),
              λ h k.
                  added
                  ∙ omega (
                    arith,
                    (holds a b).0 (self i a same),
                    ap (λ c. named (dependencies g dset c) b) (sym same) ∙ ap (λ c. named c b) call,
                  ),
            )
        step a b false e m' deps call added = (
          (λ past. omega (arith, added, (holds a b).0 omega int_laws)),
          λ h k. added ∙ omega (arith, (holds a b).1 h (strictly i a e k)),
        )

    materialize-Holds : Returns (materialize g dset) (Holds g.max_width)
    unfolding materialize
    materialize-Holds =
        for_below_inv Holds (materialize_point g dset) (pos 0) g.max_width [] hw
          (λ i m low high holds. materialize_point-Holds i m low high holds)
          (λ a b. ((λ _. refl), λ h k. absurd (omega arith)))

    -- A point that is named by a reverse dependence has its entry.
    has_mirrored :
        (m : Materialized) (point rdp : ℤ) (rdeps : List Interval)
        → pos 0 ≤ℤ dset
        → pos 0 ≤ℤ g.radix
        → Holds g.max_width m
        → InRow g point
        → InRow g rdp
        → reverse_dependencies g dset point ≡ ok rdeps
        → 0 < count rdp rdeps
        → has_dep rdp point m ≡ true
    has_mirrored m point rdp rdeps hd hr holds hp hq rcall some_named =
        let (deps, _, call, _, _, _) = dependencies_fit g dset rdp hq ready in
        has_dep-some rdp point m (
          omega (
            arith,
            (holds rdp point).1 hq.0 hq.1,
            ap (λ c. named c point) call,
            mirror g dset rdp point hq hp hd hr call rcall,
          ))

    check_reverse_point-Returns :
        (m : Materialized) (point : ℤ)
        → pos 0 ≤ℤ dset
        → pos 0 ≤ℤ g.radix
        → Holds g.max_width m
        → InRow g point
        → Returns (check_reverse_point g dset m point) (λ _. Unit {0})
    unfolding check_reverse_point
    check_reverse_point-Returns m point hd hr holds hp =
        let (rdeps, _, rcall, _, _, inside) = reverse_dependencies_fit g dset point hp ready in
        let (s, run, _) =
          for_each_inv
            (λ rest _. AllWithin g.max_width rest × ((b : ℤ) → count b rest ≤ count b rdeps)) _
            rdeps tt
            (λ rdep rest s ((within_row, others), fewer).
              let (s', run', _) =
                for_below_inv (λ _ _. Unit {0}) (λ rdp _. check_that (has_dep rdp point m)) rdep.0
                  (rdep.1 +ℤ pos 1) s (omega int_laws)
                  (λ rdp u low high _. (
                    tt,
                    ap check_that (
                        has_mirrored m point rdp rdeps hd hr holds hp
                          (omega int_laws, omega int_laws) rcall
                          (omega
                            (arith, fewer rdp, ap one_if (within_of rdep.0 rdep.1 rdp low high)))),
                    tt,
                  ))
                  tt in
              (s', run', (others, λ b. omega (arith, fewer b))))
            (inside, λ b. omega arith) in
        (s, rw rcall run, tt)

  -- For a dependence set and a radix that are not negative, a width that is not negative and a
  -- pattern that is ready: where no point of the row names a dependence twice, `check` accepts the
  -- dependence set, in that no assertion on the duplicates or on the reverse dependences fails.
  pub check_set-accepts :
      pos 0 ≤ℤ dset → pos 0 ≤ℤ g.radix → pos 0 ≤ℤ g.max_width → NoneTwice → check_set g dset ≡ ok tt
  unfolding check_set
  check_set-accepts hd hr hw once =
      let (m, run, holds) = materialize-Holds once hw in
      let (s, run', _) =
        for_below_inv (λ _ _. Unit {0}) (λ point _. check_reverse_point g dset m point) (pos 0)
          g.max_width tt hw
          (λ point _ low high _.
            check_reverse_point-Returns once hw m point hd hr holds (low, high))
          tt in
      rw run run'
