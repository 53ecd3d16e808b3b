-- ===== src/App/Construct.antt =====
-- core/core.cc: the whole constructor `App::App`, which parses the arguments and then calls `check`.
use Prim.Native.String.{String}
use task_bench.Base.{◌≡◌, refl, subst, Bool, true, false, not, List, [], ◌∷◌, ◌&&◌, arith}
use task_bench.Base.Int.{ℤ, pos, ◌+ℤ◌, ◌-ℤ◌, ◌≤ℤ◌, ◌<ℤ◌, eqb_ℤ}
use task_bench.Base.Outcome.{Outcome, ok, ◌>>=◌, ◌>>◌, >>=-eq-ok, ok-injective, abort_if}
use task_bench.Base.Loops.{for_each}
use task_bench.Platform.{Platform}
use task_bench.Graph.{TaskGraph, needs_period, checked_div}
use task_bench.App.{App}
use task_bench.App.Parse.{parse_app}
use task_bench.App.Parse.Valid.{IsParsed, AllParsed, parse_app-AllParsed}
use task_bench.App.Check.{check, check_graph}

-- A period where the pattern needs one, and none where it does not; and a radix to divide by.
abbrev pub IsConstructed : {D : Type 0} → TaskGraph D → Type 0
IsConstructed g =
    IsParsed g × (pos 0 <ℤ g.radix) × (needs_period g.dependence ≡ not (eqb_ℤ g.period (pos 0)))

abbrev pub AllConstructed : {D : Type 0} → List (TaskGraph D) → Type 0
AllConstructed [] = Unit
AllConstructed (g ∷ rest) = IsConstructed g × AllConstructed rest

abort_if-eq-ok : (b : Bool) {u : Unit {0}} → abort_if b ≡ ok u → b ≡ false
abort_if-eq-ok true e = cc
abort_if-eq-ok false e = refl

checked_div-eq-ok : (a b : ℤ) {q : ℤ} → checked_div a b ≡ ok q → pos 0 ≤ℤ b → pos 0 <ℤ b
checked_div-eq-ok a b e h = ground arith

agree :
    (needs zeroth : Bool)
    → (needs && zeroth) ≡ false
    → (not needs && not zeroth) ≡ false
    → needs ≡ not zeroth
agree true true h k = cc
agree true false h k = refl
agree false true h k = refl
agree false false h k = cc

module _ {D : Type 0} ⦃fl : Platform D⦄ where
  unfoldable pub construct : List String → Outcome (App D)
  construct args = do app ← parse_app args; check app; ok app

  check_graph-eq-ok :
      (g : TaskGraph D) {u : Unit {0}} → check_graph g ≡ ok u → IsParsed g → IsConstructed g
  unfolding check_graph
  check_graph-eq-ok g e parsed =
      let (_, some_period, e1) =
        >>=-eq-ok (abort_if (needs_period g.dependence && eqb_ℤ g.period (pos 0))) _ e in
      let (_, no_period, e2) =
        >>=-eq-ok (abort_if (not (needs_period g.dependence) && not (eqb_ℤ g.period (pos 0)))) _
          e1 in
      let (_, divided, _) =
        >>=-eq-ok (checked_div (g.max_width +ℤ g.radix -ℤ pos 1) g.radix) _ e2 in
      (
        parsed,
        checked_div-eq-ok _ g.radix divided parsed.2,
        agree _ _ (abort_if-eq-ok _ some_period) (abort_if-eq-ok _ no_period),
      )

  check-AllConstructed :
      (graphs : List (TaskGraph D)) (s : Unit {0}) {u : Unit {0}}
      → for_each graphs (λ g _. check_graph g) s ≡ ok u
      → AllParsed graphs
      → AllConstructed graphs
  unfolding for_each
  check-AllConstructed [] s e parsed = tt
  check-AllConstructed (g ∷ graphs) s e (parsed, others) =
      let (s', first, rest) = >>=-eq-ok (check_graph g) _ e in
      (check_graph-eq-ok g first parsed, check-AllConstructed graphs s' rest others)

  -- Every graph of an application that is constructed has timesteps, a width and a radix above zero,
  -- iterations and samples that are not negative, outputs of at least sixteen bytes, and a period
  -- other than zero exactly where its pattern needs one.
  pub construct-AllConstructed :
      (args : List String) {app : App D} → construct args ≡ ok app → AllConstructed app.graphs
  unfolding construct check
  construct-AllConstructed args {app = app} e =
      let (parsed, run, e1) = >>=-eq-ok (parse_app args) _ e in
      let (_, passed, e2) = >>=-eq-ok (check parsed) _ e1 in
      let same : parsed ≡ app = ok-injective e2 in
      subst (λ (a : App D). AllConstructed a.graphs) same
        (check-AllConstructed parsed.graphs tt passed (parse_app-AllParsed args run))
