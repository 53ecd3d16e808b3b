-- ===== src/App/Check/Materialize.antt =====
-- `App::check`: what the map of the dependences holds, and when its assertions pass.
use task_bench.Base.{
  ℕ, ◌≡◌, refl, ap, ◌∙◌, ◌+◌, ◌≤◌, ◌<◌, Bool, true, false, List, [], ◌∷◌, ◌&&◌, ◌||◌, arith,
}
use task_bench.Base.Int.{ℤ, pos, ◌+ℤ◌, ◌≤ℤ◌, ◌<ℤ◌, leb_ℤ, ltb_ℤ, eqb_ℤ, int_laws}
use task_bench.Base.Loops.{Returns, for_below, for_each, for_below_inv}
use task_bench.Graph.Deps.{Interval}
use task_bench.Graph.Deps.Count.{weight, count, within, one_if}
use task_bench.App.Check.{Materialized, has_dep, insert_dep}

-- How often the map's list has a dependence.
abbrev pub entries : ℤ → ℤ → Materialized → ℕ
entries a b [] = 0
entries a b ((p, d) ∷ m) = one_if (eqb_ℤ p a && eqb_ℤ d b) + entries a b m

pub has_dep-none : (a b : ℤ) (m : Materialized) → entries a b m ≡ 0 → has_dep a b m ≡ false
unfolding has_dep
has_dep-none a b [] h = refl
has_dep-none a b ((p, d) ∷ m) h = step (eqb_ℤ p a && eqb_ℤ d b) h (λ k. has_dep-none a b m k)
  where
    step :
        (x : Bool)
        → one_if x + entries a b m ≡ 0
        → (entries a b m ≡ 0 → has_dep a b m ≡ false)
        → (x || has_dep a b m) ≡ false
    step true h rest = absurd (omega (arith, h))
    step false h rest = rest (omega (arith, h))

pub has_dep-some : (a b : ℤ) (m : Materialized) → 0 < entries a b m → has_dep a b m ≡ true
unfolding has_dep
has_dep-some a b [] h = absurd (omega arith)
has_dep-some a b ((p, d) ∷ m) h = step (eqb_ℤ p a && eqb_ℤ d b) h (λ k. has_dep-some a b m k)
  where
    step :
        (x : Bool)
        → 0 < one_if x + entries a b m
        → (0 < entries a b m → has_dep a b m ≡ true)
        → (x || has_dep a b m) ≡ true
    step true h rest = refl
    step false h rest = rest (omega arith)

eqb_self : (a : ℤ) → eqb_ℤ a a ≡ true
eqb_self a = ground arith

-- One more point of an interval is in.
one_more :
    (x : Bool) (first j b : ℤ)
    → first ≤ℤ j
    → one_if (x && eqb_ℤ j b) + weight x (one_if (leb_ℤ first b && ltb_ℤ b j))
      ≡ weight x (one_if (leb_ℤ first b && ltb_ℤ b (j +ℤ pos 1)))
one_more true first j b h = grind int_laws
one_more false first j b h = refl

none_yet : (first b : ℤ) → one_if (leb_ℤ first b && ltb_ℤ b first) ≡ 0
none_yet first b = grind int_laws

not_itself : (first j : ℤ) → one_if (leb_ℤ first j && ltb_ℤ j j) ≡ 0
not_itself first j = grind int_laws

all_in : (first last b : ℤ) → (leb_ℤ first b && ltb_ℤ b (last +ℤ pos 1)) ≡ within b (first, last)
all_in first last b = grind int_laws

pub within_of : (first last j : ℤ) → first ≤ℤ j → j <ℤ last +ℤ pos 1 → within j (first, last) ≡ true
within_of first last j h k = grind int_laws

-- What is added to the map by the points of an interval of the point `p`.
abbrev Added : ℤ → (ℤ → ℕ) → Materialized → Materialized → Type 0
Added p more m0 m = (a b : ℤ) → entries a b m ≡ entries a b m0 + weight (eqb_ℤ p a) (more b)

weight_zero : (x : Bool) → weight x 0 ≡ 0
weight_zero true = refl
weight_zero false = refl

weight_add : (x : Bool) (a b : ℕ) → weight x (a + b) ≡ weight x a + weight x b
weight_add true a b = refl
weight_add false a b = omega arith

insert_span :
    (p first last : ℤ) (m0 : Materialized)
    → first ≤ℤ last
    → ((b : ℤ) → within b (first, last) ≡ true → entries p b m0 ≡ 0)
    → Returns
        (for_below first (last +ℤ pos 1) (insert_dep p) m0)
        (Added p (λ b. one_if (within b (first, last))) m0)
unfolding insert_dep
insert_span p first last m0 h fresh =
    let (m, call, added) =
      for_below_inv (λ j m. Added p (λ b. one_if (leb_ℤ first b && ltb_ℤ b j)) m0 m) (insert_dep p)
        first (last +ℤ pos 1) m0 (omega int_laws)
        (λ j t low high added.
          let before : entries p j m0 ≡ 0 = fresh j (within_of first last j low high) in
          let weighed : weight (eqb_ℤ p p) (one_if (leb_ℤ first j && ltb_ℤ j j)) ≡ 0 =
            ap (weight (eqb_ℤ p p)) (not_itself first j) ∙ weight_zero (eqb_ℤ p p) in
          let absent : entries p j t ≡ 0 = added p j ∙ omega (arith, before, weighed) in
          rw (has_dep-none p j t absent)
            (_, refl, λ a b. omega (arith, added a b, one_more (eqb_ℤ p a) first j b low)))
        (λ a b.
          omega (arith, ap (weight (eqb_ℤ p a)) (none_yet first b) ∙ weight_zero (eqb_ℤ p a))) in
    (
      m,
      call,
      λ a b.
          added a b
          ∙ ap (λ x. entries a b m0 + weight (eqb_ℤ p a) (one_if x)) (all_in first last b),
    )

-- Intervals that are not empty.
abbrev pub AllOrdered : List Interval → Type 0
AllOrdered [] = Unit
AllOrdered (i ∷ rest) = (i.0 ≤ℤ i.1) × AllOrdered rest

-- The dependences of a point that is new to the map, none of them named twice, are inserted.
pub insert_spans :
    (p : ℤ) (deps : List Interval) (m0 : Materialized)
    → AllOrdered deps
    → ((b : ℤ) → entries p b m0 + count b deps ≤ 1)
    → Returns
        (for_each deps (λ dep m. for_below dep.0 (dep.1 +ℤ pos 1) (insert_dep p) m) m0)
        (Added p (λ b. count b deps) m0)
unfolding for_each
insert_spans p [] m0 ordered once = (m0, refl, λ a b. omega (arith, weight_zero (eqb_ℤ p a)))
insert_spans p (dep ∷ deps) m0 ordered once =
    let (m, call, added) =
      insert_span p dep.0 dep.1 m0 ordered.0
        (λ b inside. alone (within b dep) (entries p b m0) (count b deps) inside (once b)) in
    let (m', call', added') = insert_spans p deps m ordered.1 (λ b.
      omega (arith, added p b, once b, ap (λ x. weight x (one_if (within b dep))) (eqb_self p))) in
    (
      m',
      rw call call',
      λ a b. omega (
        arith,
        added a b,
        added' a b,
        weight_add (eqb_ℤ p a) (one_if (within b dep)) (count b deps),
      ),
    )
  where
    alone : (x : Bool) (n k : ℕ) → x ≡ true → n + (one_if x + k) ≤ 1 → n ≡ 0
    alone true n k e h = omega arith
    alone false n k e h = cc
