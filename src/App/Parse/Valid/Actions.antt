-- ===== src/App/Parse/Valid/Actions.antt =====
-- What an action of the parser keeps, from the actions that it is built of.
use Prim.Native.String.{String}
use text.Mathlib.Text.{◌==◌ as str_eq}
use task_bench.Base.{
  ◌≤◌, ◌≡◌, Bool, false, List, [], ◌∷◌, ◌++◌, Option, some, none, Bool-cases, inl, inr, subst,
}
use task_bench.Base.Int.{pos, ◌≤ℤ◌, ◌<ℤ◌}
use task_bench.Base.Outcome.{Fault, ok, fault, >>=-eq-ok, ok-injective}
use task_bench.Base.Loops.{for_each}
use task_bench.Graph.{TaskGraph}
use task_bench.App.Names.{find_name}
use task_bench.App.Parse.State.{
  Parser, Action, on, take_next, next_argument, value_flag, name_flag, store_found,
}

abbrev pub IsParsed : {D : Type 0} → TaskGraph D → Type 0
IsParsed g =
    (pos 0 <ℤ g.timesteps)
    × (pos 0 <ℤ g.max_width)
    × (pos 0 ≤ℤ g.radix)
    × (pos 0 ≤ℤ g.kernel.iterations)
    × (pos 0 ≤ℤ g.kernel.samples)
    × (16 ≤ g.output_bytes_per_task)

abbrev pub AllParsed : {D : Type 0} → List (TaskGraph D) → Type 0
AllParsed [] = Unit
AllParsed (g ∷ rest) = IsParsed g × AllParsed rest

pub AllParsed-append :
    {D : Type 0} (gs hs : List (TaskGraph D)) → AllParsed gs → AllParsed hs → AllParsed (gs ++ hs)
AllParsed-append [] hs p q = q
AllParsed-append (g ∷ gs) hs p q = (p.0, AllParsed-append gs hs p.1 q)

abbrev pub IsValid : {D : Type 0} → Parser D → Type 0
IsValid s = IsParsed s.graph × AllParsed s.app.graphs

-- An action that keeps the graphs valid where it returns.
abbrev pub Keeps : {D : Type 0} → Action D → Type 0
Keeps {D = D} action = (s t : Parser D) → IsValid s → action s ≡ ok t → IsValid t

pub not_fault : {A B : Type 0} {a : A} {e : Fault} → fault e ≡ ok a → B
not_fault h = cc

module _ {D : Type 0} where
  take_next-Keeps : (r : List String) → Keeps (take_next {D = D} r)
  unfolding take_next
  take_next-Keeps [] s t h e = not_fault e
  take_next-Keeps (a ∷ r) s t h e = subst IsValid (ok-injective e) h

  pub value_flag-Keeps :
      {V : Type 0} (read : String → V) (bad : V → Bool) (store : V → Parser D → Parser D)
      → ((v : V) (s : Parser D) → bad v ≡ false → IsValid s → IsValid (store v s))
      → Keeps (value_flag read bad store)
  unfolding value_flag next_argument
  value_flag-Keeps read bad store keep s t h e =
      let (s', taken, e') = >>=-eq-ok (next_argument s) _ e in
      let h' = take_next-Keeps s.rest s s' h taken in
      elim (Bool-cases (bad (read s'.current))) [
        | inl refused ↦ not_fault (rw refused at e')
        | inr good ↦ subst IsValid (ok-injective (rw good at e')) (keep _ s' good h')
      ]

  store_found-Keeps :
      {V : Type 0} (found : Option V) (store : V → Parser D → Parser D)
      → ((v : V) (s : Parser D) → IsValid s → IsValid (store v s))
      → Keeps (store_found found store)
  unfolding store_found
  store_found-Keeps none store keep s t h e = not_fault e
  store_found-Keeps (some v) store keep s t h e = subst IsValid (ok-injective e) (keep v s h)

  pub name_flag-Keeps :
      {V : Type 0} (names : List (String × V)) (store : V → Parser D → Parser D)
      → ((v : V) (s : Parser D) → IsValid s → IsValid (store v s))
      → Keeps (name_flag names store)
  unfolding name_flag next_argument
  name_flag-Keeps names store keep s t h e =
      let (s', taken, e') = >>=-eq-ok (next_argument s) _ e in
      store_found-Keeps (find_name s'.current names) store keep s' t
        (take_next-Keeps s.rest s s' h taken) e'

  pub update-Keeps :
      (f : Parser D → Parser D)
      → ((s : Parser D) → IsValid s → IsValid (f s))
      → Keeps (λ s. ok (f s))
  update-Keeps f keep s t h e = subst IsValid (ok-injective e) (keep s h)

  abbrev pub AllKeep : List (String × Action D) → Type 0
  AllKeep [] = Unit
  AllKeep ((flag, action) ∷ rest) = Keeps action × AllKeep rest

  pub AllKeep-append :
      (fs gs : List (String × Action D)) → AllKeep fs → AllKeep gs → AllKeep (fs ++ gs)
  AllKeep-append [] gs p q = q
  AllKeep-append (f ∷ fs) gs p q = (p.0, AllKeep-append fs gs p.1 q)

  on-Keeps : (flag : String) (action : Action D) → Keeps action → Keeps (on flag action)
  unfolding on
  on-Keeps flag action keep s t h e = elim (Bool-cases (str_eq s.current flag)) [
    | inl here ↦ keep s t h (rw here at e)
    | inr other ↦ subst IsValid (ok-injective (rw other at e)) h
  ]

  pub for_each-Keeps :
      (fs : List (String × Action D)) → AllKeep fs → Keeps (for_each fs (λ f t. on f.0 f.1 t))
  unfolding for_each
  for_each-Keeps [] k s t h e = subst IsValid (ok-injective e) h
  for_each-Keeps ((flag, action) ∷ fs) k s t h e =
      let (s', first, rest) = >>=-eq-ok (on flag action s) _ e in
      for_each-Keeps fs k.1 s' t (on-Keeps flag action k.0 s s' h first) rest
