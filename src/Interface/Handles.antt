-- ===== src/Interface/Handles.antt =====
-- The lists of intervals behind the pointers of the interface.
use task_bench.Base.{
  ℕ, suc, ◌≡◌, refl, sym, ap, ◌∙◌, subst, ◌≤◌, ◌<◌, Bool, true, false, List, none, some, length,
  get_elem?, if◌then◌else◌, ◌==◌, arith,
}
use task_bench.Base.Int.{ℤ, pos}
use task_bench.Base.Outcome.{Outcome, ok, fault, undefined, ◌>>=◌}
use task_bench.Platform.{Platform}
use task_bench.Graph.{TaskGraph}
use task_bench.Graph.Deps.{Interval, dependencies}
use task_bench.Interface.{
  Store, set, found, element, at, wrap_consume, unwrap, interval_list_num_intervals,
  interval_list_interval, interval_list_destroy, task_graph_dependencies,
}

-- Nothing is allocated at the addresses that were not handed out.
abbrev pub IsStore : Store → Type 0
IsStore s = (k : ℕ) → s.next ≤ k → s.live k ≡ none

same_test : (n : ℕ) → (n == n) ≡ true
same_test n = ground arith

later_test : (k n : ℕ) → suc n ≤ k → (k == n) ≡ false
later_test k n h = ground arith

other_test : (k n : ℕ) → k < n → (k == n) ≡ false
other_test k n h = ground arith

-- What a client reads through a pointer to the list.
abbrev pub Reads : ℕ → List Interval → Store → Type 0
Reads l d s =
    (interval_list_num_intervals l s ≡ ok (pos (length d)))
    × ((i : ℕ) (x : Interval) → get_elem? d i ≡ some x → interval_list_interval l (pos i) s ≡ ok x)

-- After it is destroyed.
abbrev pub IsGone : ℕ → Store → Type 0
IsGone l s =
    (interval_list_num_intervals l s ≡ fault undefined)
    × ((i : ℤ) → interval_list_interval l i s ≡ fault undefined)
    × (interval_list_destroy l s ≡ fault undefined)

Reads-live : (l : ℕ) (d : List Interval) (s : Store) → s.live l ≡ some d → Reads l d s
unfolding interval_list_num_intervals interval_list_interval unwrap
Reads-live l d s e =
    (rw e refl, λ i x e'. ap (λ o. found o >>= λ d'. at d' (pos i)) e ∙ ap element e')

IsGone-none : (l : ℕ) (s : Store) → s.live l ≡ none → IsGone l s
unfolding interval_list_num_intervals interval_list_interval interval_list_destroy unwrap
IsGone-none l s e = (rw e refl, (λ i. rw e refl), rw e refl)

-- What holds of a list that is handed out.
abbrev pub HandsOut : Outcome (ℕ × Store) → List Interval → Store → Type 0
HandsOut call d s =
    (l : ℕ) × (t : Store) × (call ≡ ok (l, t))
    × IsStore t
    × Reads l d t
    × ((k : ℕ) → k < s.next → t.live k ≡ s.live k)
    × ((u : Store) × (interval_list_destroy l t ≡ ok u)
        × IsStore u
        × IsGone l u
        × ((k : ℕ) → u.live k ≡ s.live k))

wrap_consume-HandsOut :
    (d : List Interval) (s : Store) → IsStore s → HandsOut (ok (wrap_consume d s)) d s
unfolding wrap_consume interval_list_destroy unwrap
wrap_consume-HandsOut d s free = (
  s.next,
  t,
  refl,
  (λ k h. ap (λ b. if b then some d else s.live k) (later_test k s.next h) ∙ free k (omega arith)),
  Reads-live s.next d t there,
  (λ k h. ap (λ b. if b then some d else s.live k) (other_test k s.next h)),
  (
    set s.next none t,
    ap (λ o. found o >>= λ d'. ok (set s.next none t)) there,
    (λ k h. back k (k == s.next) refl ∙ free k (omega (arith, h))),
    IsGone-none s.next (set s.next none t)
        (ap (λ b. if b then none else t.live s.next) (same_test s.next)),
    λ k. back k (k == s.next) refl,
  ),
)
  where
    t : Store
    t = record (set s.next (some d) s) { next = suc s.next }

    there : t.live s.next ≡ some d
    there = ap (λ b. if b then some d else s.live s.next) (same_test s.next)

    same : (k : ℕ) → (k == s.next) ≡ true → s.next ≤ k
    same k e = ground arith

    back :
        (k : ℕ) (b : Bool)
        → (k == s.next) ≡ b
        → (if b then none else (if b then some d else s.live k)) ≡ s.live k
    back k true e = sym (free k (same k e))
    back k false e = refl

-- Where the call of the core returns the list `deps`, and nothing is allocated at the addresses that
-- were not handed out, the call of the interface returns a pointer through which a client reads the
-- number of the intervals and each of them by its index, the pointers that were handed out before
-- lead to what they did, and once it is destroyed the store is as before the call, and each call with
-- the pointer is undefined behaviour.
pub task_graph_dependencies-HandsOut :
    {D : Type 0} ⦃fl : Platform D⦄ (g : TaskGraph D) (dset point : ℤ) (deps : List Interval)
    (s : Store)
    → dependencies g dset point ≡ ok deps
    → IsStore s
    → HandsOut (task_graph_dependencies g dset point s) deps s
unfolding task_graph_dependencies
task_graph_dependencies-HandsOut g dset point deps s e free =
    subst (λ o. HandsOut (o >>= λ d. ok (wrap_consume d s)) deps s) (sym e)
      (wrap_consume-HandsOut deps s free)
