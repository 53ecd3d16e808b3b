-- ===== src/Base/Loops.antt =====
-- Counted loops whose body may fault, and their rule: a body that returns and keeps an invariant
-- makes a loop that returns and keeps it.
use task_bench.Base.{ℕ, zero, suc, ◌≡◌, refl, ◌∙◌, ap, subst, List, [], ◌∷◌, arith}
use task_bench.Base.Int.{ℤ, pos, ◌+ℤ◌, ◌-ℤ◌, ◌≤ℤ◌, ◌<ℤ◌, pos_part, int_laws, parts_disjoint}
use task_bench.Base.Outcome.{Outcome, ok, ◌>>=◌}

-- for (i = first; rounds are left; ++i) s = body i s.
unfoldable pub for_range {ℓ} : {S : Type ℓ} → ℕ → ℤ → (ℤ → S → Outcome S) → S → Outcome S
for_range zero i body s = ok s
for_range (suc n) i body s = body i s >>= λ s'. for_range n (i +ℤ pos 1) body s'

-- for (i = first; i < stop; ++i)
abbrev pub for_below {ℓ} : {S : Type ℓ} → ℤ → ℤ → (ℤ → S → Outcome S) → S → Outcome S
for_below first stop body s = for_range (pos_part (stop -ℤ first)) first body s

-- for (auto x : list)
unfoldable pub for_each {ℓ κ} :
    {A : Type ℓ} {S : Type κ} → List A → (A → S → Outcome S) → S → Outcome S
for_each [] body s = ok s
for_each (x ∷ xs) body s = body x s >>= λ s'. for_each xs body s'

-- The call returns, with a value of which P holds.
abbrev pub Returns {ℓ κ} : {A : Type ℓ} → Outcome A → (A → Type κ) → Type (ℓ ⊔ κ)
Returns {A = A} m P = (a : A) × (m ≡ ok a) × P a

pub Returns-bind {ℓ κ ι μ} :
    {A : Type ℓ} {B : Type κ} (P : A → Type ι) (Q : B → Type μ) (m : Outcome A) (f : A → Outcome B)
    → Returns m P
    → ((a : A) → P a → Returns (f a) Q)
    → Returns (m >>= f) Q
Returns-bind P Q m f (a, e, p) k = let (b, e', q) = k a p in (b, ap (λ x. x >>= f) e ∙ e', q)

pub for_range_inv {ℓ κ} :
    {S : Type ℓ} (P : ℤ → S → Type κ) (body : ℤ → S → Outcome S) (n : ℕ) (i stop : ℤ) (s : S)
    → i +ℤ pos n ≡ stop
    → ((j : ℤ) (t : S) → i ≤ℤ j → j <ℤ stop → P j t → Returns (body j t) (P (j +ℤ pos 1)))
    → P i s
    → Returns (for_range n i body s) (P stop)
unfolding for_range
for_range_inv P body zero i stop s e keep p = (s, refl, subst (λ x. P x s) (end i stop e) p)
  where
    end : (i stop : ℤ) → i +ℤ pos 0 ≡ stop → i ≡ stop
    end i stop e = omega int_laws ∙ e
for_range_inv P body (suc n) i stop s e keep p =
    Returns-bind (P (i +ℤ pos 1)) (P stop) (body i s) _
      (keep i s (omega arith) (below i stop n e) p)
      λ s' p'.
        for_range_inv P body n (i +ℤ pos 1) stop s' (next i n ∙ e)
          (λ j t h l q. keep j t (omega int_laws) l q) p'
  where
    below : (i stop : ℤ) (n : ℕ) → i +ℤ pos (suc n) ≡ stop → i <ℤ stop
    below i stop n e = rw (← e) (omega int_laws)

    next : (i : ℤ) (n : ℕ) → i +ℤ pos 1 +ℤ pos n ≡ i +ℤ pos (suc n)
    next i n = omega int_laws

-- The rule for `for_below`, where the loop does not begin past its end.
pub for_below_inv {ℓ κ} :
    {S : Type ℓ} (P : ℤ → S → Type κ) (body : ℤ → S → Outcome S) (first stop : ℤ) (s : S)
    → first ≤ℤ stop
    → ((j : ℤ) (t : S) → first ≤ℤ j → j <ℤ stop → P j t → Returns (body j t) (P (j +ℤ pos 1)))
    → P first s
    → Returns (for_below first stop body s) (P stop)
for_below_inv P body first stop s h keep p =
    for_range_inv P body (pos_part (stop -ℤ first)) first stop s
      (omega (int_laws, parts_disjoint (stop -ℤ first))) keep p

pub for_each_inv {ℓ κ ι} :
    {A : Type ℓ} {S : Type κ} (P : List A → S → Type ι) (body : A → S → Outcome S) (xs : List A)
    (s : S)
    → ((x : A) (rest : List A) (t : S) → P (x ∷ rest) t → Returns (body x t) (P rest))
    → P xs s
    → Returns (for_each xs body s) (P [])
unfolding for_each
for_each_inv P body [] s keep p = (s, refl, p)
for_each_inv P body (x ∷ xs) s keep p =
    Returns-bind (P xs) (P []) (body x s) _ (keep x xs s p)
      λ s' p'. for_each_inv P body xs s' keep p'
