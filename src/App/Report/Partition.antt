-- ===== src/App/Report/Partition.antt =====
-- `report_timing`: the estimate of local and nonlocal dependencies splits their number.
use native.Mathlib.Nat.{div-lt_iff_lt-mul, div-le_of_le-mul, le-div_iff_mul-le, div-mul-le_self}
use task_bench.Base.{
  ℕ, ◌≡◌, ◌⊎◌, ◌*◌, ◌/◌, ◌≤◌, ◌<◌, ◌+◌, ◌&&◌, [], ◌∷◌, ap, Bool-cases, inl, inr, true, arith,
  lt→ltb,
}
use task_bench.Base.Int.{
  ℤ, pos, negsuc, pos_part, neg_part, ◌+ℤ◌, ◌-ℤ◌, ltb_ℤ, min_ℤ, max_ℤ, ◌≤ℤ◌, ◌<ℤ◌, int_laws,
  pos-mul, pos-div, pos-add, le_of_not_ltb,
}
use task_bench.Graph.Deps.Count.{count, within, one_if}
use task_bench.App.Report.{clamp, size_of, node_span}

-- Where neither stretch ends before the point in front of it, `clamp` names the points of both, and
-- its size is not negative.
pub clamp_lem :
    (start stop low high : ℤ)
    → start ≤ℤ stop +ℤ pos 1
    → low ≤ℤ high +ℤ pos 1
    → ((q : ℤ)
        → count q (clamp start stop low high ∷ [])
          ≡ one_if (within q (start, stop) && within q (low, high)))
      × (pos 0 ≤ℤ size_of (clamp start stop low high))
unfolding clamp
clamp_lem start stop low high h k = (λ q. grind int_laws, grind int_laws)

-- How far a stretch from `low` to before `stop` reaches below `x`.
cut : ℤ → ℤ → ℤ → ℤ
cut low stop x = max_ℤ low (min_ℤ x stop)

size_of-clamp :
    (a b low high : ℤ)
    → a ≤ℤ b +ℤ pos 1
    → low ≤ℤ high +ℤ pos 1
    → size_of (clamp a b low high)
      ≡ cut low (high +ℤ pos 1) (b +ℤ pos 1) -ℤ cut low (high +ℤ pos 1) a
unfolding clamp cut
size_of-clamp a b low high h k = elim (Bool-cases (ltb_ℤ b low)) [
  | inl e ↦ rw e (omega int_laws)
  | inr e ↦ elim (Bool-cases (ltb_ℤ high a)) [
    | inl f ↦ rw (e, f) (omega (int_laws, le_of_not_ltb b low e))
    | inr f ↦ rw (e, f) (omega (int_laws, le_of_not_ltb b low e, le_of_not_ltb high a f))
  ]
]

three_cuts :
    (s t w x : ℤ)
    → pos 0 ≤ℤ x
    → x ≤ℤ w
    → pos 0 ≤ℤ s
    → s ≤ℤ t
    → t ≤ℤ w
    → cut (pos 0) s x +ℤ cut s t x +ℤ cut t w x ≡ x +ℤ (s +ℤ t)
unfolding cut
three_cuts s t w x h k hs hst htw = omega int_laws

back_one : (x : ℤ) → x -ℤ pos 1 +ℤ pos 1 ≡ x
back_one x = omega int_laws

telescope :
    (x y z x' y' z' a b m : ℤ)
    → x +ℤ y +ℤ z ≡ b +ℤ pos 1 +ℤ m
    → x' +ℤ y' +ℤ z' ≡ a +ℤ m
    → (x -ℤ x') +ℤ (y -ℤ y') +ℤ (z -ℤ z') ≡ b -ℤ a +ℤ pos 1
telescope x y z x' y' z' a b m p q =
    omega (int_laws, ap pos_part p, ap neg_part p, ap pos_part q, ap neg_part q)

-- What lies before a stretch of the row, in it and behind it.
pub split_sizes :
    (a b s e w : ℤ)
    → a ≤ℤ b +ℤ pos 1
    → pos 0 ≤ℤ a
    → b <ℤ w
    → pos 0 ≤ℤ s
    → s ≤ℤ e +ℤ pos 1
    → e <ℤ w
    → size_of (clamp a b (pos 0) (s -ℤ pos 1))
        +ℤ size_of (clamp a b s e)
        +ℤ size_of (clamp a b (e +ℤ pos 1) (w -ℤ pos 1))
      ≡ size_of (a, b)
split_sizes a b s e w h ha hb hs hse he =
    rw
      (
        size_of-clamp a b (pos 0) (s -ℤ pos 1) h (omega int_laws),
        size_of-clamp a b s e h hse,
        size_of-clamp a b (e +ℤ pos 1) (w -ℤ pos 1) h (omega int_laws),
        back_one s,
        back_one w,
      )
      (telescope _ _ _ _ _ _ a b (s +ℤ (e +ℤ pos 1))
        (three_cuts s (e +ℤ pos 1) w (b +ℤ pos 1) (omega int_laws) (omega int_laws) hs hse
          (omega int_laws))
        (three_cuts s (e +ℤ pos 1) w a ha (omega int_laws) hs hse (omega int_laws)))

-- An empty stretch has nothing in any of the three.
pub empty_sizes :
    (a b s e w : ℤ)
    → a ≡ b +ℤ pos 1
    → pos 0 ≤ℤ s
    → s ≤ℤ e +ℤ pos 1
    → e <ℤ w
    → size_of (clamp a b (pos 0) (s -ℤ pos 1))
        +ℤ size_of (clamp a b s e)
        +ℤ size_of (clamp a b (e +ℤ pos 1) (w -ℤ pos 1))
      ≡ size_of (a, b)
empty_sizes a b s e w h hs hse he =
    let h' : a ≤ℤ b +ℤ pos 1 = rw h (omega arith) in
    rw
      (
        size_of-clamp a b (pos 0) (s -ℤ pos 1) h' (omega int_laws),
        size_of-clamp a b s e h' hse,
        size_of-clamp a b (e +ℤ pos 1) (w -ℤ pos 1) h' (omega int_laws),
        h,
      )
      (omega int_laws)

-- What `clamp` leaves of a stretch of the row is empty, or a stretch of the row.
pub clamped_bounds :
    (start stop low high w : ℤ)
    → start ≤ℤ stop
    → low ≤ℤ high +ℤ pos 1
    → pos 0 ≤ℤ start
    → stop <ℤ w
    → let (a, b) = clamp start stop low high in
      (a ≡ b +ℤ pos 1) ⊎ ((a ≤ℤ b +ℤ pos 1) × (pos 0 ≤ℤ a) × (b <ℤ w))
unfolding clamp
clamped_bounds start stop low high w h r k l = elim (Bool-cases (ltb_ℤ stop low)) [
  | inl e ↦ rw e (inl (omega int_laws))
  | inr e ↦ elim (Bool-cases (ltb_ℤ high start)) [
    | inl f ↦ rw (e, f) (inl (omega int_laws))
    | inr f ↦
        rw (e, f) (inr (omega (int_laws, le_of_not_ltb stop low e, le_of_not_ltb high start f)))
  ]
]

span_ℕ :
    (n w p : ℕ)
    → 0 < n
    → p < w
    → ((p * n / w + 1) * w / n ≤ w) × (p * n / w * w / n ≤ (p * n / w + 1) * w / n)
span_ℕ n w p hn hp =
    let less : p * n / w < n = (div-lt_iff_lt-mul (omega arith)).1 (grind arith) in
    (
      div-le_of_le-mul n (up (p * n / w) n w less),
      (le-div_iff_mul-le hn).1 (omega (arith, div-mul-le_self (p * n / w * w) n)),
    )
  where
    up : (k n w : ℕ) → k < n → (k + 1) * w ≤ n * w
    up k n w h = grind arith

-- The span of a node lies in the row.
pub node_span_bounds :
    (nodes w p : ℤ)
    → pos 0 <ℤ nodes
    → pos 0 ≤ℤ p
    → p <ℤ w
    → let (s, e) = node_span nodes w p in (pos 0 ≤ℤ s) × (s ≤ℤ e +ℤ pos 1) × (e <ℤ w)
unfolding node_span
node_span_bounds (pos n) (pos w) (pos p) hn hp hw =
    let some_node : ltb_ℤ (pos 0) (pos n) ≡ true = lt→ltb _ _ (omega arith) in
    simp (some_node, pos-mul, pos-div, pos-add)
      (omega (int_laws, span_ℕ n w p (omega arith) (omega arith)))
node_span_bounds (negsuc n) w p hn hp hw = absurd (omega arith)
node_span_bounds n (negsuc w) (pos p) hn hp hw = absurd (omega arith)
node_span_bounds n w (negsuc p) hn hp hw = absurd (omega arith)
