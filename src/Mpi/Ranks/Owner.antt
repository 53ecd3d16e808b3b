-- ===== src/Mpi/Ranks/Owner.antt =====
-- The ranks share out the points: each point of the row has one rank, and its number in it.
use native.Mathlib.Nat.{
  le-div_iff_mul-le, div-mul-le_self, mul-div_cancel_left, add-mul-div_right, zero-div,
}
use task_bench.Base.{
  ℕ, ◌≡◌, refl, ap, ◌∙◌, ◌+◌, ◌*◌, ◌/◌, ◌≤◌, ◌<◌, ◌⊎◌, inl, inr, true, false, Bool-cases, arith,
  lt→ltb, le→leb,
}
use task_bench.Base.Int.{
  ℤ, pos, pos_part, neg_part, ◌+ℤ◌, ◌-ℤ◌, ◌*ℤ◌, ◌≤ℤ◌, ◌<ℤ◌, eqb_ℤ, leb_ℤ, ltb_ℤ, int_laws, nonneg,
  le_of_not_ltb, eq_of_parts, pos-add, pos-mul, pos-div,
}
use task_bench.Base.Loops.{Returns, for_below_inv}
use task_bench.Mpi.Ranks.{
  first_point, last_point, Tables, put, assign_point, assign_rank, make_tables,
}

first_pos : (n w r : ℕ) → first_point (pos n) (pos w) (pos r) ≡ pos (r * w / n)
unfolding first_point
first_pos n w r = rw (pos-mul r w, pos-div (r * w) n) refl

next_pos : (n w r : ℕ) → last_point (pos n) (pos w) (pos r) ≡ pos ((r + 1) * w / n) -ℤ pos 1
unfolding last_point
next_pos n w r = rw (pos-add r 1, pos-mul (r + 1) w, pos-div ((r + 1) * w) n) refl

div_mono : (a b n : ℕ) → 0 < n → a ≤ b → a / n ≤ b / n
div_mono a b n hn h = (le-div_iff_mul-le hn).1 (omega (arith, div-mul-le_self a n))

mul_mono : (a b w : ℕ) → a ≤ b → a * w ≤ b * w
mul_mono a b w h = grind arith

span_ℕ : (n w r : ℕ) → 0 < n → w ≤ n * 128 → (r + 1) * w / n ≤ r * w / n + 128
span_ℕ n w r hn h =
    let more : (r + 1) * w ≤ r * w + 128 * n = omega arith in
    omega (arith, div_mono _ _ n hn more, add-mul-div_right (r * w) 128 {z = n} hn)

strictly : (p j : ℤ) → eqb_ℤ p j ≡ false → p <ℤ j +ℤ pos 1 → p <ℤ j
strictly p j h k = grind int_laws

module _ (n w : ℤ) (hn : pos 0 <ℤ n) (hw : pos 0 ≤ℤ w) where
  -- A rank's last point stands in front of the next rank's first.
  pub last-first : (r : ℤ) → last_point n w r ≡ first_point n w (r +ℤ pos 1) -ℤ pos 1
  unfolding last_point first_point
  last-first r = refl

  pub first_mono : (a b : ℤ) → pos 0 ≤ℤ a → a ≤ℤ b → first_point n w a ≤ℤ first_point n w b
  first_mono a b ha hab =
      let (n', en) = nonneg n (omega arith) in
      let (w', ew) = nonneg w hw in
      let (a', ea) = nonneg a ha in
      let (b', eb) = nonneg b (omega arith) in
      rw (en, ew, ea, eb, first_pos n' w' a', first_pos n' w' b')
        (omega (
          arith,
          div_mono (a' * w') (b' * w') n' (above n' en) (mul_mono a' b' w' (below a' b' ea eb)),
        ))
    where
      above : (n' : ℕ) → n ≡ pos n' → 0 < n'
      above n' e = omega (arith, ap pos_part e, ap neg_part e)

      below : (a' b' : ℕ) → a ≡ pos a' → b ≡ pos b' → a' ≤ b'
      below a' b' e f = omega (arith, ap pos_part e, ap neg_part e, ap pos_part f, ap neg_part f)

  pub first_nonneg : (a : ℤ) → pos 0 ≤ℤ a → pos 0 ≤ℤ first_point n w a
  first_nonneg a ha =
      let (n', en) = nonneg n (omega arith) in
      let (w', ew) = nonneg w hw in
      let (a', ea) = nonneg a ha in rw (en, ew, ea, first_pos n' w' a') (omega arith)

  pub first_zero : first_point n w (pos 0) ≡ pos 0
  first_zero =
      let (n', en) = nonneg n (omega arith) in
      let (w', ew) = nonneg w hw in
      rw (en, ew, first_pos n' w' 0) (ap pos (ap (λ x. x / n') (omega arith) ∙ zero-div n'))

  pub first_end : first_point n w n ≡ w
  first_end =
      let (n', en) = nonneg n (omega arith) in
      let (w', ew) = nonneg w hw in
      rw (en, ew, first_pos n' w' n')
        (ap pos (mul-div_cancel_left w' (omega (arith, ap pos_part en, ap neg_part en))))

  -- With at most 128 points to a rank on average, no rank has more.
  pub span_small :
      w ≤ℤ n *ℤ pos 128 → (r : ℤ) → pos 0 ≤ℤ r → last_point n w r <ℤ first_point n w r +ℤ pos 128
  span_small few r hr =
      let (n', en) = nonneg n (omega arith) in
      let (w', ew) = nonneg w hw in
      let (r', er) = nonneg r hr in
      rw (en, ew, er, first_pos n' w' r', next_pos n' w' r')
        (omega (
          int_laws,
          span_ℕ n' w' r' (omega (arith, ap pos_part en, ap neg_part en)) (few_ℕ n' w' en ew),
        ))
    where
      few_ℕ : (n' w' : ℕ) → n ≡ pos n' → w ≡ pos w' → w' ≤ n' * 128
      few_ℕ n' w' e f =
          let product : n *ℤ pos 128 ≡ pos (n' * 128) = ap (λ x. x *ℤ pos 128) e ∙ pos-mul n' 128 in
          omega (arith, ap pos_part product, ap neg_part product, ap pos_part f, ap neg_part f)

  -- The tables name the rank of a point, below `b`, and the point's number in the rank.
  abbrev pub Owned : ℤ → Tables → ℤ → Type 0
  Owned b tables p =
      let r = tables.rank_by_point p in
      (pos 0 ≤ℤ r)
      × (r <ℤ b)
      × (first_point n w r ≤ℤ p)
      × (p ≤ℤ last_point n w r)
      × (tables.tag_bits_by_point p ≡ p -ℤ first_point n w r)
      × (p -ℤ first_point n w r <ℤ pos 128)

  -- The points before `j` are shared out.
  abbrev OwnedBefore : ℤ → ℤ → Tables → Type 0
  OwnedBefore b j tables = (p : ℤ) → pos 0 ≤ℤ p → p <ℤ j → Owned b tables p

  assign_point-Owned :
      (r j : ℤ) (tables : Tables)
      → pos 0 ≤ℤ r
      → first_point n w r ≤ℤ j
      → j ≤ℤ last_point n w r
      → last_point n w r <ℤ w
      → last_point n w r <ℤ first_point n w r +ℤ pos 128
      → OwnedBefore (r +ℤ pos 1) j tables
      → Returns
          (assign_point w r (first_point n w r) j tables)
          (OwnedBefore (r +ℤ pos 1) (j +ℤ pos 1))
  unfolding assign_point
  assign_point-Owned r j tables hr low high inside small owned =
      let some_point = first_nonneg r hr in
      let t1 : leb_ℤ (pos 0) j ≡ true = le→leb _ _ (omega arith) in
      let t2 : ltb_ℤ j w ≡ true = lt→ltb _ _ (omega arith) in
      let t3 : leb_ℤ (pos 0) (j -ℤ first_point n w r) ≡ true = le→leb _ _ (omega int_laws) in
      let t4 : ltb_ℤ (j -ℤ first_point n w r) (pos 128) ≡ true = lt→ltb _ _ (omega int_laws) in
      rw (t1, t2, t3, t4) (_, refl, λ p hp below. either p hp below (Bool-cases (eqb_ℤ p j)))
    where
      either :
          (p : ℤ)
          → pos 0 ≤ℤ p
          → p <ℤ j +ℤ pos 1
          → (eqb_ℤ p j ≡ true) ⊎ (eqb_ℤ p j ≡ false)
          → Owned
              (r +ℤ pos 1)
              (record {
                rank_by_point = put j r tables.rank_by_point;
                tag_bits_by_point = put j (j -ℤ first_point n w r) tables.tag_bits_by_point;
              })
              p
      either p hp below (inl here) =
          let same : j ≡ p = ground arith in
          rw (here, ← same) (hr, omega int_laws, low, high, refl, omega int_laws)
      either p hp below (inr other) = rw other (owned p hp (strictly p j other below))

  assign_rank-Owned :
      (r : ℤ) (tables : Tables)
      → pos 0 ≤ℤ r
      → r <ℤ n
      → last_point n w r <ℤ first_point n w r +ℤ pos 128
      → OwnedBefore r (first_point n w r) tables
      → Returns (assign_rank n w r tables) (OwnedBefore (r +ℤ pos 1) (first_point n w (r +ℤ pos 1)))
  unfolding assign_rank
  assign_rank-Owned r tables hr below small owned =
      let up = first_mono r (r +ℤ pos 1) hr (omega int_laws) in
      let end = first_mono (r +ℤ pos 1) n (omega int_laws) (omega int_laws) in
      let e = last-first r in
      let e1 = ap pos_part e in
      let e2 = ap neg_part e in
      let w1 = ap pos_part first_end in
      let w2 = ap neg_part first_end in
      let (t, call, all) =
        for_below_inv (λ j t. OwnedBefore (r +ℤ pos 1) j t) _ (first_point n w r)
          (last_point n w r +ℤ pos 1) tables (omega int_laws)
          (λ j t low high k.
            assign_point-Owned r j t hr low (omega int_laws) (omega int_laws) small k)
          (λ p hp bp. weaken tables p (owned p hp bp)) in
      (t, call, λ p hp bp. all p hp (omega int_laws))
    where
      weaken : (tables : Tables) (p : ℤ) → Owned r tables p → Owned (r +ℤ pos 1) tables p
      weaken tables p (h0, h1, h2, h3, h4, h5) = (h0, omega int_laws, h2, h3, h4, h5)

  -- For at least one rank, and a width that is not negative and gives the ranks at most 128 points
  -- each on average, the loops that fill the tables return: none of their assertions on the tags
  -- fails, and each point of the row has a rank of the run that it lies in the span of, with its
  -- number in that span, below 128, as its tag bits.
  pub make_tables-Owned :
      w ≤ℤ n *ℤ pos 128
      → Returns (make_tables n w) (λ tables. (p : ℤ) → pos 0 ≤ℤ p → p <ℤ w → Owned n tables p)
  unfolding make_tables
  make_tables-Owned few =
      let (t, call, all) =
        for_below_inv (λ r t. OwnedBefore r (first_point n w r) t) _ (pos 0) n _ (omega arith)
          (λ r t hr hn' k. assign_rank-Owned r t hr hn' (span_small few r hr) k)
          (λ p hp bp. absurd (omega (arith, ap pos_part first_zero, ap neg_part first_zero))) in
      (t, call, λ p hp bp. all p hp (omega (arith, ap pos_part first_end, ap neg_part first_end)))

  not_after : (r s p : ℤ) → pos 0 ≤ℤ s → first_point n w r ≤ℤ p → p ≤ℤ last_point n w s → r ≤ℤ s
  not_after r s p hs low high = elim (Bool-cases (ltb_ℤ s r)) [
    | inl after ↦
        let up = first_mono (s +ℤ pos 1) r (omega int_laws) (omega int_laws) in
        absurd (omega (int_laws, ap pos_part (last-first s), ap neg_part (last-first s)))
    | inr before ↦ le_of_not_ltb s r before
  ]

  -- No point lies in the spans of two ranks.
  pub owner_unique :
      (r s p : ℤ)
      → pos 0 ≤ℤ r
      → pos 0 ≤ℤ s
      → first_point n w r ≤ℤ p
      → p ≤ℤ last_point n w r
      → first_point n w s ≤ℤ p
      → p ≤ℤ last_point n w s
      → r ≡ s
  owner_unique r s p hr hs r1 r2 s1 s2 =
      eq_of_parts r s (omega (arith, not_after r s p hs r1 s2, not_after s r p hr s1 r2))
