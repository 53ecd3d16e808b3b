-- ===== src/Mpi/Rank/Keys.antt =====
-- The envelopes of the messages: those between different points differ.
use task_bench.Base.{
  ℕ, ◌≡◌, refl, sym, ap, ◌∙◌, subst, ◌+◌, ◌*◌, ◌<◌, Bool, true, false, List, [], ◌∷◌, ◌&&◌,
  if◌then◌else◌, arith, leb→le, le→leb, ◌==◌,
}
use task_bench.Base.Int.{
  eqb-eq, eqb_self, ℤ, pos, negsuc, pos_part, neg_part, ◌-ℤ◌, ◌≤ℤ◌, ◌<ℤ◌, eqb_ℤ, int_laws,
  eq_of_parts,
}
use task_bench.Graph.{TaskGraph}
use task_bench.Graph.Deps.Count.{one_if}
use task_bench.Mpi.Ranks.{Tables, first_point, last_point, tag_of, put}
use task_bench.Mpi.Ranks.Tag.{tag_of-add}
use task_bench.Mpi.Ranks.Owner.{Owned, owner_unique}
use task_bench.Mpi.Network.{Key, same_key}
use task_bench.Mpi.Rank.{key_of, is_own}

-- How often a list has a point.
abbrev pub occurrences : ℤ → List ℤ → ℕ
occurrences q [] = 0
occurrences q (p ∷ rest) = one_if (eqb_ℤ p q) + occurrences q rest

pub put_other : {A : Type 0} (p q : ℤ) (x : A) (v : ℤ → A) → ¬ (q ≡ p) → put p x v q ≡ v q
put_other p q x v h = step (eqb_ℤ q p) refl
  where
    eq : eqb_ℤ q p ≡ true → q ≡ p
    eq e = ground arith

    step : (b : Bool) → eqb_ℤ q p ≡ b → (if b then x else v q) ≡ v q
    step true e = absurd (h (eq e))
    step false e = refl

pub before_differs : (q p : ℤ) → q <ℤ p → ¬ (q ≡ p)
before_differs q p h e = absurd (omega (arith, ap pos_part e, ap neg_part e))

pub put_at : {A : Type 0} (p : ℤ) (x : A) (v : ℤ → A) → put p x v p ≡ x
put_at p x v = ap (λ b. if b then x else v p) (eqb_self p)

and_both : (a b : Bool) → (a && b) ≡ true → (a ≡ true) × (b ≡ true)
and_both true b h = (refl, h)
and_both false b h = cc

bits_eq : (f t f' t' : ℕ) → t < 256 → t' < 256 → f * 256 + t ≡ f' * 256 + t' → (f ≡ f') × (t ≡ t')
bits_eq f t f' t' h h' e = omega arith

-- Two tags of bits below 128 are the same only for the same bits.
tag_of-injective :
    (f t f' t' : ℤ)
    → pos 0 ≤ℤ f
    → pos 0 ≤ℤ t
    → pos 0 ≤ℤ f'
    → pos 0 ≤ℤ t'
    → t <ℤ pos 128
    → t' <ℤ pos 128
    → tag_of f t ≡ tag_of f' t'
    → (f ≡ f') × (t ≡ t')
tag_of-injective (pos f) (pos t) (pos f') (pos t') h1 h2 h3 h4 l l' e =
    let (same, same') =
      bits_eq f t f' t' (omega arith) (omega arith)
        (sym (tag_of-add f t (omega arith)) ∙ e ∙ tag_of-add f' t' (omega arith)) in
    (ap pos same, ap pos same')
tag_of-injective (negsuc f) t f' t' h1 h2 h3 h4 l l' e = absurd (omega arith)
tag_of-injective f (negsuc t) f' t' h1 h2 h3 h4 l l' e = absurd (omega arith)
tag_of-injective f t (negsuc f') t' h1 h2 h3 h4 l l' e = absurd (omega arith)
tag_of-injective f t f' (negsuc t') h1 h2 h3 h4 l l' e = absurd (omega arith)

cancel : (p q f : ℤ) → p -ℤ f ≡ q -ℤ f → p ≡ q
cancel p q f e = eq_of_parts p q (omega (int_laws, ap pos_part e, ap neg_part e))

pub bool_ext : (a b : Bool) → (a ≡ true → b ≡ true) → (b ≡ true → a ≡ true) → a ≡ b
bool_ext true true f g = refl
bool_ext true false f g = cc (f refl)
bool_ext false true f g = cc (g refl)
bool_ext false false f g = refl

pub same_key_self : (k : Key) → same_key k k ≡ true
same_key_self k = rw (eqb_self k.source, eqb_self k.dest, nat_self k.tag) refl
  where
    nat_self : (m : ℕ) → (m == m) ≡ true
    nat_self m = ground arith

nat-eq : (a b : ℕ) → (a == b) ≡ true → a ≡ b
nat-eq a b h = ground arith

-- The tables of a run: each point of the row has its rank and its number in it.
abbrev pub AllOwned : {D : Type 0} → TaskGraph D → (n : ℤ) → pos 0 <ℤ n → Tables → Type 0
AllOwned g n hn tables =
    (hw : pos 0 ≤ℤ g.max_width) (p : ℤ)
    → pos 0 ≤ℤ p
    → p <ℤ g.max_width
    → Owned n g.max_width hn hw n tables p

abbrev pub InRow : {D : Type 0} → TaskGraph D → ℤ → Type 0
InRow g p = (pos 0 ≤ℤ p) × (p <ℤ g.max_width)

module _ {D : Type 0} (g : TaskGraph D) (n : ℤ) (tables : Tables) (hn : pos 0 <ℤ n)
    (hw : pos 0 ≤ℤ g.max_width) (owned : AllOwned g n hn tables) where
  -- A point lies in the span of its rank.
  pub rank_bounds :
      (r p : ℤ)
      → InRow g p
      → tables.rank_by_point p ≡ r
      → (first_point n g.max_width r ≤ℤ p) × (p ≤ℤ last_point n g.max_width r)
  rank_bounds r p h e =
      let (_, _, low, high, _, _) = owned hw p h.0 h.1 in
      subst (λ x. (first_point n g.max_width x ≤ℤ p) × (p ≤ℤ last_point n g.max_width x)) e
        (low, high)

  -- A rank holds a point as its own exactly if the tables name it.
  pub is_own-rank :
      (r p : ℤ) → InRow g p → tables.rank_by_point p ≡ r → is_own g n tables r p ≡ true
  is_own-rank r p h e =
      let (low, high) = rank_bounds r p h e in rw (le→leb _ _ low, le→leb _ _ high) refl

  pub rank-is_own :
      (r p : ℤ) → InRow g p → pos 0 ≤ℤ r → is_own g n tables r p ≡ true → tables.rank_by_point p ≡ r
  rank-is_own r p h hr e =
      let (r0, r1, low, high, _, _) = owned hw p h.0 h.1 in
      let (low', high') = and_both _ _ e in
      owner_unique n g.max_width hn hw _ r p r0 hr low high (leb→le _ _ low') (leb→le _ _ high')

  bits_bounds :
      (p : ℤ)
      → InRow g p
      → (pos 0 ≤ℤ tables.tag_bits_by_point p) × (tables.tag_bits_by_point p <ℤ pos 128)
  bits_bounds p h =
      let (_, _, low, high, e, small) = owned hw p h.0 h.1 in rw e (omega int_laws, small)

  point_eq :
      (p q : ℤ)
      → InRow g p
      → InRow g q
      → tables.rank_by_point p ≡ tables.rank_by_point q
      → tables.tag_bits_by_point p ≡ tables.tag_bits_by_point q
      → p ≡ q
  point_eq p q hp hq e f =
      let (_, _, _, _, bits, _) = owned hw p hp.0 hp.1 in
      let (_, _, _, _, bits', _) = owned hw q hq.0 hq.1 in
      cancel p q (first_point n g.max_width (tables.rank_by_point q))
        (ap (λ x. p -ℤ first_point n g.max_width x) (sym e) ∙ sym bits ∙ f ∙ bits')

  -- For at least one rank and over tables that give each point of a row its rank and number, the
  -- envelopes of two messages between points of the row are the same exactly if they go from the same
  -- point to the same point.
  pub same_key-points :
      (p q p' q' : ℤ)
      → InRow g p
      → InRow g q
      → InRow g p'
      → InRow g q'
      → same_key (key_of g n tables p q) (key_of g n tables p' q') ≡ (eqb_ℤ p p' && eqb_ℤ q q')
  same_key-points p q p' q' hp hq hp' hq' =
      bool_ext _ _
        (λ same.
          let (ranks, tag) = and_both _ _ same in
          let (source, dest) = and_both _ _ ranks in
          let (b1, b2) = bits_bounds p hp in
          let (b3, b4) = bits_bounds q hq in
          let (b5, b6) = bits_bounds p' hp' in
          let (b7, b8) = bits_bounds q' hq' in
          let (bits, bits') = tag_of-injective _ _ _ _ b1 b3 b5 b7 b4 b8 (nat-eq _ _ tag) in
          let e = point_eq p p' hp hp' (eqb-eq _ _ source) bits in
          let e' = point_eq q q' hq hq' (eqb-eq _ _ dest) bits' in
          rw (e, e', eqb_self p', eqb_self q') refl)
        (λ both.
          let (e, e') = and_both _ _ both in
          rw (eqb-eq p p' e, eqb-eq q q' e') (same_key_self (key_of g n tables p' q')))
