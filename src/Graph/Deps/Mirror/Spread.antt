-- ===== src/Graph/Deps/Mirror/Spread.antt =====
-- SPREAD: going round the row by an offset, and back.
use native.Mathlib.Nat.{
  mod-eq_of_lt, mod-lt, zero-mul, suc-mul, add-mul-mod_self_right, mod-add-div',
}
use native.Mathlib.Decide.{dec_lt, ℕ_discrete}
use task_bench.Base.{
  ℕ, zero, suc, ◌≡◌, ◌∙◌, refl, sym, ap, ◌+◌, ◌-◌, ◌*◌, ◌/◌, ◌%◌, ◌<◌, arith, ltb, leb, ◌==◌,
  if◌then◌else◌,
}
use task_bench.Base.Int.{ℤ, pos, pos_part, eq_of_parts, negsuc, ltb_ℤ, ◌+ℤ◌, ◌-ℤ◌, ◌*ℤ◌, ◌/ℤ◌, ◌%ℤ◌}
use task_bench.Graph.Deps.{spread_dep, spread_reverse_dep, spread_loop}
use task_bench.Graph.Deps.Count.{count, count-single, Between}

abbrev pub forth : ℕ → ℕ → ℕ → ℕ
forth w o p = (p + o) % w

abbrev pub back : ℕ → ℕ → ℕ → ℕ
back w o q = if leb o q then (q - o) % w else if ((o - q) % w) == 0 then 0 else w - (o - q) % w

pub offset : ℕ → ℕ → ℕ → ℕ → ℕ
offset w r d k = k * w / r + (if ltb 0 k then d else 0)

mod_small : (a b k w : ℕ) → b < w → a ≡ b + k * w → a % w ≡ b
mod_small a b k w h e = rw e (add-mul-mod_self_right b k w ∙ mod-eq_of_lt h)

-- Both directions in terms of the offset's remainder.
forth_closed :
    (w o p : ℕ) → p < w → forth w o p ≡ (if ltb (p + o % w) w then p + o % w else p + o % w - w)
forth_closed w o p h = elim (dec_lt (p + o % w) w) [
  | yes l ↦
      ground (arith, mod_small (p + o) (p + o % w) (o / w) w l (omega (arith, mod-add-div' o w)))
  | no g ↦ ground (
    arith,
    mod-lt o {m = w} (omega arith),
    mod_small (p + o) (p + o % w - w) (suc (o / w)) w
        (omega (arith, mod-lt o {m = w} (omega arith))) (omega (arith, mod-add-div' o w)),
  )
]

one_round : (t w r o : ℕ) → o ≡ r + t * w → r < o → o ≡ r + w + (t - 1) * w
one_round zero w r o e h = absurd (omega (arith, zero-mul w))
one_round (suc t) w r o e h =
    let fewer : suc t - 1 ≡ t = omega arith in
    omega (arith, suc-mul t w, ap (λ (x : ℕ). x * w) fewer)

below_offset :
    (w o q : ℕ) → q < w → q < o → back w o q ≡ (if leb (o % w) q then q - o % w else q + w - o % w)
below_offset w o q h l = elim (ℕ_discrete (o % w) q) [
  | yes e ↦
      ground (arith, mod_small (o - q) 0 (o / w) w (omega arith) (omega (arith, mod-add-div' o w)))
  | no ne ↦ elim (dec_lt (o % w) q) [
    | yes less ↦ ground (
      arith,
      mod_small (o - q) (w - (q - o % w)) (o / w - 1) w (omega arith) (
          omega
            (arith, one_round (o / w) w (o % w) o (omega (arith, mod-add-div' o w)) (omega arith))),
    )
    | no more ↦ ground (
      arith,
      mod-lt o {m = w} (omega arith),
      mod_small (o - q) (o % w - q) (o / w) w (omega (arith, mod-lt o {m = w} (omega arith)))
          (omega (arith, mod-add-div' o w)),
    )
  ]
]

pub back_closed :
    (w o q : ℕ) → q < w → back w o q ≡ (if leb (o % w) q then q - o % w else q + w - o % w)
back_closed w o q h = elim (dec_lt q o) [
  | yes l ↦ below_offset w o q h l
  | no g ↦ ground (
    arith,
    mod-eq_of_lt {n = o} {m = w} (omega arith),
    mod-eq_of_lt {n = q - o} {m = w} (omega arith),
  )
]

back-forth : (w o p : ℕ) → p < w → back w o (forth w o p) ≡ p
back-forth w o p h =
    rw (back_closed w o (forth w o p) (mod-lt (p + o) (omega arith)), forth_closed w o p h)
      (ground (arith, mod-lt o {m = w} (omega arith)))

forth-back : (w o q : ℕ) → q < w → forth w o (back w o q) ≡ q
forth-back w o q h =
    rw
      (
        forth_closed w o (back w o q)
            (rw (back_closed w o q h) (ground (arith, mod-lt o {m = w} (omega arith)))),
        back_closed w o q h,
      )
      (ground (arith, mod-lt o {m = w} (omega arith)))

module _ (w r d : ℕ) where
  pub spread_dep-forth :
      (p k : ℕ)
      → spread_dep (pos w) (pos r) (pos d) (pos p) (pos k) ≡ pos (forth w (offset w r d k) p)
  unfolding spread_dep offset ◌+ℤ◌ ◌*ℤ◌ ◌/ℤ◌ ◌%ℤ◌
  spread_dep-forth p k = ground arith

sub_pos : (a b : ℕ) → pos a -ℤ pos b ≡ (if leb b a then pos (a - b) else negsuc (b - a - 1))
unfolding ◌-ℤ◌
sub_pos a b = ground arith

sub_twice : (q a b : ℕ) → pos q -ℤ pos a -ℤ pos b ≡ pos q -ℤ pos (a + b)
unfolding ◌-ℤ◌
sub_twice q a b = ground arith

mul-div_pos : (k w r : ℕ) → pos k *ℤ pos w /ℤ pos r ≡ pos (k * w / r)
unfolding ◌*ℤ◌ ◌/ℤ◌
mul-div_pos k w r = ground arith

if_pos' :
    (k d : ℕ) → (if ltb_ℤ (pos 0) (pos k) then pos d else pos 0) ≡ pos (if ltb 0 k then d else 0)
if_pos' k d = ground arith

fix_negative :
    (w a b : ℕ)
    → 0 < w
    → (if ltb_ℤ ((pos a -ℤ pos b) %ℤ pos w) (pos 0)
        then (pos a -ℤ pos b) %ℤ pos w +ℤ pos w
        else (pos a -ℤ pos b) %ℤ pos w)
      ≡ pos (back w b a)
unfolding ◌-ℤ◌ ◌%ℤ◌ ◌+ℤ◌
fix_negative w a b h = ground (arith, mod-lt (suc (b - a - 1)) {m = w} h, mod-lt (b - a) {m = w} h)

pub spread_reverse_dep-back :
    (w r d q k : ℕ)
    → 0 < w
    → spread_reverse_dep (pos w) (pos r) (pos d) (pos q) (pos k) ≡ pos (back w (offset w r d k) q)
unfolding spread_reverse_dep offset
spread_reverse_dep-back w r d q k h =
    rw (mul-div_pos k w r, if_pos' k d, sub_twice q (k * w / r) (if ltb 0 k then d else 0))
      (fix_negative w q _ h)

pos-injective : {a b : ℕ} → pos a ≡ pos b → a ≡ b
pos-injective e = ap pos_part e

eq_of_Between : (x q : ℤ) → Between q (x, x) → x ≡ q
eq_of_Between x q b = eq_of_parts x q (omega arith)

Between-same : (x q : ℤ) → x ≡ q → Between q (x, x)
Between-same x q e = rw e (omega arith)

-- The loops of the two directions, over points that are the other's.
count-loop :
    (f g : ℤ → ℤ) (p q : ℤ) (n k : ℕ)
    → ((i : ℕ) → (f (pos i) ≡ q → g (pos i) ≡ p) × (g (pos i) ≡ p → f (pos i) ≡ q))
    → count q (spread_loop f n k) ≡ count p (spread_loop g n k)
unfolding spread_loop
count-loop f g p q zero k h = refl
count-loop f g p q (suc n) k h = omega (
  arith,
  count-loop f g p q n (suc k) h,
  count-single q p (f (pos k), f (pos k)) (g (pos k), g (pos k))
      (λ b. Between-same _ p ((h k).0 (eq_of_Between _ q b)))
      (λ b. Between-same _ q ((h k).1 (eq_of_Between _ p b))),
)

pub mirror-spread :
    (w r d p q n : ℕ)
    → p < w
    → q < w
    → count (pos q) (spread_loop (spread_dep (pos w) (pos r) (pos d) (pos p)) n 0)
      ≡ count (pos p) (spread_loop (spread_reverse_dep (pos w) (pos r) (pos d) (pos q)) n 0)
mirror-spread w r d p q n hp hq = count-loop _ _ (pos p) (pos q) n 0 λ i. (
  λ e.
      spread_reverse_dep-back w r d q i (omega arith)
      ∙ ap pos (
          ap (back w (offset w r d i)) (pos-injective (sym e ∙ spread_dep-forth w r d p i))
          ∙ back-forth w (offset w r d i) p hp),
  λ e.
      spread_dep-forth w r d p i
      ∙ ap pos (
          ap (forth w (offset w r d i))
            (pos-injective (sym e ∙ spread_reverse_dep-back w r d q i (omega arith)))
          ∙ forth-back w (offset w r d i) q hq),
)
