-- ===== src/Decimals/Accuracy.antt =====
-- Every sum of amounts is within a small error of the exact one, so `toFixed(2)` finds the exact
-- cents. Errors are counted in units of 1 / 8192 of a cent.
use native.Mathlib.Nat.{
  mul-le-mul_left, mul-le-mul_right, mul-le-mul, div-eq_of_lt-le, le_of_mul-le-mul_left,
  lt_of_mul-lt-mul_left,
}
use enterprise_ai_procuremen.Prelude.{
  ℕ, zero, suc, ◌+◌, ◌-◌, ◌*◌, ◌^◌, ==_iff, ◌≤◌, ◌<◌, ◌≡◌, ◌∙◌, refl, ap, subst₂, inl, inr, arith,
  ◌==◌, Bool-cases, List, [], ◌∷◌, map, length,
}
use enterprise_ai_procuremen.Decimals.{
  Double, scale, half_even, nearest, of_nat, of_cents, num_add, to_fixed2, sum, sum_from,
}
use enterprise_ai_procuremen.Decimals.Rounding.{IsScaled, scale-IsScaled, half_even_bounds}

-- `x` is within `k` units of `c` cents.
pub record IsNear (k c : ℕ) (x : Double) : Type 0 where
  pub zero_exact : c ≡ 0 → x.mant ≡ 0
  pub below : 819200 * x.mant ≤ (8192 * c + k) * x.den
  pub above : 8192 * c * x.den ≤ 819200 * x.mant + k * x.den
  pub pos : 0 < x.den
  pub small : x.den < 2 ^ 61

module _ (k c p q d : ℕ) (qpos : 0 < q) (kle : k ≤ 4096) (cle : c < 2 ^ 40) where
  fine : 819200 * p ≤ (8192 * c + k) * q → q * 2 ^ 52 ≤ p * d → 409600 ≤ d
  fine h b =
      le_of_mul-le-mul_left {k = q}
        (omega (
          arith,
          b,
          mul-le-mul_right d h,
          mul-le-mul_left {m = 8192 * c + k} {n = 2 ^ 53} (q * d) (omega arith),
        ))
        qpos

  coarse : 8192 * c * q ≤ 819200 * p + k * q → 0 < c → p * d < q * 2 ^ 53 → d < 2 ^ 61
  coarse h cpos b = lt_of_mul-lt-mul_left q (
      omega (
        arith,
        b,
        mul-le-mul_right d h,
        mul-le-mul_left {m = 8192} {n = 8192 * c} (q * d) (omega arith),
        mul-le-mul_left {m = k} {n = 4096} (q * d) (omega arith),
      ))

  rounded_below :
      (m : ℕ)
      → 819200 * p ≤ (8192 * c + k) * q
      → 2 * (q * m) ≤ 2 * (p * d) + q
      → 409600 ≤ d
      → 819200 * m ≤ (8192 * c + suc k) * d
  rounded_below m h r f =
      le_of_mul-le-mul_left {k = q}
        (omega (arith, r, mul-le-mul_right d h, mul-le-mul_left {m = 409600} {n = d} q f)) qpos

  rounded_above :
      (m : ℕ)
      → 8192 * c * q ≤ 819200 * p + k * q
      → 2 * (p * d) ≤ 2 * (q * m) + q
      → 409600 ≤ d
      → 8192 * c * d ≤ 819200 * m + suc k * d
  rounded_above m h r f =
      le_of_mul-le-mul_left {k = q}
        (omega (arith, r, mul-le-mul_right d h, mul-le-mul_left {m = 409600} {n = d} q f)) qpos

pos_of_ne : (c : ℕ) → (c ≡ 0 → ⊥) → 0 < c
pos_of_ne zero h = absurd (h refl)
pos_of_ne (suc c) h = omega arith

eq_zero : (c : ℕ) → (0 < c → c ≡ 0) → c ≡ 0
eq_zero zero h = refl
eq_zero (suc c) h = h (omega arith)

nearest_zero : (q : ℕ) → nearest 0 q ≡ record { mant = 0; den = 1 }
unfolding nearest
nearest_zero q = refl

nearest_scaled :
    (p q : ℕ)
    → 0 < p
    → p < q * 2 ^ 53
    → nearest p q
      ≡ record { mant = half_even (scale 1200 q p 1).mant q; den = (scale 1200 q p 1).den }
unfolding nearest
nearest_scaled p q h l = ground arith

-- 1200 doublings are enough for a fraction whose denominator is below 2 ^ 122.
fuel_enough : (p q : ℕ) → 0 < p → q < 2 ^ 122 → q * 2 ^ 52 ≤ p * 2 ^ 1200
fuel_enough p q h l = omega arith

module _ (k c p q : ℕ) (qpos : 0 < q) (kle : k ≤ 4096) (cle : c < 2 ^ 40)
    (lo : 819200 * p ≤ (8192 * c + k) * q) (hi : 8192 * c * q ≤ 819200 * p + k * q) where
  below_range : 0 < p → p < q * 2 ^ 53
  below_range h = omega (arith, lo, mul-le-mul_left {m = 8192 * c + k} {n = 2 ^ 54} q (omega arith))

  none_left : p ≡ 0 → c ≡ 0
  none_left e = eq_zero c λ cpos. absurd (
      omega (
        arith,
        ap (λ (t : ℕ). 819200 * t) e,
        mul-le-mul_left {m = 8192} {n = 8192 * c} q (omega arith),
        mul-le-mul_left {m = k} {n = 4096} q kle,
      ))

  scaled-IsNear :
      (s : Double)
      → 0 < p
      → (c ≡ 0 → p ≡ 0)
      → IsScaled q p 1 s
      → IsNear (suc k) c (record { mant = half_even s.mant q; den = s.den })
  scaled-IsNear s ppos z sc =
      let (rlo, rhi) = half_even_bounds s.mant q qpos in
      let f = fine k c p q s.den qpos kle cle lo (omega (arith, sc.big, sc.same)) in
      let m = half_even s.mant q in
      record {
        zero_exact = λ e. absurd (omega (arith, z e));
        below = rounded_below k c p q s.den qpos kle cle m lo (omega (arith, sc.same)) f;
        above = rounded_above k c p q s.den qpos kle cle m hi (omega (arith, sc.same)) f;
        pos = sc.pos;
        small = elim sc.tight [
          | inl e ↦ omega (arith, e)
          | inr l ↦
              coarse k c p q s.den qpos kle cle hi (pos_of_ne c λ e. omega (arith, z e))
                (omega (arith, sc.same))
        ];
      }

  -- One rounding adds one unit of error.
  pub nearest-IsNear : q < 2 ^ 122 → (c ≡ 0 → p ≡ 0) → IsNear (suc k) c (nearest p q)
  nearest-IsNear qlt z = elim (Bool-cases (p == 0)) [
    | inl e ↦
        let p0 = (==_iff p 0).0 e in
        rw (p0, nearest_zero q)
          (record {
            zero_exact = λ _. refl;
            below = omega arith;
            above = rw (none_left p0) (omega arith);
            pos = omega arith;
            small = omega arith;
          })
    | inr ne ↦
        let ppos : 0 < p = ground arith in
        rw (nearest_scaled p q ppos (below_range ppos)) (
          scaled-IsNear _ ppos z
            (scale-IsScaled 1200 q p 1 (fuel_enough p q ppos qlt) (omega arith)))
  ]

-- A decimal amount below 2 ^ 40 cents, read as a number.
pub of_cents-IsNear : (c : ℕ) → c < 2 ^ 40 → IsNear 1 c (of_cents c)
unfolding of_cents
of_cents-IsNear c h =
    nearest-IsNear 0 c c 100 (omega arith) (omega arith) h (omega arith) (omega arith) (omega arith)
      λ e. e

pub num_add-IsNear :
    (j k b c : ℕ) {x y : Double}
    → IsNear j b x
    → IsNear k c y
    → j + k ≤ 4096
    → b + c < 2 ^ 40
    → IsNear (suc (j + k)) (b + c) (num_add x y)
unfolding num_add
num_add-IsNear j k b c {x} {y} hx hy kle cle =
    nearest-IsNear (j + k) (b + c) _ (x.den * y.den) (mul-le-mul {n₁ = 1} {m₁ = 1} hx.pos hy.pos)
      kle cle (omega (arith, mul-le-mul_right y.den hx.below, mul-le-mul_right x.den hy.below))
      (omega (arith, mul-le-mul_right y.den hx.above, mul-le-mul_right x.den hy.above))
      (omega (
        arith,
        mul-le-mul {n₁ = x.den} {m₁ = y.den} {n₂ = 2 ^ 61 - 1} {m₂ = 2 ^ 61 - 1} (omega arith)
            (omega arith),
      ))
      λ e. rw (hx.zero_exact (omega arith), hy.zero_exact (omega arith)) (omega arith)

-- `toFixed(2)` of a number within half a cent.
pub to_fixed2-IsNear : (k c : ℕ) {x : Double} → IsNear k c x → k ≤ 4095 → to_fixed2 x ≡ c
unfolding to_fixed2
to_fixed2-IsNear k c {x} h kle =
    let room = mul-le-mul_right x.den kle in
    div-eq_of_lt-le (2 * x.den) (omega (arith, h.above)) (omega (arith, h.below, h.pos))

-- the exact sum of amounts
abbrev pub total : List ℕ → ℕ
total [] = 0
total (c ∷ cs) = c + total cs

sum_from-IsNear :
    (k c : ℕ) (cs : List ℕ) (acc : Double)
    → IsNear k c acc
    → k + 2 * length cs ≤ 4095
    → c + total cs < 2 ^ 40
    → IsNear (k + 2 * length cs) (c + total cs) (sum_from acc (map of_cents cs))
unfolding sum_from
sum_from-IsNear k c [] acc h kle cle = subst₂ (λ j b. IsNear j b acc) (omega arith) (omega arith) h
sum_from-IsNear k c (x ∷ cs) acc h kle cle =
    subst₂ (λ j b. IsNear j b (sum_from acc (map of_cents (x ∷ cs)))) (omega arith) (omega arith)
      (sum_from-IsNear (suc (k + 1)) (c + x) cs (num_add acc (of_cents x))
        (num_add-IsNear k 1 c x h (of_cents-IsNear x (omega arith)) (omega arith) (omega arith))
        (omega arith) (omega arith))

-- Up to 2000 amounts that add up to less than 2 ^ 40 cents: their sum as doubles, rounded to two
-- places, is the exact sum, whatever the rounding errors on the way.
pub to_fixed2-sum :
    (cs : List ℕ)
    → length cs ≤ 2000
    → total cs < 2 ^ 40
    → to_fixed2 (sum (map of_cents cs)) ≡ total cs
unfolding sum
to_fixed2-sum cs l h =
    to_fixed2-IsNear (0 + 2 * length cs) (0 + total cs)
      (sum_from-IsNear 0 0 cs (of_nat 0)
        (record {
          zero_exact = λ _. refl;
          below = omega arith;
          above = omega arith;
          pos = omega arith;
          small = omega arith;
        })
        (omega arith) (omega arith))
      (omega arith)
    ∙ omega arith

-- Writing an amount to a number and back loses nothing.
pub to_fixed2-of_cents : (c : ℕ) → c < 2 ^ 40 → to_fixed2 (of_cents c) ≡ c
to_fixed2-of_cents c h = to_fixed2-IsNear 1 c (of_cents-IsNear c h) (omega arith)
