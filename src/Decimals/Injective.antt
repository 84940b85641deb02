-- ===== src/Decimals/Injective.antt =====
-- Distinct decimal amounts are distinct numbers.
use native.Mathlib.Nat.{mul-le-mul_left, mul-le-mul_right}
use enterprise_ai_procuremen.Prelude.{
  ℕ, suc, ◌+◌, ◌*◌, ◌^◌, ◌≤◌, ◌<◌, ◌≡◌, ◌↔◌, refl, true, arith, ==_iff, leb, leb→le, Bool-cases,
  inl, inr, sym,
}
use enterprise_ai_procuremen.Decimals.{Double, num_eq, of_cents}
use enterprise_ai_procuremen.Decimals.Accuracy.{IsNear, of_cents-IsNear}

module _ (j k a b p d q e : ℕ) (dpos : 0 < d) (epos : 0 < e) (small : j + k < 8192) where
  le_of_near :
      8192 * a * d ≤ 819200 * p + j * d → 819200 * q ≤ (8192 * b + k) * e → p * e ≡ q * d → a ≤ b
  le_of_near lo hi same = elim (Bool-cases (leb a b)) [
    | inl h ↦ leb→le a b h
    | inr n ↦ absurd (
        omega (
          arith,
          mul-le-mul_right e lo,
          mul-le-mul_right d hi,
          mul-le-mul_left {m = 1} {n = d * e} 1 (pos),
          mul-le-mul_left {m = suc b} {n = a} (d * e) (ground arith),
          mul-le-mul_left {m = suc (j + k)} {n = 8192} (d * e) small,
          same,
        ))
  ]
    where
      pos : 1 ≤ d * e
      pos = omega (arith, mul-le-mul_left {m = 1} {n = e} d epos)

near_le :
    {j k a b : ℕ} {x y : Double}
    → IsNear j a x
    → IsNear k b y
    → j + k < 8192
    → x.mant * y.den ≡ y.mant * x.den
    → a ≤ b
near_le {j} {k} {a} {b} {x} {y} f g small same =
    le_of_near j k a b x.mant x.den y.mant y.den f.pos g.pos small f.above g.below same

-- Amounts below 2 ^ 40 cents are equal as doubles exactly if they are the same amount.
pub of_cents_iff :
    (a b : ℕ) → a < 2 ^ 40 → b < 2 ^ 40 → (num_eq (of_cents a) (of_cents b) ≡ true) ↔ (a ≡ b)
unfolding num_eq
of_cents_iff a b h k =
    let f = of_cents-IsNear a h in
    let g = of_cents-IsNear b k in
    (
      λ e.
          let same = (==_iff _ _).0 e in
          let le = near_le f g (omega arith) same in
          let ge = near_le g f (omega arith) (sym same) in omega (arith, le, ge),
      λ e. rw e ((==_iff _ _).1 refl),
    )
