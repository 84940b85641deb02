-- ===== src/Decimals/Rounding.antt =====
-- What the rounding steps of Decimals.antt give: the nearest whole number, and 53 significant bits.
use native.Mathlib.Nat.{mul-le-mul_left, div-add-mod, mod-lt, pow-succ', eq_of_mul-eq-mul_left}
use enterprise_ai_procuremen.Prelude.{
  ℕ, zero, suc, ◌+◌, ◌*◌, ◌/◌, ◌%◌, ◌^◌, ◌≤◌, ◌<◌, ◌≡◌, refl, ap, ◌⊎◌, inl, inr, arith, ltb, ltb→lt,
  Bool-cases,
}
use enterprise_ai_procuremen.Decimals.{Double, scale, half_even}

pub half_even_bounds :
    (p q : ℕ)
    → 0 < q
    → (2 * (q * half_even p q) ≤ 2 * p + q) × (2 * p ≤ 2 * (q * half_even p q) + q)
unfolding half_even
half_even_bounds p q h =
    let e = div-add-mod p q in
    let l = mod-lt p h in
    let odd = mul-le-mul_left {m = p / q % 2} {n = 1} q (omega arith) in
    elim (Bool-cases (ltb (2 * (p % q)) q)) [
      | inl low ↦ rw low (let f = ltb→lt _ _ low in omega arith)
      | inr k ↦ rw k (elim (Bool-cases (ltb q (2 * (p % q)))) [
        | inl high ↦ rw high (let f = ltb→lt _ _ high in (omega arith, omega arith))
        | inr tie ↦ let f : 2 * (p % q) ≡ q = ground arith in rw tie (omega arith, omega arith)
      ])
    ]

pub record IsScaled (q p d : ℕ) (s : Double) : Type 0 where
  pub big : q * 2 ^ 52 ≤ s.mant
  pub same : s.mant * d ≡ p * s.den
  pub pos : 0 < s.den
  pub tight : (s.den ≡ d) ⊎ (s.mant < q * 2 ^ 53)

IsScaled-double :
    (q p d : ℕ) (s : Double)
    → p < q * 2 ^ 52
    → 0 < d
    → IsScaled q (p * 2) (d * 2) s
    → IsScaled q p d s
IsScaled-double q p d s low hd h = record {
  big = h.big;
  same = omega (arith, h.same);
  pos = h.pos;
  tight = inr (elim h.tight [
    | inl e ↦
        let twice : s.mant ≡ p * 2 =
          eq_of_mul-eq-mul_left (d * 2) (omega arith) s.mant (p * 2)
            (omega (arith, h.same, ap (λ (t : ℕ). p * 2 * t) e)) in
        omega arith
    | inr l ↦ l
  ]);
}

pub scale-IsScaled :
    (fuel q p d : ℕ) → q * 2 ^ 52 ≤ p * 2 ^ fuel → 0 < d → IsScaled q p d (scale fuel q p d)
unfolding scale
scale-IsScaled zero q p d h hd = record {
  big = omega arith;
  same = refl;
  pos = hd;
  tight = inl refl;
}
scale-IsScaled (suc fuel) q p d h hd = elim (Bool-cases (ltb p (q * 2 ^ 52))) [
  | inl e ↦
      rw (e, scale)
        (IsScaled-double q p d _ (ground arith) hd (
          scale-IsScaled fuel q (p * 2) (d * 2)
            (omega (arith, h, ap (λ (t : ℕ). p * t) (pow-succ' 2 fuel))) (omega arith)))
  | inr e ↦ rw (e, scale) (record { big = ground arith; same = refl; pos = hd; tight = inl refl })
]
