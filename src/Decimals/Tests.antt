-- ===== src/Decimals/Tests.antt =====
-- Runs of the arithmetic, and the theorems at concrete inputs.
use enterprise_ai_procuremen.Prelude.{ℕ, ◌≡◌, ◌↔◌, refl, false, true, [], ◌∷◌, map, arith}
use enterprise_ai_procuremen.Decimals.{
  of_cents, num_add, num_mul, to_fixed2, of_nat, num_eq, nearest, half_even, scale, sum,
}
use enterprise_ai_procuremen.Decimals.Accuracy.{total, to_fixed2-sum}
use enterprise_ai_procuremen.Decimals.Injective.{of_cents_iff}

-- 0.1 + 0.2 !== 0.3
drift : num_eq (num_add (of_cents 10) (of_cents 20)) (of_cents 30) ≡ false
unfolding num_eq num_add of_cents nearest half_even scale
drift = refl

-- (3 * 19.99).toFixed(2) is "59.97"
three_chairs : to_fixed2 (num_mul (of_nat 3) (of_cents 1999)) ≡ 5997
unfolding num_mul of_cents to_fixed2 nearest half_even scale
three_chairs = refl

-- (0.1 + 0.2).toFixed(2) is "0.30"
rounded_drift : to_fixed2 (num_add (of_cents 10) (of_cents 20)) ≡ 30
unfolding num_add of_cents to_fixed2 nearest half_even scale
rounded_drift = refl

to_fixed2-sum_example :
    to_fixed2 (sum (map of_cents (10 ∷ 20 ∷ 30 ∷ []))) ≡ total (10 ∷ 20 ∷ 30 ∷ [])
to_fixed2-sum_example = to_fixed2-sum (10 ∷ 20 ∷ 30 ∷ []) (ground arith) (ground arith)

of_cents_iff_example : (num_eq (of_cents 10) (of_cents 20) ≡ true) ↔ (◌≡◌ {A = ℕ} 10 20)
of_cents_iff_example = of_cents_iff 10 20 (ground arith) (ground arith)
