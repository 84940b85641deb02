-- ===== src/Decimals.antt =====
-- Amounts of money. A column `Decimal(14, 2)` is a whole number of cents; the services compute on
-- JavaScript numbers and come back by `toFixed(2)`.
-- A JavaScript number that is not negative is the fraction `mant / den` that the IEEE double stands
-- for, with `den` a power of two. Sums and products are those of IEEE 754: the exact result, rounded
-- to 53 significant bits, ties to even. There is no overflow to Infinity, since the columns bound
-- every amount.
mod Rounding
pub mod Accuracy
pub mod Injective
mod Tests
use enterprise_ai_procuremen.Prelude.{
  ℕ, zero, suc, ◌+◌, ◌*◌, ◌/◌, ◌%◌, ◌^◌, Bool, true, false, List, [], ◌∷◌, ltb, ◌==◌, leb,
  if◌then◌else◌,
}

pub record Double : Type 0 where
  pub mant : ℕ
  pub den : ℕ

-- `a === b`
unfoldable pub num_eq : Double → Double → Bool
num_eq a b = (a.mant * b.den) == (b.mant * a.den)

-- Doubles `p` and the denominator until the quotient by `q` has 53 bits. The fuel of 1200 is above
-- the 1074 + 52 doublings that the smallest double needs.
unfoldable pub scale : ℕ → ℕ → ℕ → ℕ → Double
scale zero q p d = record { mant = p; den = d }
scale (suc fuel) q p d = elim (ltb p (q * 2 ^ 52)) [
  | true ↦ scale fuel q (p * 2) (d * 2)
  | false ↦ record { mant = p; den = d }
]

-- the whole number nearest to `p / q`, ties to even
unfoldable pub half_even : ℕ → ℕ → ℕ
half_even p q =
    let whole = p / q in
    let rest = p % q in
    if ltb (2 * rest) q then whole else if ltb q (2 * rest) then whole + 1 else whole + whole % 2

-- Halves `p / q`, by doubling `q`, until it is below 2 ^ 53, and scales the result back.
unfoldable pub coarsen : ℕ → ℕ → ℕ → ℕ → ℕ
coarsen zero p q k = half_even p q * k
coarsen (suc fuel) p q k = elim (leb (q * 2 ^ 53) p) [
  | true ↦ coarsen fuel p (q * 2) (k * 2)
  | false ↦ half_even p q * k
]

-- the double nearest to the fraction `p / q`
unfoldable pub nearest : ℕ → ℕ → Double
nearest p q =
    if p == 0
    then record { mant = 0; den = 1 }
    else if leb (q * 2 ^ 53) p
    then record { mant = coarsen 1200 p q 1; den = 1 }
    else let s = scale 1200 q p 1 in record { mant = half_even s.mant q; den = s.den }

-- a whole JavaScript number, exact below 2 ^ 53
abbrev pub of_nat : ℕ → Double
of_nat n = record { mant = n; den = 1 }

-- `Number("c / 100")`, of a decimal text with two places
unfoldable pub of_cents : ℕ → Double
of_cents c = nearest c 100

unfoldable pub num_add : Double → Double → Double
num_add a b = nearest (a.mant * b.den + b.mant * a.den) (a.den * b.den)

unfoldable pub num_mul : Double → Double → Double
num_mul a b = nearest (a.mant * b.mant) (a.den * b.den)

unfoldable pub num_div : Double → Double → Double
num_div a b = nearest (a.mant * b.den) (a.den * b.mant)

-- `x.toFixed(2)`, in cents: the whole number nearest to 100 x, and the larger one of two
unfoldable pub to_fixed2 : Double → ℕ
to_fixed2 x = (200 * x.mant + x.den) / (2 * x.den)

-- `xs.reduce((sum, x) => sum + x, 0)`
unfoldable pub sum_from : Double → List Double → Double
sum_from acc [] = acc
sum_from acc (x ∷ xs) = sum_from (num_add acc x) xs

unfoldable pub sum : List Double → Double
unfolding sum_from
sum xs = sum_from (of_nat 0) xs
