-- ===== src/Prelude/Round.antt =====
-- Python's `round` on decimals: a fixed number of digits is a scaled integer, ties go to the even
-- neighbour.
use Prim.Native.Nat.{ℕ, suc, ◌+◌, ◌-◌, ◌*◌, ◌/◌, ◌%◌, compare, Ordering}
use Prim.Native.Nat.{◌≤◌, ◌<◌}
use mathlib.Core.Path.{◌≡◌, ap}
use native.Mathlib.Decide.{ℕ_discrete}
use native.Mathlib.Omega.{arith}
use native.Mathlib.Nat.{div-add-mod', le-div_iff_mul-le, div-le_of_le-mul, mul_comm}
use multiagent_platform_v.Prelude.Int.{neg_part, negsuc, pos, pos_part, ℤ}

-- `a - b`

abbrev pub diff : ℕ → ℕ → ℤ
diff a b = elim (compare a b) [ Ordering.lt ↦ negsuc (b - a - 1) | _ ↦ pos (a - b) ]

abbrev pub neg_ℤ : ℤ → ℤ
neg_ℤ (pos n) = diff 0 n
neg_ℤ (negsuc n) = pos (suc n)

abbrev pub add_ℤ : ℤ → ℤ → ℤ
add_ℤ a b = diff (pos_part a + pos_part b) (neg_part a + neg_part b)

-- `n * z`
abbrev pub scale_ℤ : ℕ → ℤ → ℤ
scale_ℤ n z = diff (n * pos_part z) (n * neg_part z)

-- `n - z`
abbrev pub minus_ℤ : ℕ → ℤ → ℤ
minus_ℤ n z = diff (n + neg_part z) (pos_part z)

-- the nearest number to `n / d`
unfoldable pub round_ℕ : ℕ → ℕ → ℕ
round_ℕ n d =
    let q = n / d in
    elim (compare (2 * (n % d)) d) [
      | Ordering.lt ↦ q
      | Ordering.eq ↦ q + q % 2
      | Ordering.gt ↦ suc q
    ]

-- the nearest number to `n / d`, whatever their signs
unfoldable pub round_ℤ : ℤ → ℤ → ℤ
unfolding round_ℕ
round_ℤ (pos n) (pos d) = pos (round_ℕ n d)
round_ℤ (pos n) (negsuc d) = diff 0 (round_ℕ n (suc d))
round_ℤ (negsuc n) (pos d) = diff 0 (round_ℕ (suc n) d)
round_ℤ (negsuc n) (negsuc d) = pos (round_ℕ (suc n) (suc d))

quotient_lt : (q m d r n : ℕ) → q ≤ m → q * d + r ≡ n → n ≤ m * d → 0 < r → q < m
quotient_lt q m d r n le sum upper rest = elim (ℕ_discrete q m) [
  | yes same ↦ absurd (omega (arith, ap (λ (x : ℕ). x * d) same))
  | no other ↦ ground arith
]

-- What lies between two whole numbers is rounded to a number between them.
pub round_ℕ_bounds :
    (k m n d : ℕ) → 0 < d → k * d ≤ n → n ≤ m * d → (k ≤ round_ℕ n d) × (round_ℕ n d ≤ m)
unfolding round_ℕ
round_ℕ_bounds k m n d some lower upper =
    let above : k ≤ n / d = (le-div_iff_mul-le some).1 lower in
    let below : n / d ≤ m = div-le_of_le-mul d (omega (arith, mul_comm m d)) in
    let strict = quotient_lt (n / d) m d (n % d) n below (div-add-mod' n d) upper in
    ground (arith, strict)
