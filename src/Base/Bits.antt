-- ===== src/Base/Bits.antt =====
-- The laws of `|` and `^` that the codecs need: adding digits above a number, and complement.
use Prim.Native.Nat.{
  ℕ, zero, suc, ◌+◌, ◌-◌, ◌*◌, ◌/◌, ◌%◌, ◌^◌, ◌≤◌, ◌<◌, max, differ, bit_or, bit_xor, digits,
  bit_or-bitwise, bit_xor-bitwise,
}
use mathlib.Core.Path.{◌≡◌, refl, ap}
use native.Mathlib.Nat.{pow-suc}
use native.Mathlib.Omega.{arith}

-- The digits do not depend on the fuel, once it covers the first number.
module _ (op : ℕ → ℕ → ℕ) where
  abbrev run : ℕ → ℕ → ℕ → ℕ
  run n a b = digits (λ c. c) op n a b

  run_fuel : (n m a b : ℕ) → a ≤ n → a ≤ m → run n a b ≡ run m a b
  run_fuel zero zero a b p q = refl
  run_fuel zero (suc m) zero b p q = refl
  run_fuel zero (suc m) (suc a) b p q = absurd (omega arith)
  run_fuel (suc n) zero zero b p q = refl
  run_fuel (suc n) zero (suc a) b p q = absurd (omega arith)
  run_fuel (suc n) (suc m) zero b p q = refl
  run_fuel (suc n) (suc m) (suc a) b p q =
      omega (arith, run_fuel n m (suc a / 2) (b / 2) (omega arith) (omega arith))

pub zero-bit_or : (b : ℕ) → bit_or 0 b ≡ b
zero-bit_or b = bit_or-bitwise 0 b

pub zero-bit_xor : (b : ℕ) → bit_xor 0 b ≡ b
zero-bit_xor b = bit_xor-bitwise 0 b

-- The lowest digit apart.
pub bit_or_step : (a b : ℕ) → bit_or a b ≡ bit_or (a / 2) (b / 2) * 2 + max (a % 2) (b % 2)
bit_or_step zero b = omega (arith, zero-bit_or b, zero-bit_or (b / 2))
bit_or_step (suc a) b = omega (
  arith,
  bit_or-bitwise (suc a) b,
  bit_or-bitwise (suc a / 2) (b / 2),
  run_fuel max a (suc a / 2) (suc a / 2) (b / 2) (omega arith) (omega arith),
)

pub bit_xor_step : (a b : ℕ) → bit_xor a b ≡ bit_xor (a / 2) (b / 2) * 2 + differ (a % 2) (b % 2)
bit_xor_step zero b = omega (arith, zero-bit_xor b, zero-bit_xor (b / 2))
bit_xor_step (suc a) b = omega (
  arith,
  bit_xor-bitwise (suc a) b,
  bit_xor-bitwise (suc a / 2) (b / 2),
  run_fuel differ a (suc a / 2) (suc a / 2) (b / 2) (omega arith) (omega arith),
)

double : (k : ℕ) → 2 ^ suc k ≡ 2 * 2 ^ k
double k = omega (arith, pow-suc 2 k)

pow-pos : (k : ℕ) → 0 < 2 ^ k
pow-pos zero = omega arith
pow-pos (suc k) = omega (arith, double k, pow-pos k)

differ-zero : (d : ℕ) → differ d 0 ≡ d
differ-zero zero = refl
differ-zero (suc d) = refl

-- Digits above those of `a` are added.
pub bit_or-shifted : (k a b : ℕ) → a < 2 ^ k → bit_or a (b * 2 ^ k) ≡ a + b * 2 ^ k
bit_or-shifted zero a b h =
    let e : a ≡ 0 = omega arith in rw e (omega (arith, zero-bit_or (b * 2 ^ 0)))
bit_or-shifted (suc k) a b h =
    let m = b * 2 ^ k in
    let e : b * 2 ^ suc k ≡ 2 * m = rw double (omega arith) in
    let half : 2 * m / 2 ≡ m = omega arith in
    rw e (
      omega (
        arith,
        bit_or_step a (2 * m),
        ap (λ t. bit_or (a / 2) t) half,
        bit_or-shifted k (a / 2) b (omega (arith, double k)),
      ))

differ-one : (d : ℕ) → d < 2 → differ d 1 ≡ 1 - d
differ-one zero h = refl
differ-one (suc zero) h = refl
differ-one (suc (suc d)) h = absurd (omega arith)

-- `x ^ 0xff…f` is the complement of the low `k` digits.
pub bit_xor-ones : (k a : ℕ) → a < 2 ^ k → bit_xor a (2 ^ k - 1) ≡ 2 ^ k - 1 - a
bit_xor-ones zero a h =
    let e : a ≡ 0 = omega arith in rw e (omega (arith, zero-bit_xor (2 ^ 0 - 1)))
bit_xor-ones (suc k) a h =
    let half : (2 ^ suc k - 1) / 2 ≡ 2 ^ k - 1 = omega (arith, double k) in
    let odd : (2 ^ suc k - 1) % 2 ≡ 1 = omega (arith, double k, pow-pos k) in
    omega (
      arith,
      bit_xor_step a (2 ^ suc k - 1),
      ap (λ t. bit_xor (a / 2) t) half,
      ap (λ t. differ (a % 2) t) odd,
      differ-one (a % 2) (omega arith),
      double k,
      bit_xor-ones k (a / 2) (omega (arith, double k)),
    )

-- `x ^ 0` is `x`.
pub bit_xor-zero : (k a : ℕ) → a < 2 ^ k → bit_xor a 0 ≡ a
bit_xor-zero zero a h = let e : a ≡ 0 = omega arith in rw e (zero-bit_xor 0)
bit_xor-zero (suc k) a h =
    omega (
      arith,
      bit_xor_step a 0,
      differ-zero (a % 2),
      bit_xor-zero k (a / 2) (omega (arith, double k)),
    )
