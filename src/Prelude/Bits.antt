-- ===== src/Prelude/Bits.antt =====
-- Masks: `&` with a run of ones shifted to the left is division and remainder.
use Prim.Native.Nat.{ℕ, zero, suc, ◌+◌, ◌*◌, ◌/◌, ◌%◌, ◌^◌, ◌≤◌, min, bit_and}
use Prim.Native.Nat.{digits, bit_and-bitwise}
use mathlib.Core.Path.{◌≡◌, refl, sym, ap, ◌∙◌, ◌≡⟨◌⟩◌, ◌∎}
use native.Mathlib.Omega.{arith}
use native.Mathlib.Nat.{pow-suc, pow-succ', div-one, mul-one, mul-div_cancel, div-div-eq-div-mul}

-- The digits of the conjunction, at most `rounds` of them.
abbrev and_digits : ℕ → ℕ → ℕ → ℕ
and_digits rounds x y = digits (λ _. zero) min rounds x y

-- Any two numbers of rounds that both reach the first number give the same digits.
and_digits-enough :
    (x y rounds more : ℕ) → x ≤ rounds → x ≤ more → and_digits rounds x y ≡ and_digits more x y
and_digits-enough zero y zero zero h k = refl
and_digits-enough zero y (suc rounds) zero h k = refl
and_digits-enough zero y zero (suc more) h k = refl
and_digits-enough zero y (suc rounds) (suc more) h k = refl
and_digits-enough (suc x) y zero more h k = absurd (omega arith)
and_digits-enough (suc x) y (suc rounds) zero h k = absurd (omega arith)
and_digits-enough (suc x) y (suc rounds) (suc more) h k =
    let halves = and_digits-enough (suc x / 2) (y / 2) rounds more (omega arith) (omega arith) in
    omega (arith, halves)

-- `&` digit by digit: the lowest digit and those above it.
pub bit_and-halves : (x y : ℕ) → bit_and x y ≡ min (x % 2) (y % 2) + 2 * bit_and (x / 2) (y / 2)
bit_and-halves zero y = omega (arith, bit_and-bitwise zero (y / 2), bit_and-bitwise zero y)
bit_and-halves (suc x) y =
    let half = suc x / 2 in
    let same = and_digits-enough half (y / 2) x half (omega arith) (omega arith) in
    omega (arith, same, bit_and-bitwise half (y / 2), bit_and-bitwise (suc x) y)

bit_and-zero_below : (n a : ℕ) → a ≤ n → bit_and a 0 ≡ 0
bit_and-zero_below n zero h = refl
bit_and-zero_below zero (suc a) h = absurd (omega arith)
bit_and-zero_below (suc n) (suc a) h =
    omega (arith, bit_and-halves (suc a) 0, bit_and-zero_below n (suc a / 2) (omega arith))

-- A mask whose ones start at bit `k`.
pub bit_and-shift : (k a m : ℕ) → bit_and a (m * 2 ^ k) ≡ bit_and (a / 2 ^ k) m * 2 ^ k
bit_and-shift zero a m = omega (
  arith,
  ap (λ (x : ℕ). bit_and x m) (div-one a),
  ap (λ (x : ℕ). bit_and a x) (mul-one m),
  div-one a,
)
bit_and-shift (suc k) a m =
    bit_and a (m * 2 ^ suc k)
    ≡⟨ ap (λ (x : ℕ). bit_and a x) (omega (arith, ap (λ (x : ℕ). m * x) (pow-suc 2 k))) ⟩
      bit_and a (m * 2 ^ k * 2)
    ≡⟨ omega (
      arith,
      bit_and-halves a (m * 2 ^ k * 2),
      ap (λ (x : ℕ). bit_and (a / 2) x) (mul-div_cancel (m * 2 ^ k) {n = 2} (omega arith)),
    ) ⟩
      bit_and (a / 2) (m * 2 ^ k) * 2
    ≡⟨ ap (λ (x : ℕ). x * 2) (bit_and-shift k (a / 2) m) ⟩ bit_and (a / 2 / 2 ^ k) m * 2 ^ k * 2
    ≡⟨ ap (λ (x : ℕ). bit_and x m * 2 ^ k * 2) (div-div-eq-div-mul a 2 (2 ^ k)) ⟩
      bit_and (a / (2 * 2 ^ k)) m * 2 ^ k * 2
    ≡⟨ ap (λ (x : ℕ). bit_and (a / x) m * 2 ^ k * 2) (sym (pow-succ' 2 k)) ⟩
      bit_and (a / 2 ^ suc k) m * 2 ^ k * 2
    ≡⟨ omega (arith, ap (λ (x : ℕ). bit_and (a / 2 ^ suc k) m * x) (pow-suc 2 k)) ⟩
      bit_and (a / 2 ^ suc k) m * 2 ^ suc k ∎

bit_and-1 : (a : ℕ) → bit_and a 1 ≡ a % 2
bit_and-1 a = omega (arith, bit_and-halves a 1, bit_and-zero_below (a / 2) (a / 2))

pub bit_and-3 : (a : ℕ) → bit_and a 3 ≡ a % 4
bit_and-3 a = omega (arith, bit_and-halves a 3, bit_and-1 (a / 2))

pub bit_and-15 : (a : ℕ) → bit_and a 15 ≡ a % 16
bit_and-15 a = omega (arith, bit_and-halves a 15, bit_and-halves (a / 2) 7, bit_and-3 (a / 2 / 2))

pub bit_and-63 : (a : ℕ) → bit_and a 63 ≡ a % 64
bit_and-63 a = omega (arith, bit_and-halves a 63, bit_and-halves (a / 2) 31, bit_and-15 (a / 2 / 2))

pub bit_and-255 : (a : ℕ) → bit_and a 255 ≡ a % 256
bit_and-255 a =
    omega (arith, bit_and-halves a 255, bit_and-halves (a / 2) 127, bit_and-63 (a / 2 / 2))

-- A mask of one bit.
pub bit_and-bit : (k a : ℕ) → bit_and a (2 ^ k) ≡ a / 2 ^ k % 2 * 2 ^ k
bit_and-bit k a =
    ap (λ (m : ℕ). bit_and a m) (omega arith)
    ∙ bit_and-shift k a 1
    ∙ ap (λ (b : ℕ). b * 2 ^ k) (bit_and-1 (a / 2 ^ k))

pub bit_and-4095 : (a : ℕ) → bit_and a 4095 ≡ a % 4096
bit_and-4095 a = omega (
  arith,
  bit_and-halves a 4095,
  bit_and-halves (a / 2) 2047,
  bit_and-halves (a / 2 / 2) 1023,
  bit_and-halves (a / 2 / 2 / 2) 511,
  bit_and-255 (a / 2 / 2 / 2 / 2),
)
