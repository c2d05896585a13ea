-- ===== src/Security/Xor.antt =====
-- The `a ^ b` on bytes of bridge_security.py, by induction on the binary digits.
use Prim.Native.Nat.{bit_xor, bit_xor-bitwise, digits, differ}
use suno_studio.Prelude.{ℕ, zero, suc, ◌+◌, ◌*◌, ◌/◌, ◌%◌, ◌≤◌, ◌<◌, ◌≡◌, refl, arith}

abbrev xor_digits : ℕ → ℕ → ℕ → ℕ
xor_digits n a b = digits (λ r. r) differ n a b

-- More fuel than the first number needs changes nothing.
xor_digits_enough : (k n a b : ℕ) → a ≤ k → a ≤ n → xor_digits k a b ≡ xor_digits n a b
xor_digits_enough zero zero a b p q = refl
xor_digits_enough zero (suc n) zero b p q = refl
xor_digits_enough (suc k) zero zero b p q = refl
xor_digits_enough (suc k) (suc n) zero b p q = refl
xor_digits_enough zero (suc n) (suc a) b p q = absurd (omega arith)
xor_digits_enough (suc k) zero (suc a) b p q = absurd (omega arith)
xor_digits_enough (suc k) (suc n) (suc a) b p q =
    omega (arith, xor_digits_enough k n (suc a / 2) (b / 2) (omega arith) (omega arith))

zero-bit_xor : (b : ℕ) → bit_xor 0 b ≡ b
zero-bit_xor b = bit_xor-bitwise 0 b

-- differ of two binary digits
abbrev bit : ℕ → ℕ → ℕ
bit a b = differ (a % 2) (b % 2)

zero-bit : (b : ℕ) → bit 0 b ≡ b % 2
zero-bit b = refl

bit_xor_step : (a b : ℕ) → bit_xor a b ≡ bit_xor (a / 2) (b / 2) * 2 + bit a b
bit_xor_step zero b = omega (arith, zero-bit_xor b, zero-bit_xor (b / 2), zero-bit b)
bit_xor_step (suc a) b = omega (
  arith,
  bit_xor-bitwise (suc a) b,
  bit_xor-bitwise (suc a / 2) (b / 2),
  xor_digits_enough a (suc a / 2) (suc a / 2) (b / 2) (omega arith) (omega arith),
)

differ_twice : (p q : ℕ) → p < 2 → q < 2 → (differ p q < 2) × (differ (differ p q) q ≡ p)
differ_twice zero zero h k = (omega arith, refl)
differ_twice zero (suc zero) h k = (omega arith, refl)
differ_twice (suc zero) zero h k = (omega arith, refl)
differ_twice (suc zero) (suc zero) h k = (omega arith, refl)
differ_twice (suc (suc p)) q h k = absurd (omega arith)
differ_twice zero (suc (suc q)) h k = absurd (omega arith)
differ_twice (suc zero) (suc (suc q)) h k = absurd (omega arith)

halves : (x y d : ℕ) → d < 2 → x ≡ y * 2 + d → (x / 2 ≡ y) × (x % 2 ≡ d)
halves x y d h e = (omega arith, omega arith)

below_induction : (n a b : ℕ) → a ≤ n → b ≤ n → bit_xor (bit_xor a b) b ≡ a
below_induction zero zero zero p q = refl
below_induction zero zero (suc b) p q = absurd (omega arith)
below_induction zero (suc a) b p q = absurd (omega arith)
below_induction (suc n) a b p q =
    let (small, back) = differ_twice (a % 2) (b % 2) (omega arith) (omega arith) in
    let (half, rest) =
      halves (bit_xor a b) (bit_xor (a / 2) (b / 2)) (bit a b) small (bit_xor_step a b) in
    let ih : bit_xor (bit_xor (a / 2) (b / 2)) (b / 2) ≡ a / 2 =
      below_induction n (a / 2) (b / 2) (omega arith) (omega arith) in
    rw bit_xor_step (rw (half, rest, ih, back) (omega arith))

pub bit_xor_twice : (a b : ℕ) → bit_xor (bit_xor a b) b ≡ a
bit_xor_twice a b = below_induction (a + b) a b (omega arith) (omega arith)
