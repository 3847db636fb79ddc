-- ===== src/Prelude/Bits.antt =====
-- Masks: what `&`, `|` and `^` with a constant do, in arithmetic.
use echo_bot.Prelude.{
  ℕ, zero, suc, ◌+◌, ◌-◌, ◌*◌, ◌/◌, ◌%◌, ◌≤◌, ◌<◌, ◌^◌, min, bit_and, bit_or, bit_xor, ◌≡◌, refl,
  sym, ◌∙◌, Bool, true, ◌&&◌, arith, ◌==◌, ==_iff,
}
use Prim.Native.Nat.{digits, bit_and-bitwise}

-- Over a small range, check every value by evaluation.
table : ℕ → (ℕ → Bool) → Bool
table zero p = true
table (suc n) p = p n && table n p

at_table : (n : ℕ) (p : ℕ → Bool) (x : ℕ) → table n p ≡ true → x < n → p x ≡ true
unfolding table
at_table zero p x h lt = absurd (omega arith)
at_table (suc n) p x h lt = ground (arith, at_table n p x)

xor_table : table 4096 (λ x. bit_xor x 4095 == 4095 - x) ≡ true
unfolding table
xor_table = refl

pub bit_xor_4095 : (x : ℕ) → x < 4096 → bit_xor x 4095 ≡ 4095 - x
bit_xor_4095 x h = (==_iff _ _).0 (at_table 4096 _ x xor_table h)

or_table : table 4096 (λ x. bit_or x 4096 == x + 4096) ≡ true
unfolding table
or_table = refl

pub bit_or_4096 : (x : ℕ) → x < 4096 → bit_or x 4096 ≡ x + 4096
bit_or_4096 x h = (==_iff _ _).0 (at_table 4096 _ x or_table h)

-- The lowest digit of `a`, if the digit `y` is 1.
abbrev pick : ℕ → ℕ → ℕ
pick a zero = 0
pick a (suc y) = a % 2

min-pick : (a y : ℕ) → y < 2 → min (a % 2) y ≡ pick a y
min-pick a zero h = omega arith
min-pick a (suc y) h = omega arith

-- `&` on the k lowest digits of `b`.
abbrev and_low : ℕ → ℕ → ℕ → ℕ
and_low zero a b = 0
and_low (suc k) a b = and_low k (a / 2) (b / 2) * 2 + pick a (b % 2)

and_low_zero : (k b : ℕ) → and_low k 0 b ≡ 0
and_low_zero zero b = refl
and_low_zero (suc k) b = omega (arith, and_low_zero k (b / 2), min-pick 0 (b % 2) (omega arith))

digits-and_low : (n k a b : ℕ) → a ≤ n → b < 2 ^ k → digits (λ b. zero) min n a b ≡ and_low k a b
digits-and_low zero k zero b p q = sym (and_low_zero k b)
digits-and_low zero k (suc a) b p q = absurd (omega arith)
digits-and_low (suc n) k zero b p q = sym (and_low_zero k b)
digits-and_low (suc n) zero (suc a) b p q =
    omega (arith, digits-and_low n zero (suc a / 2) (b / 2) (omega arith) (omega arith))
digits-and_low (suc n) (suc k) (suc a) b p q = omega (
  arith,
  digits-and_low n k (suc a / 2) (b / 2) (omega arith) (omega arith),
  min-pick (suc a) (b % 2) (omega arith),
)

low_bits : (k a b : ℕ) → b < 2 ^ k → bit_and a b ≡ and_low k a b
low_bits k a b h = bit_and-bitwise a b ∙ digits-and_low a k a b (omega arith) h

pub bit_and_4095 : (a : ℕ) → bit_and a 4095 ≡ a % 4096
bit_and_4095 a = omega (arith, low_bits 12 a 4095 (omega arith))

pub bit_and_4096 : (a : ℕ) → bit_and a 4096 ≡ a / 4096 % 2 * 4096
bit_and_4096 a = omega (arith, low_bits 13 a 4096 (omega arith))
