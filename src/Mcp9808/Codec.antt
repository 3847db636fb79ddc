-- ===== src/Mcp9808/Codec.antt =====
-- Temperatures in the thermometer's registers, and as whole and millionth degrees.
use echo_bot.Prelude.{
  ℕ, zero, suc, ◌+◌, ◌-◌, ◌*◌, ◌/◌, ◌%◌, ◌^◌, ◌≤◌, ◌<◌, ◌≡◌, refl, ap, ◌∙◌, inl, inr, Bool, true,
  ok, arith, ◌==◌, if◌then◌else◌, bit_and, Bool-cases, u16,
}
use echo_bot.Prelude.Int.{ℤ, pos, negsuc, pos_part, neg_part, ◌-ℤ◌, ◌*ℤ◌, neg_ℕ, quot, int}
use echo_bot.Prelude.Bits.{bit_and_4095, bit_and_4096, bit_or_4096, bit_xor_4095}
use echo_bot.Mcp9808.{
  temp_reg_from_signed, temp_signed_from_reg, SensorValue, ambient_temp, channel_get,
}

-- The temperature of a register, in sixteenths of a degree, in arithmetic: twelve bits, less 4096
-- if bit 12 is set.
abbrev pub reading : ℕ → ℤ
reading reg = if (reg / 4096 % 2) == 0 then pos (reg % 4096) else negsuc (4095 - reg % 4096)

temp_reg_pos : (n : ℕ) → n < 4096 → temp_reg_from_signed (pos n) ≡ n
unfolding temp_reg_from_signed
temp_reg_pos n h = omega (arith, bit_and_4095 (n % 2 ^ 32))

temp_reg_neg : (n : ℕ) → n < 4096 → temp_reg_from_signed (negsuc n) ≡ 8191 - n
unfolding temp_reg_from_signed
temp_reg_neg n h = omega (
  arith,
  bit_and_4095 (2 ^ 32 - 1 - n % 2 ^ 32),
  bit_or_4096 (u16 (bit_and (2 ^ 32 - 1 - n % 2 ^ 32) 4095))
      (omega (arith, bit_and_4095 (2 ^ 32 - 1 - n % 2 ^ 32))),
)

-- The driver reads the temperature of a register, whatever its three alert bits.
pub temp_signed_from_reg_lem : (reg : ℕ) → temp_signed_from_reg reg ≡ reading reg
unfolding temp_signed_from_reg
temp_signed_from_reg_lem reg =
    rw (bit_and_4095 reg, bit_and_4096 reg, bit_xor_4095 (reg % 4096) (omega arith)) (ground arith)

-- A temperature from -256 to just under 256 degrees comes back from the register that it is written
-- to.
pub temp_reg_from_signed-temp_signed_from_reg :
    (t : ℤ)
    → pos_part t < 4096
    → neg_part t ≤ 4096
    → temp_signed_from_reg (temp_reg_from_signed t) ≡ t
temp_reg_from_signed-temp_signed_from_reg (pos n) h k =
    ap temp_signed_from_reg (temp_reg_pos n h) ∙ temp_signed_from_reg_lem n ∙ ground arith
temp_reg_from_signed-temp_signed_from_reg (negsuc n) h k =
    ap temp_signed_from_reg (temp_reg_neg n (omega arith))
    ∙ temp_signed_from_reg_lem (8191 - n)
    ∙ ground arith

pos-mul : (m n : ℕ) → pos m *ℤ pos n ≡ pos (m * n)
unfolding ◌*ℤ◌
pos-mul m n = ground arith

neg_ℕ-mul : (m n : ℕ) → neg_ℕ m *ℤ pos n ≡ neg_ℕ (m * n)
unfolding ◌*ℤ◌
neg_ℕ-mul zero n = ground arith
neg_ℕ-mul (suc m) n = ground arith

pos-sub : (m n : ℕ) → n ≤ m → pos m -ℤ pos n ≡ pos (m - n)
unfolding ◌-ℤ◌
pos-sub m n h = ground arith

neg_ℕ-sub : (m n : ℕ) → n ≤ m → neg_ℕ m -ℤ neg_ℕ n ≡ neg_ℕ (m - n)
unfolding ◌-ℤ◌
neg_ℕ-sub m n h = ground arith

int-pos : (n : ℕ) → n < 2 ^ 31 → int (pos n) ≡ ok (pos n)
int-pos n h = ground arith

int-neg_ℕ : (n : ℕ) → n ≤ 2 ^ 31 → int (neg_ℕ n) ≡ ok (neg_ℕ n)
int-neg_ℕ n h = ground arith

quot-neg_ℕ : (n : ℕ) → quot (neg_ℕ n) 16 ≡ neg_ℕ (n / 16)
quot-neg_ℕ zero = refl
quot-neg_ℕ (suc n) = refl

module _ (asserts : Bool) (reg n : ℕ) (small : n ≤ 4096) where
  assertion : (if asserts then true else true) ≡ true
  assertion = ground arith

  channel_get_pos :
      temp_signed_from_reg reg ≡ pos n
      → channel_get asserts reg ambient_temp
        ≡ ok (record { val1 = pos (n / 16); val2 = pos (n % 16 * 1000000 / 16) })
  unfolding channel_get
  channel_get_pos e =
      rw
        (
          e,
          assertion,
          pos-mul (n / 16) 16,
          int-pos (n / 16 * 16) (omega arith),
          pos-sub n (n / 16 * 16) (omega arith),
          int-pos (n - n / 16 * 16) (omega arith),
          pos-mul (n - n / 16 * 16) 1000000,
          int-pos ((n - n / 16 * 16) * 1000000) (omega arith),
        )
        (ap (λ k. ok (record { val1 = pos (n / 16); val2 = pos (k * 1000000 / 16) })) {y = n % 16}
          (omega arith))

  channel_get_neg :
      temp_signed_from_reg reg ≡ neg_ℕ n
      → channel_get asserts reg ambient_temp
        ≡ ok (record { val1 = neg_ℕ (n / 16); val2 = neg_ℕ (n % 16 * 1000000 / 16) })
  unfolding channel_get
  channel_get_neg e =
      rw
        (
          e,
          assertion,
          quot-neg_ℕ n,
          neg_ℕ-mul (n / 16) 16,
          int-neg_ℕ (n / 16 * 16) (omega arith),
          neg_ℕ-sub n (n / 16 * 16) (omega arith),
          int-neg_ℕ (n - n / 16 * 16) (omega arith),
          neg_ℕ-mul (n - n / 16 * 16) 1000000,
          int-neg_ℕ ((n - n / 16 * 16) * 1000000) (omega arith),
          quot-neg_ℕ ((n - n / 16 * 16) * 1000000),
        )
        (ap (λ k. ok (record { val1 = neg_ℕ (n / 16); val2 = neg_ℕ (k * 1000000 / 16) }))
          {y = n % 16} (omega arith))

-- The whole and the millionth degrees of a value say the temperature in sixteenths exactly, both
-- with its sign, and the millionths are less than a degree.
pub record Says (v : SensorValue) (t : ℤ) : Type 0 where
  pub above : pos_part v.val1 * 1000000 + pos_part v.val2 ≡ pos_part t * 62500
  pub below : neg_part v.val1 * 1000000 + neg_part v.val2 ≡ neg_part t * 62500
  pub fraction : pos_part v.val2 + neg_part v.val2 < 1000000

pub neg_ℕ_parts : (n : ℕ) → (pos_part (neg_ℕ n) ≡ 0) × (neg_part (neg_ℕ n) ≡ n)
neg_ℕ_parts zero = (refl, refl)
neg_ℕ_parts (suc n) = (refl, refl)

-- For every value of the register, `channel_get` on the temperature channel faults on no assertion
-- and no overflow, and what it says is exactly the register's temperature, with no rounding.
pub channel_get_lem :
    (asserts : Bool) (reg : ℕ)
    → (v : SensorValue) × (channel_get asserts reg ambient_temp ≡ ok v) × Says v (reading reg)
channel_get_lem asserts reg = elim (Bool-cases ((reg / 4096 % 2) == 0)) [
  | inl up ↦
      let n = reg % 4096 in
      let e : reading reg ≡ pos n = rw up refl in
      (
        _,
        channel_get_pos asserts reg n (omega arith) (temp_signed_from_reg_lem reg ∙ e),
        rw e (record { above = omega arith; below = refl; fraction = omega arith }),
      )
  | inr down ↦
      let n = 4096 - reg % 4096 in
      let e : reading reg ≡ neg_ℕ n = ground arith in
      let (p1, n1) = neg_ℕ_parts (n / 16) in
      let (p2, n2) = neg_ℕ_parts (n % 16 * 1000000 / 16) in
      let (p3, n3) = neg_ℕ_parts n in
      (
        _,
        channel_get_neg asserts reg n (omega arith) (temp_signed_from_reg_lem reg ∙ e),
        rw e (record {
          above = omega (arith, p1, p2, p3);
          below = omega (arith, n1, n2, n3);
          fraction = omega (arith, p2, n2);
        }),
      )
]
