-- ===== src/Mcp9808/App/Window.antt =====
-- src/main_mcp9808.c, under CONFIG_MCP9808_TRIGGER: the window of temperatures that raises no alert.
use echo_bot.Prelude.{
  ℕ, suc, ◌+◌, ◌*◌, ◌/◌, ◌%◌, ◌^◌, ◌≤◌, ◌<◌, ◌≡◌, refl, List, [], ◌∷◌, if◌then◌else◌, Result, ok,
  ◌>>=◌, arith, true, false, Bool-cases, inl, inr,
}
use echo_bot.Prelude.Int.{
  ℤ, pos, negsuc, pos_part, neg_part, ◌+ℤ◌, ◌-ℤ◌, ◌*ℤ◌, quot, rem, int, +ℤ_parts, -ℤ_parts,
}
use echo_bot.Zephyr.Errno.{is_error}
use echo_bot.Mcp9808.{SensorValue}
use echo_bot.Mcp9808.Codec.{reading, Says, neg_ℕ_parts}

-- The calls of `sensor_attr_set`, and the line that is printed.
pub data WindowCall : Type 0 where
  lower_thresh upper_thresh : SensorValue → WindowCall
  alert_line : ℤ → ℤ → WindowCall

abbrev pub in_ucel : ℤ → SensorValue
in_ucel ucel = record { val1 = quot ucel 1000000; val2 = rem ucel 1000000 }

-- `lower` and `upper` are what `sensor_attr_set` returns.
unfoldable pub set_thresholds : ℤ → ℤ → ℤ → ℤ → ℤ × List WindowCall
set_thresholds lower upper low_ucel high_ucel =
    let first = lower_thresh (in_ucel low_ucel) in
    let second = upper_thresh (in_ucel high_ucel) in
    if is_error lower
    then (lower, first ∷ [])
    else if is_error upper
    then (upper, first ∷ second ∷ [])
    else (upper, first ∷ second ∷ alert_line (quot low_ucel 1000) (quot high_ucel 1000) ∷ [])

unfoldable pub set_window : ℤ → ℤ → SensorValue → Result (ℤ × List WindowCall)
set_window lower upper temp = do
  whole ← int (temp.val1 *ℤ pos 1000000)
  temp_ucel ← int (whole +ℤ temp.val2)
  low_ucel ← int (temp_ucel -ℤ pos 500000)
  high_ucel ← int (temp_ucel +ℤ pos 500000)
  ok (set_thresholds lower upper low_ucel high_ucel)

unfoldable pub set_window_ucel : ℤ → ℤ → ℤ → Result (ℤ × List WindowCall)
set_window_ucel lower upper temp_ucel = set_window lower upper (in_ucel temp_ucel)

int_ok : (a : ℤ) → pos_part a < 2 ^ 31 → neg_part a ≤ 2 ^ 31 → int a ≡ ok a
int_ok a h k = ground arith

mul_parts :
    (a : ℤ)
    → (pos_part (a *ℤ pos 1000000) ≡ pos_part a * 1000000)
      × (neg_part (a *ℤ pos 1000000) ≡ neg_part a * 1000000)
unfolding ◌*ℤ◌
mul_parts (pos n) = ground arith
mul_parts (negsuc n) = ground arith

-- The threshold `v` lies `above` millionths of a degree over the temperature `t` in sixteenths, less
-- `below`.
pub record LiesAt (v : SensorValue) (t : ℤ) (above below : ℕ) : Type 0 where
  pub exact :
      pos_part v.val1 * 1000000 + pos_part v.val2 + neg_part t * 62500 + below
      ≡ neg_part v.val1 * 1000000 + neg_part v.val2 + pos_part t * 62500 + above

in_ucel_exact :
    (a : ℤ)
    → pos_part (in_ucel a).val1 * 1000000 + pos_part (in_ucel a).val2 + neg_part a
      ≡ neg_part (in_ucel a).val1 * 1000000 + neg_part (in_ucel a).val2 + pos_part a
in_ucel_exact (pos n) = omega arith
in_ucel_exact (negsuc n) = omega (
  arith,
  (neg_ℕ_parts (suc n / 1000000)).0,
  (neg_ℕ_parts (suc n / 1000000)).1,
  (neg_ℕ_parts (suc n % 1000000)).0,
  (neg_ℕ_parts (suc n % 1000000)).1,
)

sum_bounds :
    (a b : ℤ)
    → (pos_part (a +ℤ b) ≤ pos_part a + pos_part b) × (neg_part (a +ℤ b) ≤ neg_part a + neg_part b)
unfolding ◌+ℤ◌
sum_bounds a b = ground arith

difference_bounds :
    (a b : ℤ)
    → (pos_part (a -ℤ b) ≤ pos_part a + neg_part b) × (neg_part (a -ℤ b) ≤ neg_part a + pos_part b)
unfolding ◌-ℤ◌
difference_bounds a b = ground arith

reading_bounds : (reg : ℕ) → (pos_part (reading reg) ≤ 4096) × (neg_part (reading reg) ≤ 4096)
reading_bounds reg = ground arith

-- For every temperature that the thermometer can give, setting the window overflows no `int`, and the
-- two thresholds lie exactly half a degree below and above the temperature.
pub set_window_lem :
    (lower upper : ℤ) (reg : ℕ) (v : SensorValue)
    → Says v (reading reg)
    → (low high : ℤ) × (set_window lower upper v ≡ ok (set_thresholds lower upper low high))
      × LiesAt (in_ucel low) (reading reg) 0 500000
      × LiesAt (in_ucel high) (reading reg) 500000 0
unfolding set_window
set_window_lem lower upper reg v says =
    let whole = v.val1 *ℤ pos 1000000 in
    let temp = whole +ℤ v.val2 in
    let low = temp -ℤ pos 500000 in
    let high = temp +ℤ pos 500000 in
    let (b1, b2) = reading_bounds reg in
    let (w1, w2) = mul_parts v.val1 in
    let (s1, s2) = sum_bounds whole v.val2 in
    let (l1, l2) = difference_bounds temp (pos 500000) in
    let (h1, h2) = sum_bounds temp (pos 500000) in
    let a = says.above in
    let b = says.below in
    (
      low,
      high,
      rw
          (
            int_ok whole (omega (arith, b1, w1, a)) (omega (arith, b2, w2, b)),
            int_ok temp (omega (arith, b1, w1, s1, a)) (omega (arith, b2, w2, s2, b)),
            int_ok low (omega (arith, b1, w1, s1, a, l1)) (omega (arith, b2, w2, s2, b, l2)),
            int_ok high (omega (arith, b1, w1, s1, a, h1)) (omega (arith, b2, w2, s2, b, h2)),
          )
          refl,
      record {
        exact = omega (
          arith,
          in_ucel_exact low,
          -ℤ_parts temp (pos 500000),
          +ℤ_parts whole v.val2,
          w1,
          w2,
          a,
          b,
        );
      },
      record {
        exact = omega (
          arith,
          in_ucel_exact high,
          +ℤ_parts temp (pos 500000),
          +ℤ_parts whole v.val2,
          w1,
          w2,
          a,
          b,
        );
      },
    )

-- The temperature in millionths of a degree lies `above` over `t` sixteenths, less `below`.
abbrev pub LiesOff : (ucel t : ℤ) (above below : ℕ) → Type 0
LiesOff ucel t above below =
    pos_part ucel + neg_part t * 62500 + below ≡ neg_part ucel + pos_part t * 62500 + above

LiesAt-in_ucel :
    (ucel t : ℤ) (above below : ℕ)
    → LiesAt (in_ucel ucel) t above below
    → LiesOff ucel t above below
LiesAt-in_ucel ucel t above below h = omega (arith, h.exact, in_ucel_exact ucel)

-- The calls that set the window from half a degree below to half a degree above the temperature `t` in
-- sixteenths, where `codes` are what the two of them return: the lower threshold, behind it, if that is
-- not refused, the upper one, and a line with both in thousandths, if neither is refused.
pub data SetsWindow (t : ℤ) (codes : ℤ × ℤ) : List WindowCall → Type 0 where
  lower_fails :
      {low : SensorValue}
      → is_error codes.0 ≡ true
      → LiesAt low t 0 500000
      → SetsWindow t codes (lower_thresh low ∷ [])
  upper_fails :
      {low high : SensorValue}
      → is_error codes.0 ≡ false
      → is_error codes.1 ≡ true
      → LiesAt low t 0 500000
      → LiesAt high t 500000 0
      → SetsWindow t codes (lower_thresh low ∷ upper_thresh high ∷ [])
  sets_both :
      {low high : SensorValue} (low_ucel high_ucel : ℤ)
      → is_error codes.0 ≡ false
      → is_error codes.1 ≡ false
      → LiesAt low t 0 500000
      → LiesAt high t 500000 0
      → LiesOff low_ucel t 0 500000
      → LiesOff high_ucel t 500000 0
      → SetsWindow t codes (
          lower_thresh low
          ∷ upper_thresh high
          ∷ alert_line (quot low_ucel 1000) (quot high_ucel 1000)
          ∷ [])

pub set_thresholds-SetsWindow :
    (codes : ℤ × ℤ) (low high t : ℤ)
    → LiesAt (in_ucel low) t 0 500000
    → LiesAt (in_ucel high) t 500000 0
    → SetsWindow t codes (set_thresholds codes.0 codes.1 low high).1
unfolding set_thresholds
set_thresholds-SetsWindow codes low high t at_low at_high = elim (Bool-cases (is_error codes.0)) [
  | inl e ↦ rw e (lower_fails e at_low)
  | inr e ↦ elim (Bool-cases (is_error codes.1)) [
    | inl e' ↦ rw (e, e') (upper_fails e e' at_low at_high)
    | inr e' ↦
        rw (e, e')
          (sets_both low high e e' at_low at_high (LiesAt-in_ucel low t 0 500000 at_low)
            (LiesAt-in_ucel high t 500000 0 at_high))
  ]
]
