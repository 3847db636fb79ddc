-- ===== src/Mcp9808/App/Readings.antt =====
-- What the thread prints, from the answers of the bus.
use echo_bot.Prelude.{
  ℕ, ◌+◌, ◌*◌, ◌^◌, ◌<◌, ◌≡◌, refl, ap, inl, inr, Bool, Bool-cases, true, false, ok, arith, List,
  [], ◌∷◌, All, if◌then◌else◌,
}
use echo_bot.Prelude.Int.{ℤ, pos}
use echo_bot.Zephyr.Errno.{is_error}
use echo_bot.Zephyr.I2c.{I2cBus, ByteOrder}
use echo_bot.Mcp9808.{reg_temp_amb, SensorValue, reg_read, sample_fetch}
use echo_bot.Mcp9808.Codec.{reading, Says, channel_get_lem}
use echo_bot.Mcp9808.App.{Out, fetch_error, printed, reading_loop, thread_mcp9808}
use echo_bot.Mcp9808.App.Time.{time_text, c_string-now_str}

pub no_error : (rc : ℤ) → is_error rc ≡ false → rc ≡ pos 0
no_error rc h = ground arith

module _ (bus : I2cBus) (order : ByteOrder) (asserts : Bool) where
  open bus use {State, i2c_write_read_dt}

  -- At each uptime a transfer of the temperature register: one that succeeds is a line with the time
  -- and the temperature of its two bytes, and one that fails is a line with its code, the last.
  pub data Prints : List ℕ → State → List Out → Type 0 where
    asleep : {s : State} → Prints [] s []
    broken :
        {now : ℕ} {later : List ℕ} {s s' : State} {rc : ℤ} {raw : ℕ × ℕ}
        → is_error rc ≡ true
        → i2c_write_read_dt s reg_temp_amb ≡ (rc, (raw, s'))
        → Prints (now ∷ later) s (fetch_error rc ∷ [])
    line :
        {now : ℕ} {later : List ℕ} {s s' : State} {hi lo : ℕ} {v : SensorValue} {outs : List Out}
        → i2c_write_read_dt s reg_temp_amb ≡ (pos 0, ((hi, lo), s'))
        → Says v (reading (hi * 256 + lo))
        → Prints later s' outs
        → Prints (now ∷ later) s (printed (time_text now) v ∷ outs)

  module _
      (bytes : (s : State)
        → (((i2c_write_read_dt s reg_temp_amb).1).0.0 < 256)
          × (((i2c_write_read_dt s reg_temp_amb).1).0.1 < 256)) where
    pub reading_loop-Prints :
        (uptimes : List ℕ) (s : State)
        → All (λ now. now < 2 ^ 32) uptimes
        → (outs : List Out) × (reading_loop bus order asserts uptimes s ≡ ok outs)
          × Prints uptimes s outs
    unfolding reading_loop sample_fetch reg_read
    reading_loop-Prints [] s small = ([], refl, asleep)
    reading_loop-Prints (now ∷ later) s small =
        elim (Bool-cases (is_error (i2c_write_read_dt s reg_temp_amb).0)) [
          | inl bad ↦ (_, rw (assertion, bad) refl, broken bad refl)
          | inr good ↦
              let ((hi, lo), s') = (i2c_write_read_dt s reg_temp_amb).1 in
              let (h, l) = bytes s in
              let (outs, e, p) = reading_loop-Prints later s' small.1 in
              let (v, got, says) = channel_get_lem asserts (hi * 256 + lo) in
              (
                printed (time_text now) v ∷ outs,
                rw
                    (
                      assertion,
                      good,
                      order.be16_load hi lo h l,
                      got,
                      c_string-now_str now small.0,
                      e,
                    )
                    refl,
                line {hi = hi} {lo = lo} (ap (λ rc. (rc, ((hi, lo), s'))) (no_error _ good)) says p,
              )
        ]
      where
        assertion : (if asserts then true else true) ≡ true
        assertion = ground arith

    -- With the device ready, on a bus that delivers bytes, with uptimes of 32 bits: the thread faults
    -- on no assertion, no overflow and no text buffer, and prints exactly the lines that the bus's
    -- answers ask for: a line with the time and the temperature for each transfer that succeeds, up
    -- to the first that fails, whose code is the last line.
    pub thread_mcp9808_lem :
        (uptimes : List ℕ) (s : State)
        → All (λ now. now < 2 ^ 32) uptimes
        → (outs : List Out) × (thread_mcp9808 bus order asserts true uptimes s ≡ ok outs)
          × Prints uptimes s outs
    unfolding thread_mcp9808
    thread_mcp9808_lem uptimes s small = reading_loop-Prints uptimes s small
