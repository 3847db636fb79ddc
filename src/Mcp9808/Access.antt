-- ===== src/Mcp9808/Access.antt =====
-- The thermometer's registers over the bus.
use echo_bot.Prelude.{
  ℕ, ◌+◌, ◌*◌, ◌/◌, ◌%◌, ◌^◌, ◌<◌, ◌≡◌, refl, ap, ◌∙◌, Bool, true, ok, arith, [], ◌∷◌,
  if◌then◌else◌,
}
use echo_bot.Prelude.Int.{pos}
use echo_bot.Zephyr.I2c.{I2cBus, ByteOrder}
use echo_bot.Mcp9808.{
  reg_temp_amb, SensorValue, ambient_temp, channel_get, reg_read, reg_write_16bit, sample_fetch,
}
use echo_bot.Mcp9808.Codec.{reading, Says, channel_get_lem}

module _ (bus : I2cBus) (order : ByteOrder) where
  open bus use {State, i2c_write_dt, i2c_write_read_dt}

  pub reg_read_ok :
      (s s' : State) (reg hi lo : ℕ)
      → hi < 256
      → lo < 256
      → i2c_write_read_dt s reg ≡ (pos 0, ((hi, lo), s'))
      → reg_read bus order s reg ≡ (pos 0, (hi * 256 + lo, s'))
  unfolding reg_read
  reg_read_ok s s' reg hi lo h l e = rw e (ap (λ v. (pos 0, (v, s'))) (order.be16_load hi lo h l))

  -- On a device that gives back the two bytes last written to a register, a value of 16 bits is read
  -- back as it was written.
  pub reg_write_16bit-reg_read :
      (s s' : State) (reg val : ℕ)
      → val < 2 ^ 16
      → ((hi lo : ℕ)
          → i2c_write_dt s (reg ∷ hi ∷ lo ∷ []) ≡ (pos 0, s')
          → i2c_write_read_dt s' reg ≡ (pos 0, ((hi, lo), s')))
      → i2c_write_dt s (reg ∷ val / 256 % 256 ∷ val % 256 ∷ []) ≡ (pos 0, s')
      → (reg_write_16bit bus order s reg val ≡ (pos 0, s'))
        × (reg_read bus order s' reg ≡ (pos 0, (val, s')))
  unfolding reg_write_16bit
  reg_write_16bit-reg_read s s' reg val small kept written = (
    ap (λ bytes. i2c_write_dt s (reg ∷ bytes)) (order.put_be16 val) ∙ written,
    reg_read_ok s' s' reg (val / 256 % 256) (val % 256) (omega arith) (omega arith)
          (kept (val / 256 % 256) (val % 256) written)
        ∙ ap (λ v. (pos 0, (v, s'))) (omega arith),
  )

  -- When the transfer of the temperature register succeeds, fetching and reading fault on nothing,
  -- and the value is the temperature that the two bytes, high byte first, encode.
  pub sample_fetch-channel_get :
      (asserts : Bool) (s s' : State) (hi lo : ℕ)
      → hi < 256
      → lo < 256
      → i2c_write_read_dt s reg_temp_amb ≡ (pos 0, ((hi, lo), s'))
      → (v : SensorValue) × (sample_fetch bus order asserts s ambient_temp
          ≡ ok (pos 0, (hi * 256 + lo, s')))
        × (channel_get asserts (hi * 256 + lo) ambient_temp ≡ ok v)
        × Says v (reading (hi * 256 + lo))
  unfolding sample_fetch
  sample_fetch-channel_get asserts s s' hi lo h l e =
      let (v, got, says) = channel_get_lem asserts (hi * 256 + lo) in
      (v, rw (assertion, reg_read_ok s s' reg_temp_amb hi lo h l e) refl, got, says)
    where
      assertion : (if asserts then true else true) ≡ true
      assertion = ground arith
