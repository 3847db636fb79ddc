-- ===== src/Mcp9808.antt =====
-- drivers/my_i2c_mcp9808/my_i2c_mcp9808.c and its header: a thermometer on an I2C bus.
pub mod Codec
pub mod Access
pub mod Api
pub mod App
mod Tests
use echo_bot.Prelude.{
  ℕ, ◌+◌, ◌-◌, ◌*◌, ◌^◌, Bool, true, false, ◌||◌, List, [], ◌∷◌, not, ◌==◌, if◌then◌else◌, Result,
  ok, fault, assert_failed, ◌>>=◌, ◌>>◌, check, u16, u32, bit_and, bit_or, bit_xor,
}
use echo_bot.Prelude.Int.{ℤ, pos, negsuc, ◌-ℤ◌, ◌*ℤ◌, quot, int, unsigned_of, int_of}
use echo_bot.Zephyr.Errno.{is_error, no_device}
use echo_bot.Zephyr.I2c.{I2cBus, ByteOrder}

abbrev pub reg_temp_amb : ℕ
reg_temp_amb = 0x05

abbrev pub reg_resolution : ℕ
reg_resolution = 0x08

abbrev pub temp_scale_cel : ℕ
temp_scale_cel = 16

-- BIT(12)
abbrev pub temp_sign_bit : ℕ
temp_sign_bit = 4096

abbrev pub temp_abs_mask : ℕ
temp_abs_mask = u16 (temp_sign_bit - 1)

unfoldable pub temp_reg_from_signed : ℤ → ℕ
temp_reg_from_signed (pos n) = u16 (bit_and (unsigned_of (pos n)) temp_abs_mask)
temp_reg_from_signed (negsuc n) =
    bit_or (u16 (bit_and (unsigned_of (negsuc n)) temp_abs_mask)) temp_sign_bit

unfoldable pub temp_signed_from_reg : ℕ → ℤ
temp_signed_from_reg reg =
    let rv = bit_and reg temp_abs_mask in
    if not (bit_and reg temp_sign_bit == 0)
    then int_of (u32 (2 ^ 32 - u32 (1 + bit_xor rv temp_abs_mask)))
    else pos rv

-- `enum sensor_channel`, as far as the driver tells its values apart.
pub data SensorChannel : Type 0 where
  ambient_temp all_channels other_channel : SensorChannel

abbrev pub is_ambient : SensorChannel → Bool
is_ambient ambient_temp = true
is_ambient _ = false

abbrev pub is_all : SensorChannel → Bool
is_all all_channels = true
is_all _ = false

-- `struct sensor_value`
pub record SensorValue : Type 0 where
  pub val1 : ℤ
  pub val2 : ℤ

-- `struct my_i2c_mcp9808_data` has the one field `reg_val`.
unfoldable pub channel_get : Bool → ℕ → SensorChannel → Result SensorValue
channel_get asserts reg_val chan = do
  let temp = temp_signed_from_reg reg_val
  check (if asserts then is_ambient chan else true) assert_failed
  let val1 = quot temp temp_scale_cel
  whole ← int (val1 *ℤ pos temp_scale_cel)
  left ← int (temp -ℤ whole)
  scaled ← int (left *ℤ pos 1000000)
  ok (record { val1 = val1; val2 = quot scaled temp_scale_cel })

module _ (bus : I2cBus) (order : ByteOrder) where
  open bus use {State, i2c_write_dt, i2c_write_read_dt}
  open order use {load16, sys_be16_to_cpu, sys_put_be16}

  -- The code, the register's value, and the bus.
  unfoldable pub reg_read : State → ℕ → ℤ × (ℕ × State)
  reg_read s reg =
      let (rc, (raw, s')) = i2c_write_read_dt s reg in
      (rc, ((if is_error rc then load16 raw else sys_be16_to_cpu (load16 raw)), s'))

  unfoldable pub reg_write_16bit : State → ℕ → ℕ → ℤ × State
  reg_write_16bit s reg val = i2c_write_dt s (reg ∷ sys_put_be16 val)

  unfoldable pub reg_write_8bit : State → ℕ → ℕ → ℤ × State
  reg_write_8bit s reg val = i2c_write_dt s (reg ∷ val ∷ [])

  unfoldable pub set_temperature_resolution : State → ℕ → ℤ × State
  set_temperature_resolution s resolution = reg_write_8bit s reg_resolution resolution

  -- The code, `reg_val`, and the bus.
  unfoldable pub sample_fetch : Bool → State → SensorChannel → Result (ℤ × (ℕ × State))
  sample_fetch asserts s chan = do
    check (if asserts then is_all chan || is_ambient chan else true) assert_failed
    ok (reg_read s reg_temp_amb)

  unfoldable pub init : Bool → State → ℕ → ℤ × State
  init bus_is_ready s resolution =
      if not bus_is_ready then (no_device, s) else set_temperature_resolution s resolution
