-- ===== src/Zephyr/I2c.antt =====
-- An I2C bus, as `struct i2c_dt_spec` names one, and the byte order functions of sys/byteorder.h.
use echo_bot.Prelude.{ℕ, ◌+◌, ◌*◌, ◌/◌, ◌%◌, ◌<◌, ◌≡◌, List, [], ◌∷◌}
use echo_bot.Prelude.Int.{ℤ}

-- A transfer returns 0 or an error code. Reading two bytes also says what the two bytes of memory
-- hold afterwards, error or not.
pub record I2cBus : Type 1 where
  pub State : Type 0
  pub i2c_write_dt : State → List ℕ → ℤ × State
  pub i2c_write_read_dt : State → ℕ → ℤ × ((ℕ × ℕ) × State)

-- `load16` is how the processor reads two bytes of memory as a `uint16_t`; the other two convert
-- from and to big-endian order.
pub record ByteOrder : Type 0 where
  pub load16 : ℕ × ℕ → ℕ
  pub sys_be16_to_cpu : ℕ → ℕ
  pub sys_put_be16 : ℕ → List ℕ
  pub be16_load :
      (hi lo : ℕ) → hi < 256 → lo < 256 → sys_be16_to_cpu (load16 (hi, lo)) ≡ hi * 256 + lo
  pub put_be16 : (val : ℕ) → sys_put_be16 val ≡ (val / 256 % 256) ∷ (val % 256) ∷ []
