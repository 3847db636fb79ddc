-- ===== src/Mcp9808/Tests.antt =====
-- A thermometer at 25.0625 degrees, and the theorems on it.
use echo_bot.Prelude.{
  false, none, some, Bool, ◌⊎◌, ℕ, ◌+◌, ◌*◌, ◌/◌, ◌%◌, ◌<◌, ◌≡◌, refl, true, List, [], ◌∷◌, arith,
  ok, c_string,
}
use echo_bot.Prelude.Text.{codes}
use echo_bot.Prelude.Int.{ℤ, pos, negsuc, ◌+ℤ◌, ◌-ℤ◌, ◌*ℤ◌}
use echo_bot.Zephyr.I2c.{I2cBus, ByteOrder}
use echo_bot.Mcp9808.{
  SensorValue, ambient_temp, channel_get, temp_reg_from_signed, temp_signed_from_reg,
}
use echo_bot.Mcp9808.Codec.{
  reading, Says, channel_get_lem, temp_reg_from_signed-temp_signed_from_reg,
}
use echo_bot.Mcp9808.App.{Out, not_ready, now_str, decimal}
use echo_bot.Mcp9808.App.Time.{now_str_lem, clock}
use echo_bot.Mcp9808.App.Window.{
  lower_thresh, upper_thresh, alert_line, set_thresholds, set_window, set_window_ucel,
}
use echo_bot.Zephyr.Sensor.{SensorCalls}
use echo_bot.Mcp9808.App.Readings.{Prints}
use echo_bot.Mcp9808.App.Boot.{boot, boot_lem}
use echo_bot.Mcp9808.App.Watch.{failed_with, no_error, thread_with_trigger_lem, SetsUp}
use echo_bot.Mcp9808.App.Trigger.{
  SetupOut, TriggerOut, window_set, trigger_set_failed, trigger_setup, thread_with_trigger, alerts,
  Follows, alerts_lem,
}

-- A device of one register, on a little-endian processor.
abbrev written : ℕ × ℕ → List ℕ → ℤ × (ℕ × ℕ)
written s (reg ∷ hi ∷ lo ∷ []) = (pos 0, (hi, lo))
written s _ = (pos 0, s)

abbrev one_register : I2cBus
one_register = record {
  State = ℕ × ℕ;
  i2c_write_dt = written;
  i2c_write_read_dt = λ s reg. (pos 0, ((s.0 % 256, s.1 % 256), s));
}

abbrev little_endian : ByteOrder
little_endian = record {
  load16 = λ bytes. bytes.0 + bytes.1 * 256;
  sys_be16_to_cpu = λ n. n % 256 * 256 + n / 256;
  sys_put_be16 = λ n. (n / 256 % 256) ∷ (n % 256) ∷ [];
  be16_load = λ hi lo h l. omega arith;
  put_be16 = λ val. refl;
}

-- -0.25 degrees
minus_four : temp_signed_from_reg 0x1FFC ≡ negsuc 3
unfolding temp_signed_from_reg
minus_four = refl

temp_reg_from_signed-temp_signed_from_reg_example :
    temp_signed_from_reg (temp_reg_from_signed (negsuc 3)) ≡ negsuc 3
temp_reg_from_signed-temp_signed_from_reg_example =
    temp_reg_from_signed-temp_signed_from_reg (negsuc 3) (omega arith) (omega arith)

channel_get_lem_example :
    (v : SensorValue) × (channel_get true 0xC191 ambient_temp ≡ ok v) × Says v (reading 0xC191)
channel_get_lem_example = channel_get_lem true 0xC191

now_str_lem_example : c_string (now_str 3723004) ≡ ok (clock 1 2 3 4)
now_str_lem_example = now_str_lem 1 2 3 4 (omega arith) (omega arith) (omega arith) (omega arith)

clock_text : clock 1 2 3 4 ≡ codes "1:02:03.004"
unfolding decimal
clock_text = refl

bytes : (s : ℕ × ℕ) → (s.0 % 256 < 256) × (s.1 % 256 < 256)
bytes s = (omega arith, omega arith)

-- Attributes of a device without the member cannot be set: -ENOSYS.
abbrev refusing : SensorCalls
refusing = record {
  sensor_attr_set = λ member attr. elim member [ none ↦ negsuc 87 | some f ↦ pos 0 ];
  sensor_trigger_set = λ member. elim member [ none ↦ negsuc 87 | some f ↦ pos 0 ];
  attr_set_missing = λ attr. refl;
}

boot_lem_example :
    (setup : List SetupOut) × (outs : List Out) × (boot one_register little_endian true refusing
        false true 3
        (1000 ∷ 3000 ∷ [])
        (0xC1, 0x91)
      ≡ ok (setup, outs))
    × (((◌≡◌ {A = Bool} true false) × (setup ≡ []) × (outs ≡ not_ready ∷ []))
        ⊎ (((◌≡◌ {A = Bool} true true)
              × (setup ≡ [])
              × Prints one_register little_endian true (1000 ∷ 3000 ∷ []) (0xC1, 0x91) outs)
            ⊎ ((◌≡◌ {A = Bool} false true) × (failed_with setup ≡ some (negsuc 87)) × (outs ≡ []))))
boot_lem_example =
    boot_lem one_register little_endian true refusing bytes false true 3 (1000 ∷ 3000 ∷ [])
      (0xC1, 0x91) (omega arith, (omega arith, tt))

-- 25.0625 degrees.
abbrev warm : SensorValue
warm = record { val1 = pos 25; val2 = pos 62500 }

-- The window around 25 degrees, which the thread sets first.
first_window :
    set_window_ucel (pos 0) (pos 0) (pos 25000000)
    ≡ ok (
      pos 0,
      lower_thresh (record { val1 = pos 24; val2 = pos 500000 })
          ∷ upper_thresh (record { val1 = pos 25; val2 = pos 500000 })
          ∷ alert_line (pos 24500) (pos 25500)
          ∷ [],
    )
unfolding set_window_ucel set_window set_thresholds ◌+ℤ◌ ◌-ℤ◌ ◌*ℤ◌
first_window = refl

alerts_lem_example :
    (outs : List TriggerOut) × (s' : ℕ × ℕ) × (alerts one_register little_endian true 0
        ((pos 0, pos 0) ∷ (negsuc 4, pos 0) ∷ [])
        (0xC1, 0x91)
      ≡ ok (outs, s'))
    × Follows one_register little_endian true 0
        ((pos 0, pos 0) ∷ (negsuc 4, pos 0) ∷ [])
        (0xC1, 0x91)
        outs
alerts_lem_example =
    alerts_lem one_register little_endian true bytes ((pos 0, pos 0) ∷ (negsuc 4, pos 0) ∷ []) 0
      (0xC1, 0x91)

-- Where the upper threshold cannot be set, the thread ends before it sets the trigger and reads nothing.
upper_fails :
    thread_with_trigger one_register little_endian true true
      (pos 0)
      (negsuc 4)
      (pos 0)
      (1000 ∷ [])
      (0xC1, 0x91)
    ≡ ok (
      window_set (
            lower_thresh (record { val1 = pos 24; val2 = pos 500000 })
            ∷ upper_thresh (record { val1 = pos 25; val2 = pos 500000 })
            ∷ [])
          ∷ trigger_set_failed (negsuc 4)
          ∷ [],
      [],
    )
unfolding thread_with_trigger trigger_setup set_window_ucel set_window set_thresholds ◌+ℤ◌ ◌-ℤ◌ ◌*ℤ◌
upper_fails = refl

thread_with_trigger_lem_example :
    (setup : List SetupOut) × (outs : List Out) × (thread_with_trigger one_register little_endian
        true true
        (pos 0)
        (negsuc 4)
        (pos 0)
        (1000 ∷ [])
        (0xC1, 0x91)
      ≡ ok (setup, outs))
    × (failed_with setup ≡ some (negsuc 4))
    × SetsUp (pos 0, negsuc 4) (pos 0) setup
    × (((no_error (pos 0 ∷ negsuc 4 ∷ pos 0 ∷ []) ≡ true)
          × Prints one_register little_endian true (1000 ∷ []) (0xC1, 0x91) outs)
        ⊎ ((no_error (pos 0 ∷ negsuc 4 ∷ pos 0 ∷ []) ≡ false) × (outs ≡ [])))
thread_with_trigger_lem_example =
    thread_with_trigger_lem one_register little_endian true bytes true (pos 0) (negsuc 4) (pos 0)
      (1000 ∷ []) (0xC1, 0x91) (omega arith, tt)
