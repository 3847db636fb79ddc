-- ===== src/Zephyr/Sensor.antt =====
-- The sensor API: the table of a driver, and the calls that go through members which a driver may
-- lack.
use echo_bot.Prelude.{ℕ, ◌≡◌, true, Option, none, Result}
use echo_bot.Prelude.Int.{ℤ}
use echo_bot.Zephyr.Errno.{is_error}

-- `struct sensor_driver_api`, as far as it is used. A member is `none` where it is NULL, or the address
-- of a function. `State` is what a transfer changes, `Chan` a channel, `Sample` what a driver keeps of a
-- transfer, and `Value` a `struct sensor_value`.
pub record SensorDriverApi (State Chan Sample Value : Type 0) : Type 0 where
  pub attr_set : Option ℕ
  pub trigger_set : Option ℕ
  pub sample_fetch : State → Chan → Result (ℤ × (Sample × State))
  pub channel_get : Sample → Chan → Result Value

-- `enum sensor_attribute`, as far as it is used.
pub data SensorAttr : Type 0 where
  lower_thresh upper_thresh : SensorAttr

-- What sensor_attr_set and sensor_trigger_set return on a device whose table has this member. Without
-- a member attr_set, an attribute cannot be set.
pub record SensorCalls : Type 0 where
  pub sensor_attr_set : Option ℕ → SensorAttr → ℤ
  pub sensor_trigger_set : Option ℕ → ℤ
  pub attr_set_missing : (attr : SensorAttr) → is_error (sensor_attr_set none attr) ≡ true
