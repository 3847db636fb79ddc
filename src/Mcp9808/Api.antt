-- ===== src/Mcp9808/Api.antt =====
-- drivers/my_i2c_mcp9808/my_i2c_mcp9808.c: the driver's table, through which the sensor API calls it,
-- and the definition of an instance.
use echo_bot.Prelude.{ℕ, Bool, not, none}
use echo_bot.Zephyr.Errno.{is_error}
use echo_bot.Zephyr.I2c.{I2cBus, ByteOrder}
use echo_bot.Zephyr.Sensor.{SensorDriverApi}
use echo_bot.Mcp9808.{SensorChannel, SensorValue, sample_fetch, channel_get, init}

module _ (bus : I2cBus) (order : ByteOrder) (asserts : Bool) where
  open bus use {State}

  -- The initialiser names two members; the others are NULL.
  abbrev pub api_funcs : SensorDriverApi State SensorChannel ℕ SensorValue
  api_funcs = record {
    attr_set = none;
    trigger_set = none;
    sample_fetch = sample_fetch bus order asserts;
    channel_get = channel_get asserts;
  }

  -- `MY_I2C_MCP9808_DEFINE`: whether the device is ready once its initialisation has run, and the bus.
  unfoldable pub define_device : (bus_is_ready : Bool) (resolution : ℕ) → State → Bool × State
  define_device bus_is_ready resolution s =
      let (rc, s') = init bus order bus_is_ready s resolution in (not (is_error rc), s')
