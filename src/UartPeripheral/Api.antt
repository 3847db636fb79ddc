-- ===== src/UartPeripheral/Api.antt =====
-- drivers/my_uart_peripheral/api.h: the functions that applications call, which follow a device's
-- table; and the table and the definition of a device at the end of driver.c. The object at `dev` is
-- given and returned as a record.
use echo_bot.Prelude.{ℕ, Bool, not, Option, List, Result, ok, ◌>>=◌}
use echo_bot.Zephyr.Errno.{is_error}
use echo_bot.UartPeripheral.{
  Config, UartData, initial_data, user_set_string, user_set_string_callback,
}
use echo_bot.UartPeripheral.Setup.{SetupCall, Answers, init_my_uart_peripheral}

-- `my_uart_peripheral_set_string_t`
abbrev pub SetString : Type 0
SetString = UartData → List ℕ → ℕ → Result UartData

-- `my_uart_peripheral_set_callback_t`
abbrev pub SetCallback : Type 0
SetCallback = UartData → Option ℕ → ℕ → UartData

-- `struct my_uart_peripheral_api`
pub record Api : Type 0 where
  pub set_string : SetString
  pub set_callback : SetCallback

-- What a `struct device` of Zephyr holds for the driver: its table, its data, and whether its
-- initialisation returned 0.
pub record Device : Type 0 where
  pub api : Api
  pub data_of : UartData
  pub is_ready : Bool

unfoldable pub my_uart_set_string : Device → List ℕ → ℕ → Result Device
my_uart_set_string dev string length = do
  d ← dev.api.set_string dev.data_of string length
  ok (record dev { data_of = d })

unfoldable pub my_uart_set_callback : Device → Option ℕ → ℕ → Device
my_uart_set_callback dev callback user_data = record dev {
  data_of = dev.api.set_callback dev.data_of callback user_data;
}

-- The table of driver.c.
abbrev pub api_of_driver : Bool → Config → Api
api_of_driver asserts cfg = record {
  set_string = user_set_string asserts cfg;
  set_callback = user_set_string_callback;
}

-- `INIT_MY_UART_PERIPHERAL`: an instance with its data, once its initialisation has run.
unfoldable pub define_device :
    Bool → Config → (initial_string : List ℕ) → Answers → Result (Device × List SetupCall)
define_device asserts cfg initial_string a = do
  (ret, calls) ← init_my_uart_peripheral asserts a
  let dev : Device = record {
    api = api_of_driver asserts cfg;
    data_of = initial_data cfg initial_string;
    is_ready = not (is_error ret);
  }
  ok (dev, calls)
