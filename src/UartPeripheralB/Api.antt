-- ===== src/UartPeripheralB/Api.antt =====
-- drivers/my_uart_peripheral_b/my_uart_peripheral_b_api.h: the functions that applications call,
-- which follow a device's table; and the table and the definition of a device in
-- my_uart_peripheral_b.c. `dev->api` and `dev->data` are arguments.
use echo_bot.Prelude.{ℕ, Bool, not, Option, List, Result, ok, ◌>>=◌}
use echo_bot.Zephyr.Errno.{is_error}
use echo_bot.Zephyr.ItemRing.{ItemRing}
use echo_bot.UartPeripheralB.{
  Config, UartData, initial_data, Out, user_send_data, user_set_callback,
}
use echo_bot.UartPeripheralB.Setup.{SetupCall, Answers, init_my_uart_peripheral_b}

-- `my_uart_peripheral_b_send_data_t`
abbrev pub SendData : Type 0 → Type 0
SendData Rb = UartData Rb → List ℕ → ℕ → Result (UartData Rb × List Out)

-- `my_uart_peripheral_b_set_callback_t`
abbrev pub SetCallback : Type 0 → Type 0
SetCallback Rb = UartData Rb → Option ℕ → UartData Rb

-- `struct my_uart_peripheral_b_api`
pub record Api (Rb : Type 0) : Type 0 where
  pub send_data : SendData Rb
  pub set_callback : SetCallback Rb

module _ {Rb : Type 0} (api : Api Rb) where
  abbrev pub my_uart_send_data : UartData Rb → List ℕ → ℕ → Result (UartData Rb × List Out)
  my_uart_send_data d src length = api.send_data d src length

  abbrev pub my_uart_set_callback : UartData Rb → Option ℕ → UartData Rb
  my_uart_set_callback d callback = api.set_callback d callback

module _ (ring : ItemRing) (cfg : Config) (stack : List ℕ) where
  open ring use {Rb}

  abbrev pub api_b : Api Rb
  api_b = record {
    send_data = user_send_data ring cfg stack;
    set_callback = user_set_callback ring cfg stack;
  }

  -- `INIT_MY_UART_PERIPHERAL_B`: whether the device is ready once its initialisation has run, and its
  -- data, with the ring buffer that the initialisation leaves.
  unfoldable pub define_device : Bool → Rb → Answers → Result (Bool × UartData Rb × List SetupCall)
  define_device asserts empty_ring a = do
    (ret, calls) ← init_my_uart_peripheral_b asserts a
    ok (not (is_error ret), initial_data cfg empty_ring, calls)
