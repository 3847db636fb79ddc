-- ===== src/UartPeripheralB/App.antt =====
-- src/main_my_uart_peripheral_b.c: the application sends back each line that the driver collects.
-- And the whole of driver and application, as interrupts and expiries of the timer drive it.
use echo_bot.Prelude.{ℕ, Bool, some, List, [], ◌∷◌, ◌++◌, if◌then◌else◌, Result, ok, ◌>>=◌}
use echo_bot.Zephyr.ItemRing.{ItemRing}
use echo_bot.UartPeripheralB.{
  Config, UartData, Out, Round, uart_int_handler, sending_guard_timer_expired_function,
}
use echo_bot.UartPeripheralB.Api.{api_b, my_uart_send_data, my_uart_set_callback}

-- What happens to the driver.
pub data Event : Type 0 where
  interrupt : List Round → Event
  timer_expired : Event

module _ (ring : ItemRing) (cfg : Config) (stack : List ℕ) where
  open ring use {Rb}

  unfoldable pub app_send_data : UartData Rb → List ℕ → ℕ → Result (UartData Rb × List Out)
  app_send_data d src len = my_uart_send_data (api_b ring cfg stack) d src len

  -- The address is that of `app_callback` itself.
  unfoldable pub app_callback : ℕ → UartData Rb → List ℕ → ℕ → Result (UartData Rb × List Out)
  unfolding app_send_data
  app_callback f d src len = app_send_data d src len

  unfoldable pub main_my_uart_peripheral_b : Bool → ℕ → UartData Rb → UartData Rb
  main_my_uart_peripheral_b ready app_callback d =
      if ready then my_uart_set_callback (api_b ring cfg stack) d (some app_callback) else d

  unfoldable pub step : UartData Rb → Event → Result (UartData Rb × List Out)
  step d (interrupt rounds) = uart_int_handler ring cfg stack app_callback d rounds
  step d timer_expired = ok (sending_guard_timer_expired_function ring cfg stack d)

  unfoldable pub run : UartData Rb → List Event → Result (UartData Rb × List Out)
  run d [] = ok (d, [])
  run d (e ∷ es) = do (d', outs) ← step d e; (d'', more) ← run d' es; ok (d'', outs ++ more)
