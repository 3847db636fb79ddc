-- ===== src/UartPeripheral/Setup.antt =====
-- The driver's initialisation.
pub mod Returns
use echo_bot.Prelude.{
  Bool, List, [], ◌∷◌, ◌++◌, if◌then◌else◌, not, Result, ok, fault, assert_failed,
}
use echo_bot.Prelude.Int.{ℤ, pos}
use echo_bot.Zephyr.Errno.{is_error, no_device}

-- The calls that change the UART, the pin, or what is called back.
pub data SetupCall : Type 0 where
  uart_irq_callback_user_data_set uart_irq_rx_enable gpio_pin_configure_dt : SetupCall
  gpio_pin_interrupt_configure_dt gpio_init_callback gpio_add_callback : SetupCall

-- What Zephyr answers.
pub record Answers : Type 0 where
  pub uart_is_ready : Bool
  pub port_is_ready : Bool
  pub pin_configure : ℤ
  pub interrupt_configure : ℤ
  pub add_callback : ℤ

unfoldable pub init_uart : ℤ × List SetupCall
init_uart = (pos 0, uart_irq_callback_user_data_set ∷ uart_irq_rx_enable ∷ [])

unfoldable pub init_gpio : Answers → ℤ × List SetupCall
init_gpio a =
    if is_error a.pin_configure
    then (a.pin_configure, gpio_pin_configure_dt ∷ [])
    else if is_error a.interrupt_configure
    then (a.interrupt_configure, gpio_pin_configure_dt ∷ gpio_pin_interrupt_configure_dt ∷ [])
    else (
      a.add_callback,
      gpio_pin_configure_dt ∷ gpio_pin_interrupt_configure_dt ∷ gpio_init_callback
          ∷ gpio_add_callback ∷ [],
    )

-- `__ASSERT(false, …); return -ENODEV;`
abbrev pub refuse : Bool → List SetupCall → Result (ℤ × List SetupCall)
refuse asserts calls = if asserts then fault assert_failed else ok (no_device, calls)

unfoldable pub init_my_uart_peripheral : Bool → Answers → Result (ℤ × List SetupCall)
unfolding init_uart
init_my_uart_peripheral asserts a =
    if not a.uart_is_ready
    then refuse asserts []
    else (let (uart, calls) = init_uart in
        if is_error uart
        then refuse asserts calls
        else if not a.port_is_ready
        then refuse asserts calls
        else (let (gpio, more) = init_gpio a in
            if is_error gpio then refuse asserts (calls ++ more) else ok (pos 0, calls ++ more)))
