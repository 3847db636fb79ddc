-- ===== src/UartPeripheralB/Setup.antt =====
-- The driver's initialisation, and the device that it leaves.
use echo_bot.Prelude.{
  ◌≡◌, refl, inl, inr, Bool-cases, Bool, true, false, List, [], ◌∷◌, ◌++◌, if◌then◌else◌, not, ◌&&◌,
  Result, ok, fault, assert_failed,
}
use echo_bot.Prelude.Int.{ℤ, pos}
use echo_bot.Zephyr.Errno.{is_error, no_device}

-- The calls that change the UART, the pin, the ring buffer or the timer.
pub data SetupCall : Type 0 where
  uart_irq_callback_user_data_set uart_irq_rx_enable gpio_pin_configure_dt : SetupCall
  ring_buf_item_init k_timer_init k_timer_user_data_set : SetupCall

-- What Zephyr answers.
pub record Answers : Type 0 where
  pub uart_is_ready : Bool
  pub port_is_ready : Bool
  pub pin_configure : ℤ

abbrev uart_calls : List SetupCall
uart_calls = uart_irq_callback_user_data_set ∷ uart_irq_rx_enable ∷ []

abbrev last_calls : List SetupCall
last_calls = ring_buf_item_init ∷ k_timer_init ∷ k_timer_user_data_set ∷ []

unfoldable pub init_uart : ℤ × List SetupCall
init_uart = (pos 0, uart_calls)

unfoldable pub init_gpio : Answers → ℤ × List SetupCall
init_gpio a =
    if is_error a.pin_configure
    then (a.pin_configure, gpio_pin_configure_dt ∷ [])
    else (a.pin_configure, gpio_pin_configure_dt ∷ [])

-- `__ASSERT(false, …); return -ENODEV;`
abbrev pub refuse : Bool → List SetupCall → Result (ℤ × List SetupCall)
refuse asserts calls = if asserts then fault assert_failed else ok (no_device, calls)

unfoldable pub init_my_uart_peripheral_b : Bool → Answers → Result (ℤ × List SetupCall)
unfolding init_uart
init_my_uart_peripheral_b asserts a =
    if not a.uart_is_ready
    then refuse asserts []
    else (let (uart, calls) = init_uart in
        if is_error uart
        then refuse asserts calls
        else if not a.port_is_ready
        then refuse asserts calls
        else (let (gpio, more) = init_gpio a in
            if is_error gpio
            then refuse asserts (calls ++ more)
            else ok (pos 0, calls ++ (more ++ last_calls))))

-- Whether the ring buffer is initialised.
abbrev pub has_queue : List SetupCall → Bool
has_queue [] = false
has_queue (ring_buf_item_init ∷ cs) = true
has_queue (_ ∷ cs) = has_queue cs

-- Whether the timer gets its user data.
abbrev pub sets_user_data : List SetupCall → Bool
sets_user_data [] = false
sets_user_data (k_timer_user_data_set ∷ cs) = true
sets_user_data (_ ∷ cs) = sets_user_data cs

-- Whether the timer is initialised, and gets its user data behind that.
abbrev pub has_timer : List SetupCall → Bool
has_timer [] = false
has_timer (k_timer_init ∷ cs) = sets_user_data cs
has_timer (_ ∷ cs) = has_timer cs

abbrev pub is_well : Answers → Bool
is_well a = a.uart_is_ready && (a.port_is_ready && not (is_error a.pin_configure))

-- Without assertions the initialisation returns: 0 when the UART and the pin's port are ready and
-- the pin can be configured, and -ENODEV otherwise. The queue is initialised exactly when it
-- returns 0, and so are the timer and behind that its user data. With assertions, a device that is not well stops at one, and the others get the same
-- calls.
pub init_my_uart_peripheral_b_lem :
    (a : Answers)
    → (calls : List SetupCall) × (init_my_uart_peripheral_b false a
        ≡ ok (if is_well a then pos 0 else no_device, calls))
      × (has_queue calls ≡ is_well a)
      × (has_timer calls ≡ is_well a)
      × (init_my_uart_peripheral_b true a
          ≡ (if is_well a then ok (pos 0, calls) else fault assert_failed))
unfolding init_my_uart_peripheral_b init_gpio
init_my_uart_peripheral_b_lem a = elim (Bool-cases a.uart_is_ready) [
  | inr u ↦ ([], rw u refl, rw u refl, rw u refl, rw u refl)
  | inl u ↦ elim (Bool-cases a.port_is_ready) [
    | inr p ↦ (uart_calls, rw (u, p) refl, rw (u, p) refl, rw (u, p) refl, rw (u, p) refl)
    | inl p ↦ elim (Bool-cases (is_error a.pin_configure)) [
      | inl e ↦ (
        uart_calls ++ gpio_pin_configure_dt ∷ [],
        simp (u, p, e),
        simp (u, p, e),
        simp (u, p, e),
        simp (u, p, e),
      )
      | inr e ↦ (
        uart_calls ++ gpio_pin_configure_dt ∷ last_calls,
        simp (u, p, e),
        simp (u, p, e),
        simp (u, p, e),
        simp (u, p, e),
      )
    ]
  ]
]
