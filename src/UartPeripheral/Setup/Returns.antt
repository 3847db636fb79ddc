-- ===== src/UartPeripheral/Setup/Returns.antt =====
-- What the initialisation returns, and what it leaves switched on.
use echo_bot.Prelude.{
  ◌≡◌, sym, inl, inr, Bool-cases, ◌⊎◌, Bool, true, false, List, [], ◌∷◌, ◌++◌, arith, ok, fault,
  assert_failed,
}
use echo_bot.Prelude.Int.{pos}
use echo_bot.Zephyr.Errno.{is_error, no_device}
use echo_bot.UartPeripheral.Setup.{
  SetupCall, uart_irq_callback_user_data_set, uart_irq_rx_enable, gpio_pin_configure_dt,
  gpio_pin_interrupt_configure_dt, gpio_init_callback, gpio_add_callback, Answers, init_gpio,
  init_my_uart_peripheral,
}

-- Every call succeeded.
pub record AllWell (a : Answers) : Type 0 where
  pub uart : a.uart_is_ready ≡ true
  pub port : a.port_is_ready ≡ true
  pub configured : a.pin_configure ≡ pos 0
  pub interrupt : a.interrupt_configure ≡ pos 0
  pub added : a.add_callback ≡ pos 0

-- Whether the receive interrupt is on behind these calls.
abbrev pub receives : List SetupCall → Bool
receives [] = false
receives (uart_irq_rx_enable ∷ calls) = true
receives (_ ∷ calls) = receives calls

-- The calls of a run in which all is well.
abbrev pub all_calls : List SetupCall
all_calls =
    uart_irq_callback_user_data_set ∷ uart_irq_rx_enable ∷ gpio_pin_configure_dt
    ∷ gpio_pin_interrupt_configure_dt ∷ gpio_init_callback ∷ gpio_add_callback ∷ []

-- A device that is refused.
pub record Refused (a : Answers) : Type 0 where
  pub unwell : ¬ AllWell a
  pub stops : init_my_uart_peripheral true a ≡ fault assert_failed
  pub calls : List SetupCall
  pub returns : init_my_uart_peripheral false a ≡ ok (no_device, calls)
  pub receiving : receives calls ≡ a.uart_is_ready

gpio_well :
    (a : Answers)
    → is_error (init_gpio a).0 ≡ false
    → (a.pin_configure ≡ pos 0) × (a.interrupt_configure ≡ pos 0) × (a.add_callback ≡ pos 0)
unfolding init_gpio
gpio_well a h = ground arith

gpio_calls :
    (a : Answers)
    → is_error (init_gpio a).0 ≡ false
    → (init_gpio a).1
      ≡ gpio_pin_configure_dt ∷ gpio_pin_interrupt_configure_dt ∷ gpio_init_callback
        ∷ gpio_add_callback ∷ []
unfolding init_gpio
gpio_calls a h = ground arith

gpio_bad : (a : Answers) → is_error (init_gpio a).0 ≡ true → ¬ AllWell a
unfolding init_gpio
gpio_bad a h w = ground arith

module _ (a : Answers) where
  abbrev uart_calls : List SetupCall
  uart_calls = uart_irq_callback_user_data_set ∷ uart_irq_rx_enable ∷ []

  no_uart : a.uart_is_ready ≡ false → Refused a
  unfolding init_my_uart_peripheral
  no_uart u = record {
    unwell = λ w. cc;
    stops = rw u;
    calls = [];
    returns = rw u;
    receiving = sym u;
  }

  no_port : a.uart_is_ready ≡ true → a.port_is_ready ≡ false → Refused a
  unfolding init_my_uart_peripheral
  no_port u p = record {
    unwell = λ w. cc;
    stops = rw (u, p);
    calls = uart_calls;
    returns = rw (u, p);
    receiving = sym u;
  }

  no_gpio :
      a.uart_is_ready ≡ true → a.port_is_ready ≡ true → is_error (init_gpio a).0 ≡ true → Refused a
  unfolding init_my_uart_peripheral init_gpio
  no_gpio u p g = record {
    unwell = gpio_bad a g;
    stops = rw (u, p, g);
    calls = uart_calls ++ (init_gpio a).1;
    returns = rw (u, p, g);
    receiving = sym u;
  }

  all_well :
      a.uart_is_ready ≡ true
      → a.port_is_ready ≡ true
      → is_error (init_gpio a).0 ≡ false
      → AllWell a × ((asserts : Bool) → init_my_uart_peripheral asserts a ≡ ok (pos 0, all_calls))
  unfolding init_my_uart_peripheral init_gpio
  all_well u p g =
      let (configured, interrupt, added) = gpio_well a g in
      (
        record {
          uart = u;
          port = p;
          configured = configured;
          interrupt = interrupt;
          added = added;
        },
        λ asserts. rw (u, p, g, gpio_calls a g),
      )

-- The initialisation returns 0, after all its calls in order, when the UART and the pin's port are
-- ready and the three GPIO calls succeed. In every other case an assertion stops it, or, compiled
-- without assertions, it returns -ENODEV; the receive interrupt is then on if the UART was ready.
pub init_my_uart_peripheral_lem :
    (a : Answers)
    → (AllWell a × ((asserts : Bool) → init_my_uart_peripheral asserts a ≡ ok (pos 0, all_calls)))
      ⊎ Refused a
init_my_uart_peripheral_lem a = elim (Bool-cases a.uart_is_ready) [
  | inr u ↦ inr (no_uart a u)
  | inl u ↦ elim (Bool-cases a.port_is_ready) [
    | inr p ↦ inr (no_port a u p)
    | inl p ↦ elim (Bool-cases (is_error (init_gpio a).0)) [
      | inl g ↦ inr (no_gpio a u p g)
      | inr g ↦ inl (all_well a u p g)
    ]
  ]
]
