-- ===== src/UartPeripheralB/Stuck.antt =====
-- The size of an item in the receive branch is a byte: `my_size` of `uart_int_handler` holds the
-- configured number of words modulo 256, which Kconfig lets go up to 511.
use echo_bot.Prelude.{ℕ, zero, suc, ◌<◌, ◌≡◌, refl, false, List, [], ◌∷◌, ok, u8}
use echo_bot.Zephyr.ItemRing.{ItemRing, Item}
use echo_bot.UartPeripheralB.{
  Config, UartData, Out, uart_irq_tx_enable, uart_irq_tx_disable, rx_bytes, handler_round,
  uart_int_handler, transmit, sending_guard_timer_expired_function,
}
use echo_bot.UartPeripheralB.App.{step, run}
use echo_bot.UartPeripheralB.Moves.{fills}
use echo_bot.UartPeripheralB.Delivery.{reliefs}

module _ (ring : ItemRing) (cfg : Config) (stack : List ℕ) (it : Item) (rest : List Item)
    (large : u8 cfg.tx_buf_words < it.size32) where
  open ring use {Rb, items}

  transmit_too_small :
      (d : UartData Rb)
      → items d.tx_rb ≡ it ∷ rest
      → d.sending_guard ≡ false
      → transmit ring cfg stack d ≡ ok (d, uart_irq_tx_disable ∷ [])
  unfolding transmit
  transmit_too_small d oldest down =
      simp (down, ring.get_too_small d.tx_rb (u8 cfg.tx_buf_words) it rest oldest large)

  -- If the oldest message has more words than the configured number modulo 256, then however often
  -- the guard's timer expires and the transmit interrupt comes, nothing is sent and the queue stays
  -- as it is.
  pub run-reliefs_stuck :
      (n : ℕ) (d : UartData Rb)
      → items d.tx_rb ≡ it ∷ rest
      → (d' : UartData Rb) × (outs : List Out) × (run ring cfg stack d (reliefs n) ≡ ok (d', outs))
        × (fills outs ≡ [])
        × (items d'.tx_rb ≡ it ∷ rest)
  unfolding run step uart_int_handler handler_round rx_bytes sending_guard_timer_expired_function
  run-reliefs_stuck zero d oldest = (d, [], refl, refl, oldest)
  run-reliefs_stuck (suc n) d oldest =
      let free : UartData Rb = record d { sending_guard = false } in
      let (d', outs, e, nothing_sent, same) = run-reliefs_stuck n free oldest in
      (
        d',
        uart_irq_tx_enable ∷ uart_irq_tx_disable ∷ outs,
        rw (transmit_too_small free oldest refl, e),
        nothing_sent,
        same,
      )
