-- ===== src/UartPeripheralB/Wires.antt =====
-- The transmit interrupt and the timer, as the driver's calls leave them.
use echo_bot.Prelude.{◌≡◌, refl, Bool, true, false, List, [], ◌∷◌, ◌++◌}
use echo_bot.UartPeripheralB.{
  Out, uart_irq_tx_enable, uart_irq_tx_disable, uart_fifo_fill, k_timer_start,
}

-- Whether the transmit interrupt is enabled behind these calls.
abbrev pub tx_on : List Out → Bool → Bool
tx_on [] on = on
tx_on (uart_irq_tx_enable ∷ os) on = tx_on os true
tx_on (uart_irq_tx_disable ∷ os) on = tx_on os false
tx_on (uart_fifo_fill _ ∷ os) on = tx_on os on
tx_on (k_timer_start _ ∷ os) on = tx_on os on

-- Whether the timer runs behind these calls.
abbrev pub timer_on : List Out → Bool → Bool
timer_on [] t = t
timer_on (k_timer_start _ ∷ os) t = timer_on os true
timer_on (uart_fifo_fill _ ∷ os) t = timer_on os t
timer_on (uart_irq_tx_enable ∷ os) t = timer_on os t
timer_on (uart_irq_tx_disable ∷ os) t = timer_on os t

pub tx_on-append : (os ps : List Out) (on : Bool) → tx_on (os ++ ps) on ≡ tx_on ps (tx_on os on)
tx_on-append [] ps on = refl
tx_on-append (uart_irq_tx_enable ∷ os) ps on = tx_on-append os ps true
tx_on-append (uart_irq_tx_disable ∷ os) ps on = tx_on-append os ps false
tx_on-append (uart_fifo_fill _ ∷ os) ps on = tx_on-append os ps on
tx_on-append (k_timer_start _ ∷ os) ps on = tx_on-append os ps on

pub timer_on-append :
    (os ps : List Out) (t : Bool) → timer_on (os ++ ps) t ≡ timer_on ps (timer_on os t)
timer_on-append [] ps t = refl
timer_on-append (k_timer_start _ ∷ os) ps t = timer_on-append os ps true
timer_on-append (uart_fifo_fill _ ∷ os) ps t = timer_on-append os ps t
timer_on-append (uart_irq_tx_enable ∷ os) ps t = timer_on-append os ps t
timer_on-append (uart_irq_tx_disable ∷ os) ps t = timer_on-append os ps t
