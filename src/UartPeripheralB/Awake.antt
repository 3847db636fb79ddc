-- ===== src/UartPeripheralB/Awake.antt =====
-- The transmit interrupt and the timer beside the driver: no message waits without either of them.
use echo_bot.UartPeripheralB.Lines.{event_bytes, round_bytes}
use echo_bot.UartPeripheralB.Stream.Stretch.{Asks, Asks-first, Asks-later}
use echo_bot.Prelude.{inr, ℕ, ◌≡◌, refl, Bool, false, List, [], ◌∷◌, ◌++◌, Result, ok, ◌>>=◌}
use echo_bot.Zephyr.ItemRing.{ItemRing}
use echo_bot.UartPeripheralB.{Config, UartData, Out, sending_guard_timer_expired_function}
use echo_bot.UartPeripheralB.App.{Event, interrupt, timer_expired, step}
use echo_bot.UartPeripheralB.Wires.{tx_on, timer_on}
use echo_bot.UartPeripheralB.Moves.{IsSized, IsAwake}
use echo_bot.UartPeripheralB.Receive.{IsValid}
use echo_bot.UartPeripheralB.Stream.{uart_int_handler-Served, expiry-Served}

-- Whether the transmit interrupt is enabled, and whether the timer runs.
pub record Wires : Type 0 where
  pub tx_irq : Bool
  pub timer : Bool

-- A timer that has expired runs no more until it is started again.
abbrev pub wires_after : Event → List Out → Wires → Wires
wires_after (interrupt _) outs w = record {
  tx_irq = tx_on outs w.tx_irq;
  timer = timer_on outs w.timer;
}
wires_after timer_expired outs w = record {
  tx_irq = tx_on outs w.tx_irq;
  timer = timer_on outs false;
}

module _ (ring : ItemRing) (cfg : Config) (stack : List ℕ) where
  open ring use {Rb}

  -- `run`, with the wires.
  unfoldable pub watch : UartData Rb → Wires → List Event → Result (UartData Rb × Wires × List Out)
  watch d w [] = ok (d, w, [])
  watch d w (e ∷ es) = do
    (d', outs) ← step ring cfg stack d e
    (d'', w', more) ← watch d' (wires_after e outs w) es
    ok (d'', w', outs ++ more)

  module _ (sized : IsSized cfg stack) where
    step-IsAwake :
        (e : Event) (es : List Event) {d : UartData Rb} (w : Wires)
        → IsValid ring cfg stack sized d
        → Asks ring cfg stack sized d (event_bytes (e ∷ es))
        → IsAwake ring cfg w.tx_irq w.timer d
        → (d' : UartData Rb) × (outs : List Out) × (step ring cfg stack d e ≡ ok (d', outs))
          × IsValid ring cfg stack sized d'
          × Asks ring cfg stack sized d' (event_bytes es)
          × IsAwake ring cfg (wires_after e outs w).tx_irq (wires_after e outs w).timer d'
    unfolding step sending_guard_timer_expired_function
    step-IsAwake (interrupt rs) es {d} w v asked a =
        let first = Asks-first ring cfg stack sized d (round_bytes rs) (event_bytes es) asked in
        let (d', outs, e, h) = uart_int_handler-Served ring cfg stack sized rs v first in
        let later =
          Asks-later ring cfg stack sized d d' (round_bytes rs) (event_bytes es) h.rest asked in
        (d', outs, e, h.valid, later, h.moves.wakes w.tx_irq w.timer a)
    step-IsAwake timer_expired es w v asked a = (
      _,
      _,
      refl,
      (expiry-Served ring cfg stack sized v).valid,
      asked,
      record { stirs = inr refl; guarded = refl },
    )

    -- From a valid state in which, where messages wait, the transmit interrupt is on or the guard is
    -- up, and where the guard is up, the timer runs: over any course of interrupts and expiries in
    -- which every line received leaves a byte of a message spare, nothing faults, and this still
    -- holds at the end.
    pub watch-IsAwake :
        (es : List Event) {d : UartData Rb} (w : Wires)
        → IsValid ring cfg stack sized d
        → Asks ring cfg stack sized d (event_bytes es)
        → IsAwake ring cfg w.tx_irq w.timer d
        → (d' : UartData Rb) × (w' : Wires) × (outs : List Out) × (watch d w es ≡ ok (d', w', outs))
          × IsValid ring cfg stack sized d'
          × IsAwake ring cfg w'.tx_irq w'.timer d'
    unfolding watch
    watch-IsAwake [] {d} w v asked a = (d, w, [], refl, v, a)
    watch-IsAwake (e ∷ es) w v asked a =
        let (d', outs, run_e, v', asked', a') = step-IsAwake e es w v asked a in
        let (d'', w', more, run_es, v'', a'') =
          watch-IsAwake es (wires_after e outs w) v' asked' a' in
        (d'', w', outs ++ more, rw (run_e, run_es), v'', a'')
