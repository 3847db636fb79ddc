-- ===== src/CdcAcm/Tests.antt =====
-- Runs of the port, and its theorems at concrete events.
use echo_bot.CdcAcm.Echo.{run-interrupt_handler}
use echo_bot.Prelude.{
  ℕ, ◌+◌, ◌<◌, ◌≡◌, refl, inr, true, false, ◌&&◌, not, List, [], ◌∷◌, arith, ok, length, map, ◌++◌,
}
use echo_bot.Prelude.Int.{pos}
use echo_bot.Prelude.Text.{codes}
use echo_bot.Zephyr.Errno.{is_error}
use echo_bot.Zephyr.ByteRing.{ByteRing}
use echo_bot.Zephyr.ByteRing.Flow.{Flow}
use echo_bot.Zephyr.ByteRing.Awake.{IsAwake}
use echo_bot.Zephyr.Samples.{byte_list}
use echo_bot.Zephyr.LineControl.{any_set}
use echo_bot.CdcAcm.{
  ring_buf_size, Out, uart_irq_tx_enable, uart_irq_tx_disable, uart_fifo_fill, Event, interrupt,
  send, send_cdc_acm, rx_bytes, transmit, handler_round, interrupt_handler, step, run,
  send_interrupted,
}
use echo_bot.CdcAcm.Calls.{given, event_bytes, tx_on}
use echo_bot.CdcAcm.Stream.{run-Flow}
use echo_bot.CdcAcm.Drain.{idle, taken, transmit_short}
use echo_bot.CdcAcm.Start.{start}
use echo_bot.CdcAcm.Start.Waits.{receives, in_order, start_lem}

abbrev ring : ByteRing ring_buf_size
ring = byte_list ring_buf_size

-- "hi" comes, a call sends "you", and two rounds are free to send.
abbrev events : List Event
events =
    interrupt (record { bytes = codes "hi"; tx_ready = false; takes = 0 } ∷ [])
    ∷ send (codes "you") 3
    ∷ interrupt (idle 5 ∷ idle 0 ∷ [])
    ∷ []

run-events :
    run ring [] events
    ≡ ok (
      [],
      uart_irq_tx_enable
          ∷ uart_irq_tx_enable
          ∷ uart_irq_tx_enable
          ∷ uart_fifo_fill (codes "hiyou") 5
          ∷ uart_irq_tx_disable
          ∷ [],
    )
unfolding run step send_cdc_acm rx_bytes transmit handler_round interrupt_handler
run-events = refl

run-Flow_example :
    (rb' : List ℕ) × (outs : List Out) × (run ring [] events ≡ ok (rb', outs))
    × Flow ring_buf_size [] rb' (given outs) (event_bytes events)
    × IsAwake (tx_on false outs) rb'
run-Flow_example = run-Flow ring events [] false (tt, (omega arith, (tt, tt))) (inr refl)

abbrev waiting : List ℕ
waiting = codes "twenty bytes waiting"

transmit_short_example :
    length (taken (transmit ring waiting 3).1) + length (transmit ring waiting 3).0 < length waiting
transmit_short_example = transmit_short ring waiting 3 (omega arith) (omega arith)

start_lem_example :
    (receives (start true (pos 0) (0 ∷ 1 ∷ []))
      ≡ true && (not (is_error (pos 0)) && any_set (0 ∷ 1 ∷ [])))
    × (in_order false false (start true (pos 0) (0 ∷ 1 ∷ [])) ≡ true)
start_lem_example = start_lem true (pos 0) (0 ∷ 1 ∷ [])

-- The second call is interrupted by what the host sends.
abbrev course : List Event
course =
    send (codes "you") 3
    ∷ send_interrupted (codes "and") 3
        (record { bytes = codes "me"; tx_ready = true; takes = 16 } ∷ [])
    ∷ []

run-interrupt_handler_example :
    (rb rb' : List ℕ) × (outs more : List Out) × (run ring [] course ≡ ok (rb, outs))
    × (interrupt_handler ring rb (map idle (9 ∷ 0 ∷ [])) ≡ ok (rb', more))
    × (given (outs ++ more) ≡ codes "youandme")
    × (rb' ≡ [])
    × (tx_on false (outs ++ more) ≡ false)
run-interrupt_handler_example =
    run-interrupt_handler ring course (9 ∷ []) 0 (omega arith, (omega arith, tt)) (omega arith)
      (omega arith)
