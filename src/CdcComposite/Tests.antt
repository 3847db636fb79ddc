-- ===== src/CdcComposite/Tests.antt =====
-- A run of the two ports, and their theorems at concrete interrupts.
use echo_bot.Prelude.{
  ℕ, ◌≡◌, refl, inr, true, false, ◌&&◌, not, none, List, [], ◌∷◌, ◌++◌, arith, ok, replicate,
}
use echo_bot.Prelude.Int.{pos}
use echo_bot.Prelude.Text.{codes}
use echo_bot.Zephyr.Errno.{is_error}
use echo_bot.Zephyr.ByteRing.{ByteRing}
use echo_bot.Zephyr.ByteRing.Flow.{Flow}
use echo_bot.Zephyr.ByteRing.Awake.{IsAwake}
use echo_bot.Zephyr.Samples.{byte_list}
use echo_bot.Zephyr.LineControl.{any_set}
use echo_bot.CdcComposite.{
  ring_buf_size, Port, port0, port1, Peers, Out, uart_irq_tx_enable, uart_irq_tx_disable,
  uart_fifo_fill, read_failed, nothing_ready, delivered, Round, fifo_read, receive, transmit,
  handler_rounds, interrupt_handler, run, peer,
}
use echo_bot.CdcComposite.Bridge.{
  across, connect, IsBridge, connect-IsBridge, thread_a, receives, all_ready, thread_a_lem,
}
use echo_bot.CdcComposite.Calls.{given, offered, tx_on}
use echo_bot.CdcComposite.Passes.{waiting}
use echo_bot.CdcComposite.Stream.{run-IsBridge, connect_lossless}

abbrev ring : ByteRing ring_buf_size
ring = byte_list ring_buf_size

-- The peers before the thread has connected them.
abbrev peers : Peers (List ℕ)
peers = record {
  peer0 = record { other = none; rb = [] };
  peer1 = record { other = none; rb = [] };
  user_data0 = none;
  user_data1 = none;
}

abbrev stack : List ℕ
stack = replicate 64 170

-- "hi" comes to the first port while the second sends nothing; the second port sends it on, and a read
-- fails; then nothing is left to send.
abbrev interrupts : List (Port × List Round)
interrupts =
    (port0, record { received = delivered (codes "hi"); tx_ready = false; takes = 0 } ∷ [])
    ∷ (
      port1,
      record { received = read_failed; tx_ready = true; takes = 2 }
          ∷ record { received = nothing_ready; tx_ready = true; takes = 0 }
          ∷ [],
    )
    ∷ []

abbrev outs : List Out
outs =
    uart_irq_tx_enable port1 ∷ uart_fifo_fill port1 (codes "hi") 2 ∷ uart_irq_tx_disable port1 ∷ []

run-interrupts : run ring stack (connect ring peers) interrupts ≡ ok (connect ring peers, outs)
unfolding run connect fifo_read receive transmit handler_rounds interrupt_handler
run-interrupts = refl

thread_a_lem_example :
    ((p : Port)
      → receives p (thread_a ring (true ∷ true ∷ []) (pos 0) (0 ∷ 1 ∷ []) (1 ∷ []) peers).1
        ≡ all_ready (true ∷ true ∷ [])
          && (not (is_error (pos 0)) && (any_set (0 ∷ 1 ∷ []) && any_set (1 ∷ []))))
    × ((thread_a ring (true ∷ true ∷ []) (pos 0) (0 ∷ 1 ∷ []) (1 ∷ []) peers).0
        ≡ connect ring peers)
    × IsBridge (connect ring peers)
    × ((p : Port) → (peer (connect ring peers) p).rb ≡ [])
thread_a_lem_example = thread_a_lem ring (true ∷ true ∷ []) (pos 0) (0 ∷ 1 ∷ []) (1 ∷ []) peers

rings_empty : (e : Port) → IsAwake false (waiting ring e (connect ring peers))
unfolding connect
rings_empty port0 = inr refl
rings_empty port1 = inr refl

run-IsBridge_example :
    (ps' : Peers (List ℕ)) × (os : List Out) × (run ring stack (connect ring peers) interrupts
      ≡ ok (ps', os))
    × IsBridge ps'
    × ((e : Port)
        → Flow ring_buf_size
            (waiting ring e (connect ring peers))
            (waiting ring e ps')
            (given e os)
            (offered (across e) interrupts))
    × ((e : Port) → IsAwake (tx_on e false os) (waiting ring e ps'))
run-IsBridge_example =
    run-IsBridge ring stack refl interrupts (connect ring peers) (λ e. false)
      ((omega arith, tt), ((omega arith, (omega arith, tt)), tt)) (connect-IsBridge ring peers)
      rings_empty

connect_lossless_example :
    (ps' : Peers (List ℕ)) × (os : List Out) × (run ring stack (connect ring peers) interrupts
      ≡ ok (ps', os))
    × (given port1 os ++ waiting ring port1 ps' ≡ offered port0 interrupts)
connect_lossless_example =
    connect_lossless ring stack refl interrupts peers port1
      ((omega arith, tt), ((omega arith, (omega arith, tt)), tt)) (omega arith)
