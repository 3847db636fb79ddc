-- ===== src/CdcAcm.antt =====
-- src/main_cdc_acm.c: a serial port over USB that sends back what it receives, through a ring buffer.
-- A call of `interrupt_handler` is given what the UART driver answers: one round for each time that
-- `uart_irq_update` and `uart_irq_is_pending` hold.
pub mod Calls
pub mod Stream
pub mod Drain
pub mod Echo
pub mod Start
mod Tests
use echo_bot.Prelude.{
  ℕ, Bool, List, [], ◌∷◌, ◌++◌, ◌==◌, if◌then◌else◌, Result, ok, ◌>>=◌, read, length,
}
use echo_bot.Zephyr.ByteRing.{ByteRing}

abbrev pub ring_buf_size : ℕ
ring_buf_size = 256

-- The calls that the code makes of the UART; uart_fifo_fill with its bytes, and how many it took.
pub data Out : Type 0 where
  uart_irq_tx_enable uart_irq_tx_disable : Out
  uart_fifo_fill : List ℕ → ℕ → Out

-- The bytes that are read while `uart_irq_rx_ready` holds, then `uart_irq_tx_ready`, and how many
-- bytes uart_fifo_fill takes.
pub record Round : Type 0 where
  pub bytes : List ℕ
  pub tx_ready : Bool
  pub takes : ℕ

-- What happens to the port: an interrupt, a call of `send_cdc_acm` on the object `src`, or such a call
-- with an interrupt between its ring_buf_put and its uart_irq_tx_enable.
pub data Event : Type 0 where
  interrupt : List Round → Event
  send : (src : List ℕ) → (len : ℕ) → Event
  send_interrupted : (src : List ℕ) → (len : ℕ) → List Round → Event

module _ (ring : ByteRing ring_buf_size) where
  open ring use {Rb, ring_buf_put, ring_buf_get}

  unfoldable pub send_cdc_acm : Rb → List ℕ → ℕ → Result (Rb × List Out)
  send_cdc_acm rb src len = do
    bytes ← read src len
    let (wrote, rb') = ring_buf_put rb bytes
    ok (rb', if wrote == 0 then [] else uart_irq_tx_enable ∷ [])

  unfoldable pub rx_bytes : Rb → List ℕ → Result (Rb × List Out)
  rx_bytes rb [] = ok (rb, [])
  rx_bytes rb (c ∷ cs) = do
    (rb', outs) ← send_cdc_acm rb (c ∷ []) 1
    (rb'', more) ← rx_bytes rb' cs
    ok (rb'', outs ++ more)

  -- The branch for `uart_irq_tx_ready`.
  unfoldable pub transmit : Rb → ℕ → Rb × List Out
  transmit rb takes =
      let (buf, rb') = ring_buf_get rb 16 in
      (rb', if length buf == 0 then uart_irq_tx_disable ∷ [] else uart_fifo_fill buf takes ∷ [])

  unfoldable pub handler_round : Rb → Round → Result (Rb × List Out)
  handler_round rb r = do
    (rb', outs) ← rx_bytes rb r.bytes
    let (rb'', more) = if r.tx_ready then transmit rb' r.takes else (rb', [])
    ok (rb'', outs ++ more)

  unfoldable pub interrupt_handler : Rb → List Round → Result (Rb × List Out)
  interrupt_handler rb [] = ok (rb, [])
  interrupt_handler rb (r ∷ rs) = do
    (rb', outs) ← handler_round rb r
    (rb'', more) ← interrupt_handler rb' rs
    ok (rb'', outs ++ more)

  unfoldable pub step : Rb → Event → Result (Rb × List Out)
  step rb (interrupt rounds) = interrupt_handler rb rounds
  step rb (send src len) = send_cdc_acm rb src len
  step rb (send_interrupted src len rounds) = do
    bytes ← read src len
    let (wrote, rb') = ring_buf_put rb bytes
    (rb'', outs) ← interrupt_handler rb' rounds
    ok (rb'', outs ++ (if wrote == 0 then [] else uart_irq_tx_enable ∷ []))

  unfoldable pub run : Rb → List Event → Result (Rb × List Out)
  run rb [] = ok (rb, [])
  run rb (e ∷ es) = do (rb', outs) ← step rb e; (rb'', more) ← run rb' es; ok (rb'', outs ++ more)
