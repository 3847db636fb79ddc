-- ===== src/CdcComposite.antt =====
-- src/main_cdc_acm_composite.c: two serial ports over USB, each of which sends what the other receives.
-- A call of `interrupt_handler` is given what the UART driver answers: one round for each time that
-- `uart_irq_update` and `uart_irq_is_pending` hold.
pub mod Bridge
pub mod Calls
pub mod Passes
pub mod Stream
mod Tests
use echo_bot.Prelude.{
  ℕ, Bool, true, false, Option, none, some, List, [], ◌∷◌, ◌++◌, ◌==◌, if◌then◌else◌, not, ◌&&◌,
  Result, ok, fault, null_pointer, ◌>>=◌, read, copy_in, length,
}
use echo_bot.Prelude.Int.{ℤ}
use echo_bot.Zephyr.Errno.{is_error}
use echo_bot.Zephyr.ByteRing.{ByteRing}

-- RING_BUF_SIZE
abbrev pub ring_buf_size : ℕ
ring_buf_size = 128

-- An index of `peers`, and the device of that peer.
pub data Port : Type 0 where
  port0 port1 : Port

-- `struct serial_peer` without its device; a pointer to a peer is its index.
pub record SerialPeer (Rb : Type 0) : Type 0 where
  pub other : Option Port
  pub rb : Rb

-- `peers`, and the `user_data` that each device hands to `interrupt_handler`.
pub record Peers (Rb : Type 0) : Type 0 where
  pub peer0 : SerialPeer Rb
  pub peer1 : SerialPeer Rb
  pub user_data0 : Option Port
  pub user_data1 : Option Port

pub data Out : Type 0 where
  uart_irq_tx_enable uart_irq_tx_disable : Port → Out
  uart_fifo_fill : Port → List ℕ → ℕ → Out

-- What uart_fifo_read delivers: its bytes, or an error.
pub data Received : Type 0 where
  nothing_ready read_failed : Received
  delivered : List ℕ → Received

-- `uart_irq_rx_ready` and what is read then, `uart_irq_tx_ready`, and how many bytes uart_fifo_fill
-- takes.
pub record Round : Type 0 where
  pub received : Received
  pub tx_ready : Bool
  pub takes : ℕ

module _ {Rb : Type 0} where
  abbrev pub peer : Peers Rb → Port → SerialPeer Rb
  peer ps port0 = ps.peer0
  peer ps port1 = ps.peer1

  abbrev pub user_data : Peers Rb → Port → Option Port
  user_data ps port0 = ps.user_data0
  user_data ps port1 = ps.user_data1

  abbrev pub set_rb : Peers Rb → Port → Rb → Peers Rb
  set_rb ps port0 rb = record ps { peer0 = record ps.peer0 { rb = rb } }
  set_rb ps port1 rb = record ps { peer1 = record ps.peer1 { rb = rb } }

-- A pointer that is followed.
abbrev pub deref : Option Port → Result Port
deref none = fault null_pointer
deref (some p) = ok p

-- What the local `buf` of 64 bytes, `stack` before, holds for the `read` bytes that count.
unfoldable pub fifo_read : List ℕ → Received → Result (List ℕ)
fifo_read stack nothing_ready = ok []
fifo_read stack read_failed = ok []
fifo_read stack (delivered bytes) = do buf ← copy_in stack 0 bytes; read buf (length bytes)

module _ (ring : ByteRing ring_buf_size) where
  open ring use {Rb, ring_buf_get}

  -- The branch for `uart_irq_tx_ready` of the device d, whose `peer` is u.
  unfoldable pub transmit : Peers Rb → Port → Option Port → ℕ → Result (Peers Rb × List Out)
  transmit ps d u takes = do
    p ← deref u
    let (buf, rb) = ring_buf_get (peer ps p).rb 64
    ok (
      set_rb ps p rb,
      if length buf == 0 then uart_irq_tx_disable d ∷ [] else uart_fifo_fill d buf takes ∷ [],
    )

module _ (ring : ByteRing ring_buf_size) (stack : List ℕ) where
  open ring use {Rb, ring_buf_put}

  -- The branch for `uart_irq_rx_ready`, with the `peer` u.
  unfoldable pub receive : Peers Rb → Option Port → Received → Result (Peers Rb × List Out)
  receive ps u nothing_ready = ok (ps, [])
  receive ps u got = do
    p ← deref u
    q ← deref (peer ps p).other
    bytes ← fifo_read stack got
    let (wrote, rb) = ring_buf_put (peer ps q).rb bytes
    ok (set_rb ps q rb, if wrote == 0 then [] else uart_irq_tx_enable p ∷ [])

  unfoldable pub handler_rounds :
      Peers Rb → Port → Option Port → List Round → Result (Peers Rb × List Out)
  handler_rounds ps d u [] = ok (ps, [])
  handler_rounds ps d u (r ∷ rs) = do
    (ps', outs) ← receive ps u r.received
    (ps'', more) ← if r.tx_ready then transmit ring ps' d u r.takes else ok (ps', [])
    (ps3, rest) ← handler_rounds ps'' d u rs
    ok (ps3, outs ++ (more ++ rest))

  -- `interrupt_handler` for the device d, which is handed its `user_data`.
  unfoldable pub interrupt_handler : Peers Rb → Port → List Round → Result (Peers Rb × List Out)
  interrupt_handler ps d rounds = handler_rounds ps d (user_data ps d) rounds

  -- Interrupts of the two devices, in the order in which they come.
  unfoldable pub run : Peers Rb → List (Port × List Round) → Result (Peers Rb × List Out)
  run ps [] = ok (ps, [])
  run ps ((d, rounds) ∷ is) = do
    (ps', outs) ← interrupt_handler ps d rounds
    (ps'', more) ← run ps' is
    ok (ps'', outs ++ more)
