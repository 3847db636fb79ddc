-- ===== src/UartPeripheralB.antt =====
-- drivers/my_uart_peripheral_b/my_uart_peripheral_b.c: a device on a UART that collects lines, and
-- sends messages one at a time: the next goes out when the peer has answered "OK" or five seconds
-- have passed.
-- A call of `uart_int_handler` is given what the UART driver answers: one round for each time that
-- `uart_irq_update` and `uart_irq_is_pending` hold.
pub mod Wires
pub mod Api
pub mod Message
pub mod Cost
pub mod App
pub mod Lines
pub mod Moves
pub mod Receive
pub mod Stream
pub mod Awake
pub mod Early
pub mod Delivery
pub mod Answered
pub mod Stuck
pub mod Overrun
pub mod Setup
mod Tests
use echo_bot.Prelude.{
  ℕ, ◌+◌, ◌*◌, ◌/◌, Bool, true, false, ◌&&◌, ◌||◌, Option, none, some, List, [], ◌∷◌, ◌++◌, ltb,
  ◌==◌, if◌then◌else◌, Result, ok, ◌>>=◌, store, copy_in, read, replicate, length, u8, add_size,
  sub_size,
}
use echo_bot.Prelude.Text.{codes}
use echo_bot.Zephyr.ItemRing.{ItemRing, Item, got, too_small, again}

-- CONFIG_MY_UART_PERIPHERAL_B_RX_BUF_SIZE and CONFIG_MY_UART_PERIPHERAL_B_TX_BUF_WORDS.
pub record Config : Type 0 where
  pub rx_buf_size : ℕ
  pub tx_buf_words : ℕ

-- `struct my_uart_data`, without the timer: its start is an output, and its expiry an event.
pub record UartData (Rb : Type 0) : Type 0 where
  pub rx_buf : List ℕ
  pub rx_data_len : ℕ
  pub callback : Option ℕ
  pub tx_rb : Rb
  pub sending_guard : Bool

-- The data of an instance before the driver is initialised, with the ring buffer of its initialisation.
abbrev pub initial_data : {Rb : Type 0} → Config → Rb → UartData Rb
initial_data cfg rb = record {
  rx_buf = replicate cfg.rx_buf_size 0;
  rx_data_len = 0;
  callback = none;
  tx_rb = rb;
  sending_guard = false;
}

-- The calls that the driver makes of the UART and of the timer.
pub data Out : Type 0 where
  uart_irq_tx_enable uart_irq_tx_disable : Out
  uart_fifo_fill : List ℕ → Out
  k_timer_start : ℕ → Out

-- The bytes that are read while `uart_irq_rx_ready` holds, and then `uart_irq_tx_ready`.
pub record Round : Type 0 where
  pub bytes : List ℕ
  pub tx_ready : Bool

abbrev pub same_bytes : List ℕ → List ℕ → Bool
same_bytes [] [] = true
same_bytes (x ∷ xs) (y ∷ ys) = x == y && same_bytes xs ys
same_bytes _ _ = false

abbrev pub is_line_end : ℕ → Bool
is_line_end c = c == b'\n' || c == b'\r'

unfoldable pub check_sending_guard : List ℕ → ℕ → Result Bool
check_sending_guard line len =
    if ltb len 2 then ok false else (read line 2 >>= λ two. ok (same_bytes two (codes "OK")))

abbrev pub cleared : List ℕ → List ℕ
cleared a = replicate (length a) 0

-- `src` is the object at `data`.
unfoldable pub build_user_send_data : List ℕ → List ℕ → ℕ → Result (List ℕ × ℕ)
build_user_send_data buf src len = do
  headed ← copy_in buf 0 (codes "SEND:")
  text ← read src len
  built ← copy_in headed 5 text
  ok (built, add_size len 5)

-- `stack` is what the local array holds before it is written. ring_buf_item_put answers -EMSGSIZE before
-- it reads the words.
module _ (ring : ItemRing) (cfg : Config) (stack : List ℕ) where
  open ring use {Rb, item_put, item_get, space}

  unfoldable pub user_send_data : UartData Rb → List ℕ → ℕ → Result (UartData Rb × List Out)
  user_send_data d src len = do
    (buf, size) ← build_user_send_data stack src len
    let size32 = u8 (size / 4 + 1)
    let value = u8 (sub_size (size32 * 4) size)
    if ltb size32 (space d.tx_rb)
        then (do
          words ← read buf (size32 * 4)
          elim (item_put d.tx_rb
              (record { kind = 0; value = value; size32 = size32; bytes = words })) [
                | none ↦ ok (d, [])
                | some rb ↦ ok (record d { tx_rb = rb }, uart_irq_tx_enable ∷ [])
              ])
        else ok (d, [])

  unfoldable pub user_set_callback : UartData Rb → Option ℕ → UartData Rb
  user_set_callback d callback = record d { callback = callback }

  unfoldable pub sending_guard_timer_expired_function : UartData Rb → UartData Rb × List Out
  sending_guard_timer_expired_function d =
      (record d { sending_guard = false }, uart_irq_tx_enable ∷ [])

  -- The branch of `uart_int_handler` for `uart_irq_tx_ready`.
  unfoldable pub transmit : UartData Rb → Result (UartData Rb × List Out)
  transmit d =
      if d.sending_guard
      then ok (d, uart_irq_tx_disable ∷ [])
      else elim (item_get d.tx_rb (u8 cfg.tx_buf_words)) [
        | too_small words ↦ ok (d, uart_irq_tx_disable ∷ [])
        | again ↦ ok (d, uart_irq_tx_disable ∷ [])
        | got it rb ↦ do
          my_data ← copy_in stack 0 it.bytes
          sent ← read my_data (sub_size (it.size32 * 4) it.value)
          ok (
            record d { tx_rb = rb; sending_guard = true },
            uart_fifo_fill sent ∷ k_timer_start 5000 ∷ [],
          )
      ]

  -- `invoke` runs the callback at an address, on the array at `data` and a length. It may send.
  module _ (invoke : ℕ → UartData Rb → List ℕ → ℕ → Result (UartData Rb × List Out)) where
    unfoldable pub call_if : Option ℕ → UartData Rb → Result (UartData Rb × List Out)
    call_if none d = ok (d, [])
    call_if (some f) d = invoke f d d.rx_buf d.rx_data_len

    abbrev emptied : UartData Rb → UartData Rb
    emptied d = record d { rx_buf = cleared d.rx_buf; rx_data_len = 0 }

    unfoldable pub end_line : Option ℕ → UartData Rb → Result (UartData Rb × List Out)
    end_line callback d = do
      answered ← check_sending_guard d.rx_buf d.rx_data_len
      let freed = if answered then record d { sending_guard = false } else d
      let enable : List Out = if answered then uart_irq_tx_enable ∷ [] else []
      (d', outs) ← call_if callback freed
      ok (emptied d', enable ++ outs)

    unfoldable pub rx_byte : UartData Rb → ℕ → Result (UartData Rb × List Out)
    rx_byte d c = do
      buf ← store d.rx_buf d.rx_data_len c
      let len = add_size d.rx_data_len 1
      let rx_buf_capacity = sub_size cfg.rx_buf_size len
      let filled = record d { rx_buf = buf; rx_data_len = len }
      if is_line_end c
          then end_line d.callback filled
          else if rx_buf_capacity == 0
          then ok (emptied filled, [])
          else ok (filled, [])

    unfoldable pub rx_bytes : UartData Rb → List ℕ → Result (UartData Rb × List Out)
    rx_bytes d [] = ok (d, [])
    rx_bytes d (c ∷ cs) = do
      (d', outs) ← rx_byte d c
      (d'', more) ← rx_bytes d' cs
      ok (d'', outs ++ more)

    unfoldable pub handler_round : UartData Rb → Round → Result (UartData Rb × List Out)
    handler_round d r = do
      (d', outs) ← rx_bytes d r.bytes
      (d'', more) ← if r.tx_ready then transmit d' else ok (d', [])
      ok (d'', outs ++ more)

    unfoldable pub uart_int_handler : UartData Rb → List Round → Result (UartData Rb × List Out)
    uart_int_handler d [] = ok (d, [])
    uart_int_handler d (r ∷ rs) = do
      (d', outs) ← handler_round d r
      (d'', more) ← uart_int_handler d' rs
      ok (d'', outs ++ more)
