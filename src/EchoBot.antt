-- ===== src/EchoBot.antt =====
-- src/main_echo_bot.c: the echo bot on the console UART. An interrupt collects a line and queues it;
-- a thread prints each queued line back.
-- A call of `serial_cb` is given what the UART driver answers: whether `uart_irq_update` succeeds,
-- and the bytes that `uart_fifo_read` delivers while `uart_irq_rx_ready` holds, one to a call.
pub mod Lines
pub mod Echo
pub mod Lossless
pub mod Talking
pub mod Drain
mod Tests
use echo_bot.Prelude.{
  ℕ, ◌+◌, ◌-◌, Bool, ◌&&◌, ◌||◌, none, some, List, [], ◌∷◌, ◌++◌, ltb, ◌==◌, if◌then◌else◌, Result,
  ok, ◌>>=◌, store, c_string,
}
use echo_bot.Prelude.Text.{literal}
use echo_bot.Zephyr.MsgQueue.{MsgQueue}

abbrev pub msg_size : ℕ
msg_size = 32

-- K_MSGQ_DEFINE(uart_msgq, MSG_SIZE, 10, 4)
abbrev pub max_msgs : ℕ
max_msgs = 10

-- The file's static variables.
pub record Serial (Q : Type 0) : Type 0 where
  pub rx_buf : List ℕ
  pub rx_buf_pos : ℕ
  pub uart_msgq : Q

abbrev pub is_line_end : ℕ → Bool
is_line_end c = c == b'\n' || c == b'\r'

-- `print_uart`: the bytes that go to `uart_poll_out`.
abbrev pub print_uart : List ℕ → Result (List ℕ)
print_uart buf = c_string buf

abbrev pub greeting : Result (List ℕ)
greeting = do
  hello ← print_uart (literal "Hello! I'm your echo bot.\r\n")
  tell ← print_uart (literal "Tell me something and press enter:\r\n")
  ok (hello ++ tell)

-- What happens, as the schedule orders it: an interrupt, or a turn of the thread's loop.
pub data Event : Type 0 where
  irq : (updated : Bool) → (bytes : List ℕ) → Event
  turn : Event

-- The static variables, and what the thread has printed.
pub record System (Q : Type 0) : Type 0 where
  pub serial : Serial Q
  pub out : List ℕ

module _ (mq : MsgQueue (List ℕ) max_msgs) where
  open mq use {Queue, put, get}

  -- The branches of the loop's body in `serial_cb`.
  end_line : Serial Queue → Result (Serial Queue)
  end_line s = do
    buf ← store s.rx_buf s.rx_buf_pos 0
    ok (record { rx_buf = buf; rx_buf_pos = 0; uart_msgq = put s.uart_msgq buf })

  keep_byte : Serial Queue → ℕ → Result (Serial Queue)
  keep_byte s c = do
    buf ← store s.rx_buf s.rx_buf_pos c
    ok (record s { rx_buf = buf; rx_buf_pos = s.rx_buf_pos + 1 })

  pub serial_byte : Serial Queue → ℕ → Result (Serial Queue)
  unfolding end_line keep_byte
  serial_byte s c =
      if is_line_end c && ltb 0 s.rx_buf_pos
      then end_line s
      else if ltb s.rx_buf_pos (msg_size - 1)
      then keep_byte s c
      else ok s

  pub serial_bytes : Serial Queue → List ℕ → Result (Serial Queue)
  serial_bytes s [] = ok s
  serial_bytes s (c ∷ cs) = serial_byte s c >>= λ s'. serial_bytes s' cs

  pub serial_cb : Serial Queue → Bool → List ℕ → Result (Serial Queue)
  serial_cb s updated bytes = if updated then serial_bytes s bytes else ok s

  -- The body of the loop in `thread_echo_bot`.
  pub reply : List ℕ → Result (List ℕ)
  reply tx_buf = do
    echo ← print_uart (literal "Echo_xxx: ")
    text ← print_uart tx_buf
    end ← print_uart (literal "\r\n")
    ok (echo ++ (text ++ end))

  -- One turn of that loop; with no message the thread waits.
  pub thread_turn : System Queue → Result (System Queue)
  thread_turn s = elim (get s.serial.uart_msgq) [
    | none ↦ ok s
    | some (tx_buf, q) ↦ reply tx_buf >>= λ text.
        ok (record { serial = record s.serial { uart_msgq = q }; out = s.out ++ text })
  ]

  pub step : System Queue → Event → Result (System Queue)
  step s (irq updated bytes) =
      serial_cb s.serial updated bytes >>= λ serial. ok (record s { serial = serial })
  step s turn = thread_turn s

  pub run : System Queue → List Event → Result (System Queue)
  run s [] = ok s
  run s (e ∷ es) = step s e >>= λ s'. run s' es

  -- The thread from its start. Interrupts come only after `uart_irq_rx_enable`; one that comes while
  -- the greeting is printed touches no variable of the thread, so its event may stand behind it.
  pub thread_echo_bot : Bool → Serial Queue → List Event → Result (System Queue)
  thread_echo_bot ready s es =
      if ready
      then (greeting >>= λ hello. run (record { serial = s; out = hello }) es)
      else ok (record { serial = s; out = [] })
