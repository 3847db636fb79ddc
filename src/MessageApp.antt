-- ===== src/MessageApp.antt =====
-- src/main_app.c: messages of up to 64 bytes that other code sends to a thread, which prints them.
pub mod Delivery
mod Tests
use echo_bot.Prelude.{
  ℕ, ◌+◌, ◌-◌, Bool, Option, none, some, List, [], ◌∷◌, ◌++◌, ltb, if◌then◌else◌, replicate, Result,
  ok, ◌>>=◌, read, copy_in, c_string,
}
use echo_bot.Zephyr.MsgQueue.{MsgQueue}

abbrev pub msg_body_size : ℕ
msg_body_size = 64

abbrev pub max_msgs : ℕ
max_msgs = 10

-- `struct data_item_with_size_and_type`; `kind` is its `type`.
pub record DataItem : Type 0 where
  pub size : ℕ
  pub kind : ℕ
  pub bytes : List ℕ

-- What `recv_app` prints.
pub record Report : Type 0 where
  pub size : ℕ
  pub kind : ℕ
  pub text : List ℕ

-- `%s` walks the array to a NUL.
unfoldable pub recv_app : List ℕ → ℕ → ℕ → Result Report
recv_app bytes size kind =
    c_string bytes >>= λ text. ok (record { size = size; kind = kind; text = text })

-- A call of `send_app`, on the object `src`, or a turn of the thread.
pub data Event : Type 0 where
  send : (src : List ℕ) → (size kind : ℕ) → Event
  turn : Event

module _ (mq : MsgQueue DataItem max_msgs) where
  open mq use {Queue, put, get}

  unfoldable pub send_app : Queue → List ℕ → ℕ → ℕ → Result Queue
  send_app q src size kind = if ltb msg_body_size size then ok q else (do
    text ← read src size
    bytes ← copy_in (replicate msg_body_size 0) 0 text
    ok (put q (record { size = size; kind = kind; bytes = bytes })))

  -- The loop's body in `thread_app`, on what `k_msgq_get` gives; with no message the thread waits.
  abbrev pub take_message : Queue → Option (DataItem × Queue) → Result (Queue × List Report)
  take_message q none = ok (q, [])
  take_message q (some (rx_buf, q')) =
      recv_app rx_buf.bytes rx_buf.size rx_buf.kind >>= λ r. ok (q', r ∷ [])

  unfoldable pub thread_turn : Queue → Result (Queue × List Report)
  thread_turn q = take_message q (get q)

  unfoldable pub run : Queue → List Event → Result (Queue × List Report)
  run q [] = ok (q, [])
  run q (send src size kind ∷ es) = do q' ← send_app q src size kind; run q' es
  run q (turn ∷ es) = do (q', rs) ← thread_turn q; (q'', more) ← run q' es; ok (q'', rs ++ more)
