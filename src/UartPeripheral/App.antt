-- ===== src/UartPeripheral/App.antt =====
-- src/main_my_uart_peripheral.c: the application's callback, which counts strings and overflows.
pub mod Reports
pub mod Counts
pub mod Handler
use echo_bot.Prelude.{
  ℕ, ◌+◌, ◌-◌, ◌^◌, Bool, true, false, Option, some, List, [], ◌∷◌, ltb, if◌then◌else◌, Result, ok,
  fault, int_overflow, ◌>>=◌, c_string, c_string_upto, check, ◌==◌, null_pointer, out_of_bounds,
  ◌>>◌,
}
use echo_bot.Prelude.Int.{inc_int}
use echo_bot.UartPeripheral.{Call}
use echo_bot.UartPeripheral.Api.{Device, my_uart_set_callback}

-- `struct counter`; the counts start at 0 and only grow.
pub record Counter : Type 0 where
  pub strings : ℕ
  pub overflows : ℕ

-- What is printed for a call: the string or the fragment, and the counts.
pub record Report : Type 0 where
  pub is_string : Bool
  pub text : List ℕ
  pub counts : Counter

-- `user_data` as a `struct counter *`, where `tracker` is the one counter.
abbrev pub counter_at : (tracker user_data : ℕ) → Result (Unit {0})
counter_at tracker user_data =
    check (user_data == tracker) (if user_data == 0 then null_pointer else out_of_bounds)

-- `%s` walks to a NUL, `%.*s` to a NUL or the end of the piece. `tracker` is the address of the counter
-- `c`.
unfoldable pub peripheral_callback : (tracker : ℕ) → Counter → Call → Result (Counter × Report)
peripheral_callback tracker c call = elim call.is_string [
  | true ↦ do
    text ← c_string call.bytes
    counter_at tracker call.context
    strings ← inc_int c.strings
    let c' : Counter = record c { strings = strings }
    ok (c', record { is_string = true; text = text; counts = c' })
  | false ↦ do
    text ← c_string_upto call.size call.bytes
    counter_at tracker call.context
    overflows ← inc_int c.overflows
    let c' : Counter = record c { overflows = overflows }
    ok (c', record { is_string = false; text = text; counts = c' })
]

-- The calls of one interrupt, in order.
unfoldable pub take_calls : (tracker : ℕ) → Counter → List Call → Result (Counter × List Report)
take_calls tracker c [] = ok (c, [])
take_calls tracker c (call ∷ calls) = do
  (c', r) ← peripheral_callback tracker c call
  (c'', rs) ← take_calls tracker c' calls
  ok (c'', r ∷ rs)

-- `main_my_uart_peripheral`, with the addresses of the callback and of `tracker`. A device that is
-- not found is not ready.
unfoldable pub main_my_uart_peripheral : (callback tracker : ℕ) → Device → Device
main_my_uart_peripheral callback tracker dev =
    if dev.is_ready then my_uart_set_callback dev (some callback) tracker else dev
