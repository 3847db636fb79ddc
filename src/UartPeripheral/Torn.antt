-- ===== src/UartPeripheral/Torn.antt =====
-- driver.c: `user_set_string` runs in a thread, so the pin may rise while it copies: `transmit_string`
-- then sends what stands in the array at that moment.
pub mod Arrays
pub mod Sends
mod Tests
use echo_bot.Prelude.{
  ℕ, Bool, true, List, [], ◌∷◌, ◌++◌, leb, if◌then◌else◌, Result, ok, assert_failed, ◌>>=◌, ◌>>◌,
  check, copy_in, read,
}
use echo_bot.UartPeripheral.{Config, UartData, user_set_string, transmit_string}
use echo_bot.UartPeripheral.Torn.Arrays.{partly}

-- The data at a moment of the call in which `memcpy` has written these bytes, in whatever order, and
-- the NUL is not yet written.
unfoldable pub half_set : Bool → Config → UartData → List ℕ → ℕ → List Bool → Result UartData
half_set asserts cfg d string len copied = do
  check (if asserts then leb len cfg.max_str_len else true) assert_failed
  src ← read string len
  whole ← copy_in d.str 0 src
  ok (record d { str = partly copied src d.str })

-- The call, with a rising pin at each of these moments: the data behind it, and what was sent.
-- `transmit_string` changes nothing.
unfoldable pub set_string_preempted :
    Bool → Config → UartData → List ℕ → ℕ → List (List Bool) → Result (UartData × List (List ℕ))
set_string_preempted asserts cfg d string len [] = do
  d' ← user_set_string asserts cfg d string len
  ok (d', [])
set_string_preempted asserts cfg d string len (copied ∷ moments) = do
  mid ← half_set asserts cfg d string len copied
  message ← transmit_string mid
  (d', later) ← set_string_preempted asserts cfg d string len moments
  ok (d', message ∷ later)

-- A rising pin outside of a call, and a call.
pub data Event : Type 0 where
  pin_rises : Event
  set_string : List ℕ → ℕ → (moments : List (List Bool)) → Event

unfoldable pub step : Bool → Config → UartData → Event → Result (UartData × List (List ℕ))
step asserts cfg d pin_rises = do message ← transmit_string d; ok (d, message ∷ [])
step asserts cfg d (set_string string len moments) =
    set_string_preempted asserts cfg d string len moments

unfoldable pub run : Bool → Config → UartData → List Event → Result (UartData × List (List ℕ))
run asserts cfg d [] = ok (d, [])
run asserts cfg d (e ∷ es) = do
  (d', messages) ← step asserts cfg d e
  (d'', more) ← run asserts cfg d' es
  ok (d'', messages ++ more)
