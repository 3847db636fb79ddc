-- ===== src/UartPeripheral/Life.antt =====
-- driver.c and main_my_uart_peripheral.c from the start: the device is initialised, the application
-- registers its callback, and then interrupts, presses of the button and calls of
-- `my_uart_set_string` come in any order.
pub mod Service
pub mod Early
pub mod Steps
pub mod Whole
use echo_bot.Prelude.{ℕ, Bool, true, false, List, [], ◌∷◌, ◌++◌, map, Result, ok, ◌>>=◌}
use echo_bot.UartPeripheral.{Config, Call, uart_int_handler, transmit_string}
use echo_bot.UartPeripheral.Setup.{Answers}
use echo_bot.UartPeripheral.Api.{Device, my_uart_set_string, define_device}
use echo_bot.UartPeripheral.App.{Counter, Report, take_calls, main_my_uart_peripheral}

-- The device, and the application's counts with their address.
pub record World : Type 0 where
  pub dev : Device
  pub tracker : Counter
  pub tracker_at : ℕ

-- An interrupt of the UART with the bytes that it delivers, a rising pin, a string to set.
pub data Event : Type 0 where
  interrupt : Bool → List ℕ → Event
  pin_rises : Event
  set_string : List ℕ → ℕ → Event

-- What the application prints, and what goes out on the UART.
pub data Output : Type 0 where
  prints : Report → Output
  sends : List ℕ → Output

abbrev pub no_counts : Counter
no_counts = record { strings = 0; overflows = 0 }

-- Interrupts before the application has registered its callback: the device, and the calls made.
unfoldable pub before : Config → Device → List (List ℕ) → Result (Device × List Call)
before cfg dev [] = ok (dev, [])
before cfg dev (bytes ∷ early) = do
  (d, calls) ← uart_int_handler cfg dev.data_of true bytes
  (dev', more) ← before cfg (record dev { data_of = d }) early
  ok (dev', calls ++ more)

-- The device, bytes that it receives before the application's `main`, and this. `callback` and
-- `tracker` are addresses. The calls are those made before.
unfoldable pub boot :
    Bool
    → Config
    → List ℕ
    → (callback tracker : ℕ) → Answers
    → (early : List (List ℕ)) → Result (World × List Call)
boot asserts cfg initial_string callback tracker a early = do
  (dev, setup) ← define_device asserts cfg initial_string a
  (dev', calls) ← before cfg dev early
  let w : World = record {
    dev = main_my_uart_peripheral callback tracker dev';
    tracker = no_counts;
    tracker_at = tracker;
  }
  ok (w, calls)

unfoldable pub step : Config → World → Event → Result (World × List Output)
step cfg w (interrupt rx_ready bytes) = do
  (d, calls) ← uart_int_handler cfg w.dev.data_of rx_ready bytes
  (c, rs) ← take_calls w.tracker_at w.tracker calls
  ok (record w { dev = record w.dev { data_of = d }; tracker = c }, map prints rs)
step cfg w pin_rises = do text ← transmit_string w.dev.data_of; ok (w, sends text ∷ [])
step cfg w (set_string string len) = do
  dev ← my_uart_set_string w.dev string len
  ok (record w { dev = dev }, [])

unfoldable pub run : Config → World → List Event → Result (World × List Output)
run cfg w [] = ok (w, [])
run cfg w (e ∷ es) = do
  (w', outs) ← step cfg w e
  (w'', more) ← run cfg w' es
  ok (w'', outs ++ more)
