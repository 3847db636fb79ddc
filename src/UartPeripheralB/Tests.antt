-- ===== src/UartPeripheralB/Tests.antt =====
-- Runs of the driver with the application, and the theorems at concrete states.
use echo_bot.Prelude.{
  inl, ◌>>=◌, ℕ, ◌≡◌, refl, true, false, some, List, [], ◌∷◌, ◌++◌, arith, ok, fault, replicate,
  if◌then◌else◌, assert_failed, All,
}
use echo_bot.Prelude.Int.{pos}
use echo_bot.Zephyr.Errno.{no_device}
use echo_bot.UartPeripheralB.Setup.{
  Answers, SetupCall, init_my_uart_peripheral_b, is_well, has_queue, has_timer,
  init_my_uart_peripheral_b_lem,
}
use echo_bot.Prelude.Text.{codes}
use echo_bot.Zephyr.ItemRing.{ItemRing, Item}
use echo_bot.Zephyr.Samples.{list_ring}
use echo_bot.UartPeripheralB.{
  Config, UartData, initial_data, Out, uart_irq_tx_enable, uart_irq_tx_disable, uart_fifo_fill,
  k_timer_start, user_send_data, build_user_send_data, transmit, check_sending_guard, call_if,
  end_line, rx_byte, rx_bytes, handler_round, uart_int_handler,
  sending_guard_timer_expired_function, Round,
}
use echo_bot.UartPeripheralB.Message.{IsStack}
use echo_bot.UartPeripheralB.App.{Event, interrupt, timer_expired, app_callback, step, run}
use echo_bot.UartPeripheralB.Lines.{lines, event_bytes, expiries}
use echo_bot.UartPeripheralB.Moves.{fills, IsAwake, IsSized, Fits}
use echo_bot.UartPeripheralB.Receive.{IsValid}
use echo_bot.UartPeripheralB.Stream.{run_lem}
use echo_bot.UartPeripheralB.Stream.Stretch.{Delivers}
use echo_bot.Prelude.Kept.{Kept}
use echo_bot.UartPeripheralB.Awake.{Wires, watch, watch-IsAwake}
use echo_bot.UartPeripheralB.Delivery.{reliefs}
use echo_bot.UartPeripheralB.Stuck.{run-reliefs_stuck}

abbrev ring : ItemRing
ring = list_ring 128

-- The default configuration.
abbrev cfg : Config
cfg = record { rx_buf_size = 64; tx_buf_words = 16 }

abbrev stack : List ℕ
stack = replicate 64 0xaa

stack-IsStack : IsStack cfg stack
stack-IsStack = record { size = refl; countable = omega arith }

sized : IsSized cfg stack
sized = record { stack_ok = stack-IsStack; size_fits = omega arith }

-- An instance, once the application has set its callback.
abbrev idle : UartData (List Item)
idle = record (initial_data cfg []) { callback = some 5 }

idle-IsValid : IsValid ring cfg stack sized idle
idle-IsValid = record { size = refl; within = omega arith; registered = (5, refl); goods = tt }

-- Two lines, an attempt to send the second, the answer, and the second.
abbrev events : List Event
events =
    interrupt (
      record { bytes = codes "ab\nc\n"; tx_ready = true }
      ∷ record { bytes = []; tx_ready = true }
      ∷ [])
    ∷ interrupt (record { bytes = codes "OK\n"; tx_ready = true } ∷ [])
    ∷ timer_expired
    ∷ []

run-events :
    run ring cfg stack idle events
    ≡ ok (
      record idle {
        tx_rb =
            record {
              kind = 0;
              value = 4;
              size32 = 3;
              bytes = codes "SEND:OK\n" ++ replicate 4 0xaa;
            }
            ∷ [];
      },
      uart_irq_tx_enable
          ∷ uart_irq_tx_enable
          ∷ uart_fifo_fill (codes "SEND:ab\n")
          ∷ k_timer_start 5000
          ∷ uart_irq_tx_disable
          ∷ uart_irq_tx_enable
          ∷ uart_irq_tx_enable
          ∷ uart_fifo_fill (codes "SEND:c\n")
          ∷ k_timer_start 5000
          ∷ uart_irq_tx_enable
          ∷ [],
    )
unfolding run step uart_int_handler handler_round rx_bytes rx_byte end_line call_if app_callback
    user_send_data build_user_send_data transmit check_sending_guard
    sending_guard_timer_expired_function
run-events = refl

events-fit : All (Fits cfg) (lines 64 [] (event_bytes events))
events-fit = (omega arith, (omega arith, (omega arith, tt)))

run_lem_example :
    (d' : UartData (List Item)) × (outs : List Out) × (run ring cfg stack idle events
      ≡ ok (d', outs))
    × Delivers ring cfg stack sized idle d' outs (event_bytes events) (expiries events)
run_lem_example = run_lem ring cfg stack sized events idle-IsValid events-fit

-- A line of 59 bytes does not fit.
abbrev long_line : UartData (List Item)
long_line = record idle { rx_buf = replicate 58 b'x' ++ replicate 6 0; rx_data_len = 58 }

abbrev no_port : Answers
no_port = record { uart_is_ready = true; port_is_ready = false; pin_configure = pos 0 }

init_my_uart_peripheral_b_lem_example :
    (calls : List SetupCall) × (init_my_uart_peripheral_b false no_port
      ≡ ok (if is_well no_port then pos 0 else no_device, calls))
    × (has_queue calls ≡ is_well no_port)
    × (has_timer calls ≡ is_well no_port)
    × (init_my_uart_peripheral_b true no_port
        ≡ (if is_well no_port then ok (pos 0, calls) else fault assert_failed))
init_my_uart_peripheral_b_lem_example = init_my_uart_peripheral_b_lem no_port

abbrev all_well : Answers
all_well = record { uart_is_ready = true; port_is_ready = true; pin_configure = pos 0 }

-- A line and two bytes that come too early.
abbrev early : List (List Round)
early = (record { bytes = codes "x\nyz"; tx_ready = true } ∷ []) ∷ []

abbrev quiet : Wires
quiet = record { tx_irq = false; timer = false }

-- One message waits, and the guard is down behind the last expiry: the interrupt is on.
watch-events :
    (watch ring cfg stack idle quiet events >>= λ r. ok r.1)
    ≡ ok (record { tx_irq = true; timer = false })
unfolding watch step uart_int_handler handler_round rx_bytes rx_byte end_line call_if app_callback
    user_send_data build_user_send_data transmit check_sending_guard
    sending_guard_timer_expired_function
watch-events = refl

idle-IsAwake : IsAwake ring cfg false false idle
idle-IsAwake = record { stirs = inl refl; guarded = refl }

watch-IsAwake_example :
    (d' : UartData (List Item)) × (w' : Wires) × (outs : List Out) × (watch ring cfg stack idle
        quiet events
      ≡ ok (d', w', outs))
    × IsValid ring cfg stack sized d'
    × IsAwake ring cfg w'.tx_irq w'.timer d'
watch-IsAwake_example =
    watch-IsAwake ring cfg stack sized events quiet idle-IsValid events-fit idle-IsAwake

-- 256 words are none in a byte.
abbrev wrapping : Config
wrapping = record { rx_buf_size = 64; tx_buf_words = 256 }

abbrev one_item : Item
one_item = record { kind = 0; value = 2; size32 = 2; bytes = codes "SEND:x" ++ 0 ∷ 0 ∷ [] }

run-reliefs_stuck_example :
    (d' : UartData (List Item)) × (outs : List Out) × (run ring wrapping
        (replicate 1024 0)
        (record idle { tx_rb = one_item ∷ [] })
        (reliefs 9)
      ≡ ok (d', outs))
    × (fills outs ≡ [])
    × (ring.items d'.tx_rb ≡ one_item ∷ [])
run-reliefs_stuck_example =
    run-reliefs_stuck ring wrapping (replicate 1024 0) one_item [] (omega arith) 9
      (record idle { tx_rb = one_item ∷ [] }) refl
