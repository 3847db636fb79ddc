-- ===== src/UartPeripheral/Tests.antt =====
-- Runs of the driver and its application, and their theorems at concrete states.
use echo_bot.UartPeripheral.Registering.{set_callback_preempted, set_callback_preempted_lem}
use echo_bot.UartPeripheral.Receive.Split.{split, rest}
use echo_bot.UartPeripheral.App.Reports.{reports_of, tally, spoken_all}
use echo_bot.Prelude.{
  ℕ, ◌≡◌, ◌⊎◌, refl, true, false, Bool, some, List, [], ◌∷◌, ◌++◌, arith, ok, fault, out_of_bounds,
  assert_failed, replicate, until_nul, nuls, Result, ◌>>=◌, null_pointer, ◌≢◌,
}
use echo_bot.Prelude.Text.{codes, literal}
use echo_bot.Prelude.Int.{pos, negsuc}
use echo_bot.UartPeripheral.{
  Config, UartData, initial_data, Call, user_set_string, user_set_string_callback, transmit_string,
  rx_byte, rx_bytes, uart_int_handler,
}
use echo_bot.UartPeripheral.Receive.{uart_int_handler_lem, uart_int_handler_no_buffer}
use echo_bot.UartPeripheral.Receive.Pieces.{held, IsValid, Handled}
use echo_bot.UartPeripheral.Transmit.{user_set_string_too_long}
use echo_bot.UartPeripheral.Setup.{Answers, init_uart, init_gpio, init_my_uart_peripheral}
use echo_bot.UartPeripheral.Setup.Returns.{AllWell, Refused, all_calls, init_my_uart_peripheral_lem}
use echo_bot.UartPeripheral.App.{Counter, take_calls, peripheral_callback, main_my_uart_peripheral}
use echo_bot.UartPeripheral.Api.{define_device, my_uart_set_string, my_uart_set_callback}
use echo_bot.UartPeripheral.Life.{
  before, World, Event, interrupt, pin_rises, set_string, Output, boot, step, run, no_counts,
}
use echo_bot.UartPeripheral.Life.Service.{received, texts_sent, printed, sent}
use echo_bot.UartPeripheral.Life.Early.{joined}
use echo_bot.UartPeripheral.Life.Whole.{boot-run}

-- A small buffer, so that a fragment shows.
abbrev small : Config
small = record { rx_buf_size = 4; max_str_len = 3 }

-- An instance without a string, once the application has set its callback.
abbrev idle : UartData
idle = record (initial_data small []) { string_callback = some 7; user_data = 9 }

idle-IsValid : IsValid small idle
idle-IsValid = record { size = refl; within = omega arith; fits = omega arith; text = tt }

-- "ab" with its NUL, "cdef" that fills the buffer, and a "g" that stays.
abbrev received_bytes : List ℕ
received_bytes = literal "ab" ++ codes "cdefg"

handler-bytes :
    uart_int_handler small idle true received_bytes
    ≡ ok (
      record idle { rx_buf = codes "g" ++ replicate 3 0; rx_data_len = 1 },
      record {
        callback = 7;
        bytes = literal "ab" ++ 0 ∷ [];
        size = 3;
        is_string = true;
        context = 9;
      }
          ∷ record { callback = 7; bytes = codes "cdef"; size = 4; is_string = false; context = 9 }
          ∷ [],
    )
unfolding uart_int_handler rx_bytes rx_byte
handler-bytes = refl

uart_int_handler_lem_example :
    (d' : UartData) × (calls : List Call) × (uart_int_handler small idle true received_bytes
      ≡ ok (d', calls))
    × Handled small 7 idle d' calls received_bytes
uart_int_handler_lem_example = uart_int_handler_lem 7 received_bytes idle-IsValid refl

abbrev none_held : Config
none_held = record { rx_buf_size = 0; max_str_len = 3 }

uart_int_handler_no_buffer_example :
    uart_int_handler none_held (record idle { rx_buf = [] }) true (codes "a") ≡ fault out_of_bounds
uart_int_handler_no_buffer_example =
    uart_int_handler_no_buffer none_held (record idle { rx_buf = [] }) b'a' [] refl refl

transmit-abc :
    user_set_string true small idle (codes "abc") 3 ≡ ok (record idle { str = literal "abc" })
unfolding user_set_string
transmit-abc = refl

user_set_string_too_long_example :
    (user_set_string true small idle (codes "abcd") 4 ≡ fault assert_failed)
    × (user_set_string false small idle (codes "abcd") 4 ≡ fault out_of_bounds)
user_set_string_too_long_example =
    user_set_string_too_long small idle (codes "abcd") 4 refl (omega arith) (omega arith)

abbrev broken_pin : Answers
broken_pin = record {
  uart_is_ready = true;
  port_is_ready = true;
  pin_configure = pos 0;
  interrupt_configure = negsuc 21;
  add_callback = pos 0;
}

init_my_uart_peripheral_lem_example :
    (AllWell broken_pin
      × ((asserts : Bool) → init_my_uart_peripheral asserts broken_pin ≡ ok (pos 0, all_calls)))
    ⊎ Refused broken_pin
init_my_uart_peripheral_lem_example = init_my_uart_peripheral_lem broken_pin

abbrev all_well : Answers
all_well = record {
  uart_is_ready = true;
  port_is_ready = true;
  pin_configure = pos 0;
  interrupt_configure = pos 0;
  add_callback = pos 0;
}

-- A press of the button, bytes with a string and a fragment, a new string, and a press again.
abbrev day : List Event
day =
    pin_rises
    ∷ interrupt true received_bytes
    ∷ set_string (codes "abc") 2
    ∷ interrupt false []
    ∷ pin_rises
    ∷ []

-- A string and a byte that come too early.
abbrev early : List (List ℕ)
early = literal "z" ∷ codes "q" ∷ []

abbrev whole_day : Result (Counter × List (List ℕ))
whole_day = do
  (w, calls) ← boot true small (codes "xy") 7 9 all_well early
  (w', outs) ← run small w day
  ok (w'.tracker, sent outs)

boot-day : whole_day ≡ ok (record { strings = 1; overflows = 1 }, literal "xy" ∷ literal "ab" ∷ [])
unfolding boot before define_device init_my_uart_peripheral init_uart init_gpio
    main_my_uart_peripheral run step uart_int_handler rx_bytes rx_byte take_calls
    peripheral_callback transmit_string my_uart_set_string my_uart_set_callback user_set_string
    user_set_string_callback
boot-day = refl

boot-run_example :
    (w w' : World) × (outs : List Output) × (boot true small (codes "xy") 7 9 all_well early
      ≡ ok (w, []))
    × (run small w day ≡ ok (w', outs))
    × (printed outs ≡ reports_of (split 4 (codes "q") (received day)) no_counts)
    × (w'.tracker ≡ tally (split 4 (codes "q") (received day)) no_counts)
    × (held w'.dev.data_of ≡ rest 4 [] (joined early ++ received day))
    × (spoken_all (printed outs) ++ held w'.dev.data_of ≡ codes "q" ++ received day)
    × (w'.tracker.strings ≡ nuls (received day))
    × (sent outs ≡ texts_sent day (until_nul (codes "xy")))
boot-run_example =
    boot-run true small (codes "xy") 7 9 all_well early day
      (record { uart = refl; port = refl; configured = refl; interrupt = refl; added = refl })
      (omega arith) (omega arith) (omega arith)
      (tt, (tt, ((omega arith, omega arith), (tt, (tt, tt))))) (omega arith)

-- A string that is complete between the stores of the callback and of its user data.
registering_run :
    set_callback_preempted small (initial_data small []) 7 9 no_counts (literal "ab")
    ≡ fault null_pointer
unfolding set_callback_preempted uart_int_handler rx_bytes rx_byte take_calls peripheral_callback
registering_run = refl

fresh-IsValid : IsValid small (initial_data small [])
fresh-IsValid = record { size = refl; within = omega arith; fits = omega arith; text = tt }

set_callback_preempted_lem_example :
    ((split 4 [] (literal "ab") ≡ [])
      × ((d' : UartData) × (set_callback_preempted small
              (initial_data small [])
              7
              9
              no_counts
              (literal "ab")
            ≡ ok (d', no_counts, []))
          × (d'.string_callback ≡ some 7)
          × (d'.user_data ≡ 9)
          × (held d' ≡ rest 4 [] (literal "ab"))))
    ⊎ ((split 4 [] (literal "ab") ≢ [])
        × (set_callback_preempted small (initial_data small []) 7 9 no_counts (literal "ab")
            ≡ fault null_pointer))
set_callback_preempted_lem_example =
    set_callback_preempted_lem 7 9 no_counts (literal "ab") fresh-IsValid refl (omega arith)
