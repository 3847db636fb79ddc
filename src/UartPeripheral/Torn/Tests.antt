-- ===== src/UartPeripheral/Torn/Tests.antt =====
-- A pin that rises inside and outside of settings of the string.
use echo_bot.Prelude.{
  ℕ, ◌≡◌, refl, true, false, List, [], ◌∷◌, arith, ok, ◌>>=◌, until_nul, take, replicate, ◌++◌,
}
use echo_bot.Prelude.Text.{codes, literal}
use echo_bot.UartPeripheral.{Config, UartData, initial_data, user_set_string, transmit_string}
use echo_bot.UartPeripheral.Torn.{
  half_set, set_string_preempted, Event, pin_rises, set_string, step, run,
}
use echo_bot.UartPeripheral.Torn.Sends.{Sends, initial_data-run}

abbrev eight : Config
eight = record { rx_buf_size = 4; max_str_len = 8 }

-- "bye" over "hello": once with only the middle byte copied, once with all of them, and then whole.
abbrev events : List Event
events =
    pin_rises
    ∷ set_string (codes "bye") 3 ((false ∷ true ∷ []) ∷ (true ∷ true ∷ true ∷ []) ∷ [])
    ∷ pin_rises
    ∷ []

-- The third message is the new string with the end of the old one.
torn_messages :
    (run true eight (initial_data eight (codes "hello")) events >>= λ r. ok r.1)
    ≡ ok (literal "hello" ∷ literal "hyllo" ∷ literal "byelo" ∷ literal "bye" ∷ [])
unfolding run step set_string_preempted half_set user_set_string transmit_string
torn_messages = refl

initial_data-run_example :
    (d' : UartData) × (messages : List (List ℕ)) × (run true eight
        (initial_data eight (codes "hello"))
        events
      ≡ ok (d', messages))
    × Sends (until_nul (codes "hello")) (take 8 (codes "hello" ++ replicate 9 0)) events messages
initial_data-run_example =
    initial_data-run true eight (codes "hello") events (omega arith)
      (tt, ((omega arith, omega arith), (tt, tt)))
