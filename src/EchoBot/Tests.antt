-- ===== src/EchoBot/Tests.antt =====
-- Runs of the echo bot, and its theorems at concrete schedules.
use echo_bot.Prelude.Kept.{Kept}
use echo_bot.Prelude.{
  ℕ, ◌≡◌, refl, true, false, List, [], ◌∷◌, ◌++◌, map, ok, replicate, ◌<◌, ◌⊎◌, length,
}
use echo_bot.Prelude.Text.{codes}
use echo_bot.Zephyr.Samples.{list_queue}
use echo_bot.EchoBot.{
  Serial, System, Event, irq, turn, max_msgs, serial_byte, serial_bytes, serial_cb, reply,
  thread_turn, step, run, thread_echo_bot,
}
use echo_bot.EchoBot.Lines.{sent}
use echo_bot.EchoBot.Echo.{echo_texts, talk}
use echo_bot.EchoBot.Lossless.{lines, input}
use echo_bot.EchoBot.Drain.{turns, hello, quiet, IsFresh, thread_echo_bot_lem, thread_echo_bot_safe}

abbrev fresh : Serial (List (List ℕ))
fresh = record { rx_buf = replicate 32 0; rx_buf_pos = 0; uart_msgq = [] }

fresh-IsFresh : IsFresh (list_queue (List ℕ) max_msgs) fresh
fresh-IsFresh = record { size = refl; start = refl; no_messages = refl }

-- "hi\r\n", a stray interrupt, then "you\r".
abbrev schedule : List Event
schedule = irq true (codes "hi\r") ∷ turn ∷ irq false (codes "x") ∷ irq true (codes "\nyou\r") ∷ []

-- With CR LF the LF becomes the first byte of the next line.
lines-schedule : lines [] (input schedule) ≡ codes "hi" ∷ codes "\nyou" ∷ []
unfolding lines
lines-schedule = refl

run-schedule :
    thread_echo_bot (list_queue (List ℕ) max_msgs) true fresh (schedule ++ turn ∷ [])
    ≡ ok (record {
      serial = record { rx_buf = codes "\nyou" ++ replicate 28 0; rx_buf_pos = 0; uart_msgq = [] };
      out = hello ++ codes "Echo_xxx: hi\r\nEcho_xxx: \nyou\r\n";
    })
unfolding thread_echo_bot run step thread_turn reply serial_cb serial_bytes serial_byte
run-schedule = refl

thread_echo_bot_lem_example :
    (s' : System (List (List ℕ))) × (texts : List (List ℕ)) × (thread_echo_bot
        (list_queue (List ℕ) max_msgs)
        true
        fresh
        (schedule ++ turns max_msgs)
      ≡ ok s')
    × (s'.out ≡ hello ++ echo_texts texts)
    × Kept texts (map sent (lines [] (input schedule)))
    × ((max_msgs < length (lines [] (input schedule)))
        ⊎ (texts ≡ map sent (lines [] (input schedule))))
thread_echo_bot_lem_example =
    thread_echo_bot_lem (list_queue (List ℕ) max_msgs) fresh schedule fresh-IsFresh

thread_echo_bot_safe_example :
    (s' : System (List (List ℕ))) × (thread_echo_bot
        (list_queue (List ℕ) max_msgs)
        true
        fresh
        schedule
      ≡ ok s')
    × (s'.out ≡ (talk quiet schedule).said)
thread_echo_bot_safe_example =
    thread_echo_bot_safe (list_queue (List ℕ) max_msgs) fresh schedule fresh-IsFresh
