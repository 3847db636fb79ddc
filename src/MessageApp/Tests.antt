-- ===== src/MessageApp/Tests.antt =====
-- Runs of the thread, and the theorems at concrete messages.
use echo_bot.Prelude.{
  ℕ, zero, suc, ◌≡◌, inl, inr, refl, List, [], ◌∷◌, arith, ok, fault, out_of_bounds, replicate,
  IsText,
}
use echo_bot.Prelude.Text.{codes}
use echo_bot.Zephyr.MsgQueue.{MsgQueue}
use echo_bot.Zephyr.Samples.{list_queue}
use echo_bot.MessageApp.{max_msgs, DataItem, recv_app, Event, send, turn, send_app, run}
use echo_bot.MessageApp.Delivery.{reports, run_delivers, send_app-recv_app_full}

abbrev queue : MsgQueue DataItem max_msgs
queue = list_queue DataItem max_msgs

-- A message, one that is too long, another, and three turns.
abbrev events : List Event
events =
    send (codes "hello") 5 1
    ∷ send (replicate 70 b'x') 70 2
    ∷ send (codes "you\0") 4 3
    ∷ turn
    ∷ turn
    ∷ turn
    ∷ []

two_reports :
    reports [] events
    ≡ record { size = 5; kind = 1; text = codes "hello" }
      ∷ record { size = 4; kind = 3; text = codes "you" }
      ∷ []
two_reports = refl

run_delivers_example : (q' : List DataItem) × (run queue [] events ≡ ok (q', reports [] events))
run_delivers_example = run_delivers queue events [] refl (
  inl (omega arith, omega arith),
  (inr (omega arith), (inl (omega arith, omega arith), (tt, (tt, (tt, tt))))),
)

abbrev full : List ℕ
full = replicate 64 b'x'

IsText-replicate : (n : ℕ) → IsText (replicate n b'x')
IsText-replicate zero = tt
IsText-replicate (suc n) = (omega arith, IsText-replicate n)

send_app-recv_app_full_example :
    (bytes : List ℕ) × (send_app queue [] full 64 7
      ≡ ok (record { size = 64; kind = 7; bytes = bytes } ∷ []))
    × (recv_app bytes 64 7 ≡ fault out_of_bounds)
send_app-recv_app_full_example = send_app-recv_app_full queue [] full 7 refl (IsText-replicate 64)
