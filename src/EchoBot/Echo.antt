-- ===== src/EchoBot/Echo.antt =====
-- The whole echo bot: interrupts and turns of the thread in any order, against the lines typed.
use echo_bot.Prelude.{
  ℕ, ◌≡◌, refl, ap, ◌∙◌, true, false, List, [], ◌∷◌, ◌++◌, map, if◌then◌else◌, ok, c_string,
}
use echo_bot.Prelude.Text.{codes}
use echo_bot.Zephyr.MsgQueue.{MsgQueue}
use echo_bot.EchoBot.{
  Serial, System, Event, irq, turn, max_msgs, serial_cb, reply, thread_turn, step, run,
  thread_echo_bot,
}
use echo_bot.EchoBot.Lines.{Console, type_bytes, Tracks, serial_bytes-Tracks}

-- What has been typed and what has been printed.
pub record Talk : Type 0 where
  pub console : Console
  pub open console use *
  pub said : List ℕ

abbrev pub echo_text : List ℕ → List ℕ
echo_text t = codes "Echo_xxx: " ++ (t ++ codes "\r\n")

-- What the thread prints for texts, in order.
abbrev pub echo_texts : List (List ℕ) → List ℕ
echo_texts [] = []
echo_texts (t ∷ ts) = echo_text t ++ echo_texts ts

unfoldable pub hear : List (List ℕ) → Talk → Talk
hear [] t = t
hear (x ∷ xs) t = record {
  console = record { line = t.line; queued = xs };
  said = t.said ++ echo_text x;
}

unfoldable pub talk_step : Talk → Event → Talk
talk_step t (irq updated bytes) =
    if updated then record t { console = type_bytes t.console bytes } else t
talk_step t turn = hear t.queued t

unfoldable pub talk : Talk → List Event → Talk
talk t [] = t
talk t (e ∷ es) = talk (talk_step t e) es

-- A list of messages that hold the texts `x ∷ xs`.
uncons_texts :
    (ms : List (List ℕ)) (x : List ℕ) (xs : List (List ℕ))
    → map c_string ms ≡ map ok (x ∷ xs)
    → (m : List ℕ) × (rest : List (List ℕ)) × (ms ≡ m ∷ rest)
      × (c_string m ≡ ok x)
      × (map c_string rest ≡ map ok xs)
uncons_texts [] x xs h = cc
uncons_texts (m ∷ ms) x xs h = (m, ms, refl, cc, cc)

no_texts : (ms : List (List ℕ)) → map c_string ms ≡ map ok [] → ms ≡ []
no_texts [] h = refl
no_texts (m ∷ ms) h = cc

module _ (mq : MsgQueue (List ℕ) max_msgs) where
  open mq use {Queue, get, messages, get_empty, get_oldest}

  pub record Follows (s : System Queue) (t : Talk) : Type 0 where
    pub tracks : Tracks mq s.serial t.console
    pub printed : s.out ≡ t.said

  reply_lem : (m t : List ℕ) → c_string m ≡ ok t → reply mq m ≡ ok (echo_text t)
  unfolding reply
  reply_lem m t e = rw e

  thread_turn-Follows :
      {s : System Queue} {t : Talk} (queued : List (List ℕ))
      → t.queued ≡ queued
      → Follows s t
      → (s' : System Queue) × (thread_turn mq s ≡ ok s') × Follows s' (hear queued t)
  unfolding thread_turn hear
  thread_turn-Follows {s} {t} [] e f =
      let none_left : messages s.serial.uart_msgq ≡ [] =
        no_texts (messages s.serial.uart_msgq) (f.tracks.queue ∙ ap (map ok) e) in
      rw (get_empty s.serial.uart_msgq none_left, thread_turn) (s, refl, f)
  thread_turn-Follows {s} {t} (x ∷ xs) e f =
      let (m, rest, is_first, text, texts) =
        uncons_texts (messages s.serial.uart_msgq) x xs (f.tracks.queue ∙ ap (map ok) e) in
      let (q, got, left) = get_oldest s.serial.uart_msgq m rest is_first in
      rw (got, thread_turn, reply_lem m x text)
        (
          record { serial = record s.serial { uart_msgq = q }; out = s.out ++ echo_text x },
          refl,
          record {
            tracks = record {
              size = f.tracks.size;
              pos = f.tracks.pos;
              held = f.tracks.held;
              queue = ap (map c_string) left ∙ texts;
            };
            printed = ap (λ l. l ++ echo_text x) f.printed;
          },
        )

  step-Follows :
      (e : Event) {s : System Queue} {t : Talk}
      → Follows s t
      → (s' : System Queue) × (step mq s e ≡ ok s') × Follows s' (talk_step t e)
  unfolding step talk_step serial_cb
  step-Follows (irq true bytes) {s} f =
      let (s', e, v) = serial_bytes-Tracks mq bytes f.tracks in
      rw e (record s { serial = s' }, refl, record { tracks = v; printed = f.printed })
  step-Follows (irq false bytes) {s} f = (s, refl, f)
  step-Follows turn {t} f = thread_turn-Follows t.queued refl f

  -- Whatever the schedule, the program runs without a fault and does what the description does.
  pub run-Follows :
      (es : List Event) {s : System Queue} {t : Talk}
      → Follows s t
      → (s' : System Queue) × (run mq s es ≡ ok s') × Follows s' (talk t es)
  unfolding run talk
  run-Follows [] {s} f = (s, refl, f)
  run-Follows (e ∷ es) f = let (s', eq, f') = step-Follows e f in rw eq (run-Follows es f')

  -- A device that is ready greets first.
  pub thread_start :
      (s : Serial Queue) (es : List Event)
      → thread_echo_bot mq true s es
        ≡ run mq
            (record {
              serial = s;
              out =
                  codes "Hello! I'm your echo bot.\r\n"
                  ++ codes "Tell me something and press enter:\r\n";
            })
            es
  unfolding thread_echo_bot
  thread_start s es = refl
