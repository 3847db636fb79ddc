-- ===== src/EchoBot/Drain.antt =====
-- The echo bot from its start until every line is printed.
use native.Mathlib.Decide.{dec_lt}
use echo_bot.Prelude.Kept.{Kept}
use echo_bot.Prelude.{
  ℕ, zero, suc, ◌≤◌, ◌≡◌, refl, ap, ◌∙◌, sym, true, false, List, [], ◌∷◌, ◌++◌, map, arith, ok,
  length, replicate, append-nil, inl, inr, ◌⊎◌, ◌<◌, subst,
}
use echo_bot.Prelude.Text.{codes}
use echo_bot.Zephyr.MsgQueue.{MsgQueue}
use echo_bot.EchoBot.{Serial, System, Event, irq, turn, max_msgs, msg_size, thread_echo_bot}
use echo_bot.EchoBot.Lines.{sent}
use echo_bot.EchoBot.Echo.{
  Talk, echo_texts, hear, talk_step, talk, Follows, run-Follows, thread_start,
}
use echo_bot.EchoBot.Lossless.{lines, input}
use echo_bot.EchoBot.Talking.{talk-Heard}

-- Turns of the thread alone.
abbrev pub turns : ℕ → List Event
turns n = replicate n turn

input-turns : (es : List Event) (n : ℕ) → input (es ++ turns n) ≡ input es
input-turns [] zero = refl
input-turns [] (suc n) = input-turns [] n
input-turns (irq true bytes ∷ es) n = ap (λ l. bytes ++ l) (input-turns es n)
input-turns (irq false bytes ∷ es) n = input-turns es n
input-turns (turn ∷ es) n = input-turns es n

talk-append : (es fs : List Event) (t : Talk) → talk t (es ++ fs) ≡ talk (talk t es) fs
unfolding talk
talk-append [] fs t = refl
talk-append (e ∷ es) fs t = talk-append es fs (talk_step t e)

hear_shorter :
    (q : List (List ℕ)) (t : Talk) (n : ℕ)
    → t.queued ≡ q
    → length q ≤ suc n
    → length (hear q t).queued ≤ n
unfolding hear
hear_shorter [] t n e h = omega (arith, ap length e)
hear_shorter (x ∷ xs) t n e h = omega arith

-- As many turns as there are texts empty the queue.
turns_empty : (n : ℕ) (t : Talk) → length t.queued ≤ n → length (talk t (turns n)).queued ≡ 0
unfolding talk talk_step
turns_empty zero t h = omega arith
turns_empty (suc n) t h = turns_empty n (hear t.queued t) (hear_shorter t.queued t n refl h)

eq_nil : (q : List (List ℕ)) → length q ≡ 0 → q ≡ []
eq_nil [] e = refl
eq_nil (x ∷ q) e = absurd (omega arith)

abbrev pub hello : List ℕ
hello = codes "Hello! I'm your echo bot.\r\n" ++ codes "Tell me something and press enter:\r\n"

abbrev pub quiet : Talk
quiet = record { console = record { line = []; queued = [] }; said = hello }

drained : (es : List Event) → (talk quiet (es ++ turns max_msgs)).queued ≡ []
drained es = eq_nil (talk quiet (es ++ turns max_msgs)).queued (
    rw talk-append
      (turns_empty max_msgs (talk quiet es) ((talk-Heard es quiet).bounded (omega arith))))

-- What the description prints when ten turns follow.
record Printed (es : List Event) : Type 0 where
  texts : List (List ℕ)
  said : (talk quiet (es ++ turns max_msgs)).said ≡ hello ++ echo_texts texts
  from : Kept texts (map sent (lines [] (input es)))
  whole : (max_msgs < length (lines [] (input es))) ⊎ (texts ≡ map sent (lines [] (input es)))

talk-Printed : (es : List Event) → Printed es
talk-Printed es =
    let p = talk-Heard (es ++ turns max_msgs) quiet in
    let same = ap (λ cs. map sent (lines [] cs)) (input-turns es max_msgs) in
    let all : p.printed ≡ p.accepted =
      sym (append-nil p.printed) ∙ ap (λ q. p.printed ++ q) (sym (drained es)) ∙ p.order in
    record {
      texts = p.accepted;
      said = p.said ∙ ap (λ ts. hello ++ echo_texts ts) all;
      from = subst (Kept p.accepted) same p.from;
      whole = elim (dec_lt max_msgs (length (lines [] (input es)))) [
        | yes many ↦ inl many
        | no few ↦ inr (
            p.lossless (omega (arith, ap (λ cs. length (lines [] cs)) (input-turns es max_msgs)))
            ∙ same)
      ];
    }

module _ (mq : MsgQueue (List ℕ) max_msgs) where
  open mq use {Queue, messages}

  -- The static variables before the first interrupt.
  pub record IsFresh (s : Serial Queue) : Type 0 where
    pub size : length s.rx_buf ≡ msg_size
    pub start : s.rx_buf_pos ≡ 0
    pub no_messages : messages s.uart_msgq ≡ []

  IsFresh-Follows :
      (s : Serial Queue) → IsFresh s → Follows mq (record { serial = s; out = hello }) quiet
  IsFresh-Follows s f = record {
    tracks = record {
      size = f.size;
      pos = omega (arith, f.start);
      held = rw f.start;
      queue = rw f.no_messages;
    };
    printed = refl;
  }

  -- On a ready device, from fresh variables, let interrupts and turns of the thread come in any
  -- order, then ten turns more. Nothing faults. The bot prints its greeting and for lines that the
  -- bytes spell, in order, "Echo_xxx: ", the line's first 31 bytes up to a NUL, and a line end: for
  -- every line once if there are at most ten, and otherwise for some of them.
  pub thread_echo_bot_lem :
      (s : Serial Queue) (es : List Event)
      → IsFresh s
      → (s' : System Queue) × (texts : List (List ℕ)) × (thread_echo_bot mq true s
            (es ++ turns max_msgs)
          ≡ ok s')
        × (s'.out ≡ hello ++ echo_texts texts)
        × Kept texts (map sent (lines [] (input es)))
        × ((max_msgs < length (lines [] (input es))) ⊎ (texts ≡ map sent (lines [] (input es))))
  thread_echo_bot_lem s es f =
      let (s', e, v) = run-Follows mq (es ++ turns max_msgs) (IsFresh-Follows s f) in
      let p = talk-Printed es in
      (
        s',
        p.texts,
        rw (thread_start mq s (es ++ turns max_msgs)) e,
        v.printed ∙ p.said,
        p.from,
        p.whole,
      )

  -- On a ready device, from fresh variables, whatever the bytes and the order of events, nothing
  -- faults: no byte is written outside `rx_buf`, and no `strlen` leaves a message. What is printed is
  -- what `talk` says, which knows only the lines typed and the lines queued.
  pub thread_echo_bot_safe :
      (s : Serial Queue) (es : List Event)
      → IsFresh s
      → (s' : System Queue) × (thread_echo_bot mq true s es ≡ ok s')
        × (s'.out ≡ (talk quiet es).said)
  thread_echo_bot_safe s es f =
      let (s', e, v) = run-Follows mq es (IsFresh-Follows s f) in
      (s', rw (thread_start mq s es) e, v.printed)
