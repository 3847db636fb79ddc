-- ===== src/UartPeripheralB/Early.antt =====
-- Bytes that come before the application has registered its callback.
pub mod Byte
pub mod Run
use echo_bot.UartPeripheralB.Message.{GoodItem}
use echo_bot.Prelude.{
  ◌==◌, ℕ, ◌+◌, ◌≤◌, ◌<◌, ◌≡◌, refl, sym, ap, ap₂, ◌∙◌, inl, inr, Bool, true, false, none, some,
  List, [], ◌∷◌, ◌++◌, arith, Bool-cases, Result, ok, ◌>>=◌, length, store_ok, sub_size, add_size,
  subst, All, set, if◌then◌else◌,
}
use echo_bot.Zephyr.ItemRing.{ItemRing}
use echo_bot.UartPeripheralB.{
  Config, UartData, Out, Round, is_line_end, cleared, call_if, end_line, rx_byte, rx_bytes,
  handler_round, uart_int_handler, transmit, uart_irq_tx_enable, uart_irq_tx_disable,
}
use echo_bot.UartPeripheralB.App.{app_callback}
use echo_bot.UartPeripheralB.Lines.{
  unfinished, unfinished-append, starts_ok, check_sending_guard_lem, lines_end, lines_full,
  lines_more, round_bytes,
}
use echo_bot.UartPeripheralB.Moves.{fills, fills-append, IsSized}
use echo_bot.UartPeripheralB.Moves.Transmit.{transmit_idle}
use echo_bot.UartPeripheralB.Receive.{held, IsValid}
use echo_bot.UartPeripheralB.Receive.Stored.{
  filled, held-filled, size-filled, count, spare_eq, spare_lt, length-cleared, bounds,
}

-- The bytes of several interrupts.
abbrev pub early_bytes : List (List Round) → List ℕ
early_bytes [] = []
early_bytes (rs ∷ early) = round_bytes rs ++ early_bytes early

module _ (ring : ItemRing) (cfg : Config) (stack : List ℕ) where
  open ring use {Rb}

  -- The data behind these interrupts, and the calls made.
  unfoldable pub before : UartData Rb → List (List Round) → Result (UartData Rb × List Out)
  before d [] = ok (d, [])
  before d (rs ∷ early) = do
    (d', outs) ← uart_int_handler ring cfg stack (app_callback ring cfg stack) d rs
    (d'', more) ← before d' early
    ok (d'', outs ++ more)

module _ (ring : ItemRing) (cfg : Config) (stack : List ℕ) (sized : IsSized cfg stack) where
  open ring use {Rb, items}

  abbrev size : ℕ
  size = cfg.rx_buf_size

  abbrev here : UartData Rb → List ℕ
  here d = held ring cfg stack sized d

  -- No callback, nothing queued, and the guard down.
  pub record IsWaiting (d : UartData Rb) : Type 0 where
    pub filled_to : length d.rx_buf ≡ cfg.rx_buf_size
    pub within : d.rx_data_len < cfg.rx_buf_size
    pub silent : d.callback ≡ none
    pub empty : items d.tx_rb ≡ []
    pub down : d.sending_guard ≡ false

  -- From `d` to `d'` with the bytes `bs`, and nothing sent.
  pub record Waits (d d' : UartData Rb) (outs : List Out) (bs : List ℕ) : Type 0 where
    pub waiting : IsWaiting d'
    pub rest :
        held ring cfg stack sized d' ≡ unfinished cfg.rx_buf_size (held ring cfg stack sized d) bs
    pub quiet : fills outs ≡ []

  pub Waits-none : {d : UartData Rb} → IsWaiting d → Waits d d [] []
  Waits-none v = record { waiting = v; rest = refl; quiet = refl }

  pub Waits-append :
      {d d' d'' : UartData Rb} {os ps : List Out} {bs cs : List ℕ}
      → Waits d d' os bs
      → Waits d' d'' ps cs
      → Waits d d'' (os ++ ps) (bs ++ cs)
  Waits-append {d} {os} {ps} {bs} {cs} h k = record {
    waiting = k.waiting;
    rest =
        k.rest
        ∙ ap (λ l. unfinished size l cs) h.rest
        ∙ sym (unfinished-append size (here d) bs cs);
    quiet = fills-append os ps ∙ ap₂ (λ l m. l ++ m) h.quiet k.quiet;
  }
