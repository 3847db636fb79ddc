-- ===== src/UartPeripheralB/Moves.antt =====
-- What one stretch of the driver's work does to the queue of messages and to the guard.
pub mod Send
pub mod Transmit
use echo_bot.Prelude.{
  inr, ◌||◌, not, ◌⊎◌, ap₂, ℕ, ◌+◌, ◌-◌, ◌*◌, ◌≤◌, ◌<◌, ◌≡◌, refl, sym, ap, ◌∙◌, subst, inl, Bool,
  true, false, none, some, List, [], ◌∷◌, ◌++◌, map, map-append, append_assoc, append-nil, arith,
  ok, length, All, All-append, length-append, u8, Bool-cases, ◌^◌,
}
use echo_bot.Prelude.Kept.{Kept, nothing, keep, skip, Kept-append}
use native.Mathlib.Decide.{dec_lt}
use echo_bot.Zephyr.ItemRing.{ItemRing, Item}
use echo_bot.UartPeripheralB.{
  Config, UartData, Out, uart_irq_tx_enable, uart_irq_tx_disable, uart_fifo_fill, k_timer_start,
  user_send_data, transmit,
}
use echo_bot.UartPeripheralB.Wires.{tx_on, timer_on, tx_on-append, timer_on-append}
use echo_bot.UartPeripheralB.Cost.{cost, cost-append, used-cost}
use echo_bot.UartPeripheralB.Message.{
  payload, message, GoodItem, IsStack, packed, packed-GoodItem, payload-packed, offered,
  transmit_lem,
}

-- The messages handed to the UART, in order.
abbrev pub fills : List Out → List (List ℕ)
fills [] = []
fills (uart_fifo_fill m ∷ os) = m ∷ fills os
fills (uart_irq_tx_enable ∷ os) = fills os
fills (uart_irq_tx_disable ∷ os) = fills os
fills (k_timer_start ms ∷ os) = fills os

pub fills-append : (os ps : List Out) → fills (os ++ ps) ≡ fills os ++ fills ps
fills-append [] ps = refl
fills-append (uart_fifo_fill m ∷ os) ps = ap (λ l. m ∷ l) (fills-append os ps)
fills-append (uart_irq_tx_enable ∷ os) ps = fills-append os ps
fills-append (uart_irq_tx_disable ∷ os) ps = fills-append os ps
fills-append (k_timer_start ms ∷ os) ps = fills-append os ps

abbrev pub busy : Bool → ℕ
busy true = 1
busy false = 0

-- The sizes can be counted.
pub record IsSized (cfg : Config) (stack : List ℕ) : Type 0 where
  pub stack_ok : IsStack cfg stack
  pub size_fits : cfg.rx_buf_size < 2 ^ 32

-- A line that fits a message, and leaves its spare byte.
abbrev pub Fits : Config → List ℕ → Type 0
Fits cfg line = length line + 5 < cfg.tx_buf_words * 4

module _ (ring : ItemRing) (cfg : Config) where
  open ring use {Rb, items}

  abbrev pub queue : UartData Rb → List (List ℕ)
  queue d = map payload (items d.tx_rb)

  abbrev pub Goods : UartData Rb → Type 0
  Goods d = All (GoodItem cfg) (items d.tx_rb)

  -- Where messages wait, the transmit interrupt is on or the guard is up; and where the guard is up,
  -- the timer runs.
  pub record IsAwake (on timed : Bool) (d : UartData Rb) : Type 0 where
    pub stirs : (items d.tx_rb ≡ []) ⊎ ((on || d.sending_guard) ≡ true)
    pub guarded : (not d.sending_guard || timed) ≡ true

  -- From `d` to `d'`: the messages `asked` were offered, and `releases` answers or expiries seen.
  pub record Moves (d d' : UartData Rb) (outs : List Out) (asked : List (List ℕ)) (releases : ℕ)
      : Type 0 where
    pub goods : Goods d'
    pub same_callback : d'.callback ≡ d.callback
    pub flow : length (fills outs) + busy d.sending_guard ≤ releases + busy d'.sending_guard
    -- A release lowers the guard, and only a message handed to the UART raises it.
    pub lowers : busy d'.sending_guard ≤ busy d.sending_guard - releases + length (fills outs)
    pub accepted : List (List ℕ)
    pub from : Kept accepted asked
    pub sent : fills outs ++ queue d' ≡ queue d ++ accepted
    -- Where all messages have room, none is dropped.
    pub lossless : cost (queue d) + cost asked ≤ ring.capacity → accepted ≡ asked
    pub wakes :
        (on timed : Bool) → IsAwake on timed d → IsAwake (tx_on outs on) (timer_on outs timed) d'

  -- Calls that send nothing.
  pub Moves-quiet :
      {d : UartData Rb} {outs : List Out}
      → fills outs ≡ []
      → Goods d
      → ((on timed : Bool) → IsAwake on timed d → IsAwake (tx_on outs on) (timer_on outs timed) d)
      → Moves d d outs [] 0
  Moves-quiet {d} e g wakes = record {
    goods = g;
    same_callback = refl;
    flow = omega (arith, ap length e);
    lowers = omega arith;
    accepted = [];
    from = nothing;
    sent = ap (λ l. l ++ queue d) e ∙ sym (append-nil (queue d));
    lossless = λ enough. refl;
    wakes = wakes;
  }

  pub Moves-none : {d : UartData Rb} → Goods d → Moves d d [] [] 0
  Moves-none g = Moves-quiet refl g (λ on timed a. a)

  pub Moves-append :
      {d d' d'' : UartData Rb} {os ps : List Out} {asked more : List (List ℕ)} {m n : ℕ}
      → Moves d d' os asked m
      → Moves d' d'' ps more n
      → Moves d d'' (os ++ ps) (asked ++ more) (m + n)
  Moves-append {d} {d'} {d''} {os} {ps} {asked} {more} h k = record {
    goods = k.goods;
    same_callback = k.same_callback ∙ h.same_callback;
    flow = omega (
      arith,
      h.flow,
      k.flow,
      ap length (fills-append os ps),
      length-append (fills os) (fills ps),
    );
    lowers = omega (
      arith,
      h.lowers,
      k.lowers,
      ap length (fills-append os ps),
      length-append (fills os) (fills ps),
    );
    accepted = h.accepted ++ k.accepted;
    from = Kept-append h.from k.from;
    sent =
        ap (λ l. l ++ queue d'') (fills-append os ps)
        ∙ append_assoc (fills os) (fills ps) (queue d'')
        ∙ ap (λ l. fills os ++ l) k.sent
        ∙ sym (append_assoc (fills os) (queue d') k.accepted)
        ∙ ap (λ l. l ++ k.accepted) h.sent
        ∙ append_assoc (queue d) h.accepted k.accepted;
    lossless = λ enough.
        let first = h.lossless (omega (arith, cost-append asked more)) in
        let left =
          sym (cost-append (fills os) (queue d'))
          ∙ ap cost h.sent
          ∙ cost-append (queue d) h.accepted
          ∙ ap (λ l. cost (queue d) + cost l) first in
        ap₂ (λ l m. l ++ m) first (k.lossless (omega (arith, left, cost-append asked more)));
    wakes = λ on timed a.
        rw (tx_on-append os ps on, timer_on-append os ps timed)
          (k.wakes (tx_on os on) (timer_on os timed) (h.wakes on timed a));
  }
