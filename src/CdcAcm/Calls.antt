-- ===== src/CdcAcm/Calls.antt =====
-- What the port's calls of its UART come to: the bytes given to it and whether its transmit interrupt is
-- on; and the bytes that come to the port.
use echo_bot.Prelude.{
  suc_ne, ℕ, zero, suc, ◌≤◌, ◌≡◌, refl, sym, ap, ◌∙◌, Bool, true, false, List, [], ◌∷◌, ◌++◌,
  append-nil, append_assoc, ◌==◌, if◌then◌else◌, length, take,
}
use echo_bot.Zephyr.ByteRing.Awake.{after_put, after_get}
use echo_bot.CdcAcm.{
  Out, uart_irq_tx_enable, uart_irq_tx_disable, uart_fifo_fill, Round, Event, interrupt, send,
  send_interrupted,
}

-- The bytes given to uart_fifo_fill, and those of them that it took.
abbrev pub given : List Out → List ℕ
given [] = []
given (uart_irq_tx_enable ∷ os) = given os
given (uart_irq_tx_disable ∷ os) = given os
given (uart_fifo_fill buf takes ∷ os) = buf ++ given os

pub given-append : (os ps : List Out) → given (os ++ ps) ≡ given os ++ given ps
given-append [] ps = refl
given-append (uart_irq_tx_enable ∷ os) ps = given-append os ps
given-append (uart_irq_tx_disable ∷ os) ps = given-append os ps
given-append (uart_fifo_fill buf takes ∷ os) ps =
    ap (λ t. buf ++ t) (given-append os ps) ∙ sym (append_assoc buf (given os) (given ps))

-- The bytes that come to the port.
abbrev pub round_bytes : List Round → List ℕ
round_bytes [] = []
round_bytes (r ∷ rs) = r.bytes ++ round_bytes rs

abbrev pub event_bytes : List Event → List ℕ
event_bytes [] = []
event_bytes (interrupt rounds ∷ es) = round_bytes rounds ++ event_bytes es
event_bytes (send src len ∷ es) = take len src ++ event_bytes es
event_bytes (send_interrupted src len rounds ∷ es) =
    (take len src ++ round_bytes rounds) ++ event_bytes es

-- `send_cdc_acm` is called on no more bytes than there are.
abbrev pub IsThere : Event → Type 0
IsThere (interrupt rounds) = Unit {0}
IsThere (send src len) = len ≤ length src
IsThere (send_interrupted src len rounds) = len ≤ length src

-- Whether the transmit interrupt is on, after calls made while it was on or off.
abbrev pub tx_on : Bool → List Out → Bool
tx_on on [] = on
tx_on on (uart_irq_tx_enable ∷ os) = tx_on true os
tx_on on (uart_irq_tx_disable ∷ os) = tx_on false os
tx_on on (uart_fifo_fill buf takes ∷ os) = tx_on on os

pub tx_on-append : (on : Bool) (os ps : List Out) → tx_on on (os ++ ps) ≡ tx_on (tx_on on os) ps
tx_on-append on [] ps = refl
tx_on-append on (uart_irq_tx_enable ∷ os) ps = tx_on-append true os ps
tx_on-append on (uart_irq_tx_disable ∷ os) ps = tx_on-append false os ps
tx_on-append on (uart_fifo_fill buf takes ∷ os) ps = tx_on-append on os ps

-- The calls of `send_cdc_acm` and of the transmit branch, from their counts.
abbrev pub enabling : ℕ → List Out
enabling wrote = if wrote == 0 then [] else uart_irq_tx_enable ∷ []

abbrev pub filling : List ℕ → ℕ → List Out
filling buf takes =
    if length buf == 0 then uart_irq_tx_disable ∷ [] else uart_fifo_fill buf takes ∷ []

pub given-enabling : (wrote : ℕ) → given (enabling wrote) ≡ []
given-enabling zero = refl
given-enabling (suc n) = simp (suc_ne n)

pub given-filling : (buf : List ℕ) (takes : ℕ) → given (filling buf takes) ≡ buf
given-filling [] takes = refl
given-filling (c ∷ buf) takes = rw (suc_ne (length buf)) (append-nil (c ∷ buf))

pub tx_on-enabling : (on : Bool) (wrote : ℕ) → tx_on on (enabling wrote) ≡ after_put on wrote
tx_on-enabling on zero = refl
tx_on-enabling on (suc n) = simp (suc_ne n)

pub tx_on-filling :
    (on : Bool) (buf : List ℕ) (takes : ℕ)
    → tx_on on (filling buf takes) ≡ after_get on (length buf)
tx_on-filling on [] takes = refl
tx_on-filling on (c ∷ buf) takes = simp (suc_ne (length buf))
