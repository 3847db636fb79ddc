-- ===== src/CdcComposite/Calls.antt =====
-- What the bridge's calls of a UART come to: the bytes given to it and whether its transmit interrupt
-- is on; and the bytes that come to a device.
use echo_bot.Prelude.{
  ℕ, zero, suc, ◌≤◌, ◌≡◌, refl, sym, ap, ◌∙◌, Bool, true, false, List, [], ◌∷◌, ◌++◌, append-nil,
  append_assoc, ◌==◌, if◌then◌else◌, length, All, suc_ne,
}
use echo_bot.Zephyr.ByteRing.Awake.{after_put, after_get}
use echo_bot.CdcComposite.{
  Port, port0, port1, Out, uart_irq_tx_enable, uart_irq_tx_disable, uart_fifo_fill, Received,
  nothing_ready, read_failed, delivered, Round,
}

-- The first list where the ports are the same, the second where they are not.
abbrev pub at_port {ℓ} : {A : Type ℓ} → Port → Port → A → A → A
at_port port0 port0 here there = here
at_port port0 port1 here there = there
at_port port1 port0 here there = there
at_port port1 port1 here there = here

-- The bytes given to uart_fifo_fill of the device e.
abbrev pub given : Port → List Out → List ℕ
given e [] = []
given e (uart_irq_tx_enable d ∷ os) = given e os
given e (uart_irq_tx_disable d ∷ os) = given e os
given e (uart_fifo_fill d buf takes ∷ os) = at_port e d buf [] ++ given e os

-- Whether the transmit interrupt of the device e is on, after calls made while it was on or off.
abbrev pub tx_on : Port → Bool → List Out → Bool
tx_on e on [] = on
tx_on e on (uart_irq_tx_enable d ∷ os) = tx_on e (at_port e d true on) os
tx_on e on (uart_irq_tx_disable d ∷ os) = tx_on e (at_port e d false on) os
tx_on e on (uart_fifo_fill d buf takes ∷ os) = tx_on e on os

pub given-append : (e : Port) (os ps : List Out) → given e (os ++ ps) ≡ given e os ++ given e ps
given-append e [] ps = refl
given-append e (uart_irq_tx_enable d ∷ os) ps = given-append e os ps
given-append e (uart_irq_tx_disable d ∷ os) ps = given-append e os ps
given-append e (uart_fifo_fill d buf takes ∷ os) ps =
    ap (λ t. at_port e d buf [] ++ t) (given-append e os ps)
    ∙ sym (append_assoc (at_port e d buf []) (given e os) (given e ps))

pub tx_on-append :
    (e : Port) (on : Bool) (os ps : List Out) → tx_on e on (os ++ ps) ≡ tx_on e (tx_on e on os) ps
tx_on-append e on [] ps = refl
tx_on-append e on (uart_irq_tx_enable d ∷ os) ps = tx_on-append e (at_port e d true on) os ps
tx_on-append e on (uart_irq_tx_disable d ∷ os) ps = tx_on-append e (at_port e d false on) os ps
tx_on-append e on (uart_fifo_fill d buf takes ∷ os) ps = tx_on-append e on os ps

-- The bytes that come to a device in one read, in a call of its interrupt, and in all.
abbrev pub bytes_of : Received → List ℕ
bytes_of nothing_ready = []
bytes_of read_failed = []
bytes_of (delivered bytes) = bytes

abbrev pub round_bytes : List Round → List ℕ
round_bytes [] = []
round_bytes (r ∷ rs) = bytes_of r.received ++ round_bytes rs

abbrev pub offered : Port → List (Port × List Round) → List ℕ
offered d [] = []
offered d ((p, rounds) ∷ is) = at_port d p (round_bytes rounds) [] ++ offered d is

-- A read delivers no more than the 64 bytes it is asked for.
abbrev pub IsShort : Round → Type 0
IsShort r = length (bytes_of r.received) ≤ 64

abbrev pub IsShortCall : Port × List Round → Type 0
IsShortCall i = All IsShort i.1

abbrev pub enabling : Port → ℕ → List Out
enabling p wrote = if wrote == 0 then [] else uart_irq_tx_enable p ∷ []

abbrev pub filling : Port → List ℕ → ℕ → List Out
filling d buf takes =
    if length buf == 0 then uart_irq_tx_disable d ∷ [] else uart_fifo_fill d buf takes ∷ []

pub given-enabling : (e p : Port) (wrote : ℕ) → given e (enabling p wrote) ≡ []
given-enabling e p zero = refl
given-enabling e p (suc n) = simp (suc_ne n)

pub given-filling :
    (e d : Port) (buf : List ℕ) (takes : ℕ) → given e (filling d buf takes) ≡ at_port e d buf []
given-filling port0 port0 [] takes = refl
given-filling port0 port1 [] takes = refl
given-filling port1 port0 [] takes = refl
given-filling port1 port1 [] takes = refl
given-filling e d (c ∷ buf) takes = rw (suc_ne (length buf)) (append-nil (at_port e d (c ∷ buf) []))

pub tx_on-enabling :
    (e p : Port) (on : Bool) (wrote : ℕ)
    → tx_on e on (enabling p wrote) ≡ at_port e p (after_put on wrote) on
tx_on-enabling port0 port0 on zero = refl
tx_on-enabling port0 port1 on zero = refl
tx_on-enabling port1 port0 on zero = refl
tx_on-enabling port1 port1 on zero = refl
tx_on-enabling e p on (suc n) = simp (suc_ne n)

pub tx_on-filling :
    (e d : Port) (on : Bool) (buf : List ℕ) (takes : ℕ)
    → tx_on e on (filling d buf takes) ≡ at_port e d (after_get on (length buf)) on
tx_on-filling e d on [] takes = refl
tx_on-filling port0 port0 on (c ∷ buf) takes = simp (suc_ne (length buf))
tx_on-filling port0 port1 on (c ∷ buf) takes = simp (suc_ne (length buf))
tx_on-filling port1 port0 on (c ∷ buf) takes = simp (suc_ne (length buf))
tx_on-filling port1 port1 on (c ∷ buf) takes = simp (suc_ne (length buf))
