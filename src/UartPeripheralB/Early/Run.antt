-- ===== src/UartPeripheralB/Early/Run.antt =====
-- Interrupts with no callback.
use echo_bot.Prelude.{
  ℕ, ◌≡◌, refl, ap₂, ◌∙◌, Bool, true, false, List, [], ◌∷◌, ◌++◌, Result, ok, if◌then◌else◌,
}
use echo_bot.Zephyr.ItemRing.{ItemRing}
use echo_bot.UartPeripheralB.{
  Config, UartData, Out, Round, rx_bytes, handler_round, uart_int_handler, transmit,
  uart_irq_tx_disable,
}
use echo_bot.UartPeripheralB.App.{app_callback}
use echo_bot.UartPeripheralB.Lines.{round_bytes}
use echo_bot.UartPeripheralB.Moves.{fills, fills-append, IsSized}
use echo_bot.UartPeripheralB.Moves.Transmit.{transmit_idle}
use echo_bot.UartPeripheralB.Early.{early_bytes, before, IsWaiting, Waits, Waits-none, Waits-append}
use echo_bot.UartPeripheralB.Early.Byte.{rx_byte-Waits}

module _ (ring : ItemRing) (cfg : Config) (stack : List ℕ) (sized : IsSized cfg stack) where
  open ring use {Rb, items}

  abbrev invoke : ℕ → UartData Rb → List ℕ → ℕ → Result (UartData Rb × List Out)
  invoke = app_callback ring cfg stack

  rx_bytes-Waits :
      (bs : List ℕ) {d : UartData Rb}
      → IsWaiting ring cfg stack sized d
      → (d' : UartData Rb) × (outs : List Out) × (rx_bytes ring cfg stack invoke d bs
          ≡ ok (d', outs))
        × Waits ring cfg stack sized d d' outs bs
  unfolding rx_bytes
  rx_bytes-Waits [] {d} v = (d, [], refl, Waits-none ring cfg stack sized v)
  rx_bytes-Waits (b ∷ bs) v =
      let (d', os, e, h) = rx_byte-Waits ring cfg stack sized v b in
      let (d'', ps, e', k) = rx_bytes-Waits bs h.waiting in
      (d'', os ++ ps, rw (e, e') refl, Waits-append ring cfg stack sized h k)

  tx_part-Waits :
      (ready : Bool) {d : UartData Rb}
      → IsWaiting ring cfg stack sized d
      → (outs : List Out) × ((if ready then transmit ring cfg stack d else ok (d, []))
          ≡ ok (d, outs))
        × (fills outs ≡ [])
  tx_part-Waits true v =
      (uart_irq_tx_disable ∷ [], transmit_idle ring cfg stack sized.stack_ok v.down v.empty, refl)
  tx_part-Waits false v = ([], refl, refl)

  rounds-Waits :
      (rs : List Round) {d : UartData Rb}
      → IsWaiting ring cfg stack sized d
      → (d' : UartData Rb) × (outs : List Out) × (uart_int_handler ring cfg stack invoke d rs
          ≡ ok (d', outs))
        × Waits ring cfg stack sized d d' outs (round_bytes rs)
  unfolding uart_int_handler handler_round
  rounds-Waits [] {d} v = (d, [], refl, Waits-none ring cfg stack sized v)
  rounds-Waits (r ∷ rs) v =
      let (d', os, e, h) = rx_bytes-Waits r.bytes v in
      let (ps, e', quiet) = tx_part-Waits r.tx_ready h.waiting in
      let (d'', qs, e'', k) = rounds-Waits rs h.waiting in
      let first : Waits ring cfg stack sized _ d' (os ++ ps) r.bytes = record {
        waiting = h.waiting;
        rest = h.rest;
        quiet = fills-append os ps ∙ ap₂ (λ l m. l ++ m) h.quiet quiet;
      } in
      (d'', (os ++ ps) ++ qs, rw (e, e', e'') refl, Waits-append ring cfg stack sized first k)

  -- Bytes received with no callback are cut into the same lines, which are lost; what is unfinished
  -- stays, and nothing is sent.
  pub before-Waits :
      (early : List (List Round)) {d : UartData Rb}
      → IsWaiting ring cfg stack sized d
      → (d' : UartData Rb) × (outs : List Out) × (before ring cfg stack d early ≡ ok (d', outs))
        × Waits ring cfg stack sized d d' outs (early_bytes early)
  unfolding before
  before-Waits [] {d} v = (d, [], refl, Waits-none ring cfg stack sized v)
  before-Waits (rs ∷ early) v =
      let (d', os, e, h) = rounds-Waits rs v in
      let (d'', ps, e', k) = before-Waits early h.waiting in
      (d'', os ++ ps, rw (e, e') refl, Waits-append ring cfg stack sized h k)
