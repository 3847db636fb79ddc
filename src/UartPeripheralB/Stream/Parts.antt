-- ===== src/UartPeripheralB/Stream/Parts.antt =====
-- The parts of a round: the bytes read, and what is then sent.
use echo_bot.Prelude.{
  ℕ, ◌≡◌, refl, ◌∙◌, Bool, true, false, List, [], ◌∷◌, ◌++◌, Result, ok, if◌then◌else◌,
}
use echo_bot.Zephyr.ItemRing.{ItemRing}
use echo_bot.UartPeripheralB.{Config, UartData, Out, rx_bytes, transmit}
use echo_bot.UartPeripheralB.App.{app_callback}
use echo_bot.UartPeripheralB.Lines.{unfinished}
use echo_bot.UartPeripheralB.Moves.{IsSized}
use echo_bot.UartPeripheralB.Moves.Transmit.{transmit-Moves}
use echo_bot.UartPeripheralB.Receive.{held, IsValid}
use echo_bot.UartPeripheralB.Receive.Byte.{rx_byte-Heard}
use echo_bot.UartPeripheralB.Stream.Stretch.{
  Served, Served-none, of_Heard, Served-append, Asks, Asks-first, Asks-later,
}
use echo_bot.UartPeripheralB.Moves.{fills, fills-append}
use echo_bot.Prelude.{ap₂}

module _ (ring : ItemRing) (cfg : Config) (stack : List ℕ) (sized : IsSized cfg stack) where
  open ring use {Rb}

  abbrev size : ℕ
  size = cfg.rx_buf_size

  abbrev invoke : ℕ → UartData Rb → List ℕ → ℕ → Result (UartData Rb × List Out)
  invoke = app_callback ring cfg stack

  abbrev here : UartData Rb → List ℕ
  here d = held ring cfg stack sized d

  abbrev Asked : UartData Rb → List ℕ → Type 0
  Asked d bs = Asks ring cfg stack sized d bs

  abbrev Valid : UartData Rb → Type 0
  Valid d = IsValid ring cfg stack sized d

  first : (d : UartData Rb) (bs cs : List ℕ) → Asked d (bs ++ cs) → Asked d bs
  first d bs cs asked = Asks-first ring cfg stack sized d bs cs asked

  later :
      (d d' : UartData Rb) (bs cs : List ℕ)
      → here d' ≡ unfinished size (here d) bs
      → Asked d (bs ++ cs)
      → Asked d' cs
  later d d' bs cs rest asked = Asks-later ring cfg stack sized d d' bs cs rest asked

  pub rx_bytes-Served :
      (bs : List ℕ) {d : UartData Rb}
      → Valid d
      → Asked d bs
      → (d' : UartData Rb) × (outs : List Out) × (rx_bytes ring cfg stack invoke d bs
          ≡ ok (d', outs))
        × Served ring cfg stack sized d d' outs bs 0
        × (fills outs ≡ [])
  unfolding rx_bytes
  rx_bytes-Served [] {d} v asked = (d, [], refl, Served-none ring cfg stack sized v, refl)
  rx_bytes-Served (b ∷ bs) {d} v asked =
      let (d', os, e, h) = rx_byte-Heard ring cfg stack sized v b (first d (b ∷ []) bs asked) in
      let (d'', ps, e', j, quiet) =
        rx_bytes-Served bs h.valid (later d d' (b ∷ []) bs h.rest asked) in
      (
        d'',
        os ++ ps,
        rw (e, e') refl,
        Served-append ring cfg stack sized (of_Heard ring cfg stack sized h) j,
        fills-append os ps ∙ ap₂ (λ l m. l ++ m) h.silent quiet,
      )

  transmit-Served :
      {d : UartData Rb}
      → Valid d
      → (d' : UartData Rb) × (outs : List Out) × (transmit ring cfg stack d ≡ ok (d', outs))
        × Served ring cfg stack sized d d' outs [] 0
  transmit-Served {d} v =
      let (d', outs, e, m, same_buf, same_len) =
        transmit-Moves ring cfg stack sized.stack_ok v.goods in
      (
        d',
        outs,
        e,
        record {
          valid = record {
            size = rw same_buf v.size;
            within = rw same_len v.within;
            registered = (v.registered.0, m.same_callback ∙ v.registered.1);
            goods = m.goods;
          };
          rest = rw (same_buf, same_len) refl;
          moves = m;
        },
      )

  -- `uart_irq_tx_ready` of a round.
  pub tx_part-Served :
      (ready : Bool) {d : UartData Rb}
      → Valid d
      → (d' : UartData Rb) × (outs : List Out) × ((if ready
            then transmit ring cfg stack d
            else ok (d, []))
          ≡ ok (d', outs))
        × Served ring cfg stack sized d d' outs [] 0
  tx_part-Served true v = transmit-Served v
  tx_part-Served false {d} v = (d, [], refl, Served-none ring cfg stack sized v)
