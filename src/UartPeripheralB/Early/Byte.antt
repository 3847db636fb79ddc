-- ===== src/UartPeripheralB/Early/Byte.antt =====
-- One byte received with no callback.
use echo_bot.UartPeripheralB.Message.{GoodItem}
use echo_bot.Prelude.{
  ◌==◌, ℕ, ◌+◌, ◌≤◌, ◌<◌, ◌≡◌, refl, sym, ap, ◌∙◌, inl, inr, Bool, true, false, none, some, List,
  [], ◌∷◌, arith, Bool-cases, Result, ok, length, store_ok, sub_size, add_size, subst, All, set,
}
use echo_bot.Zephyr.ItemRing.{ItemRing}
use echo_bot.UartPeripheralB.{
  Config, UartData, Out, is_line_end, cleared, call_if, end_line, rx_byte, uart_irq_tx_enable,
}
use echo_bot.UartPeripheralB.App.{app_callback}
use echo_bot.UartPeripheralB.Lines.{
  starts_ok, check_sending_guard_lem, lines_end, lines_full, lines_more,
}
use echo_bot.UartPeripheralB.Moves.{fills, IsSized}
use echo_bot.UartPeripheralB.Receive.{held, IsValid}
use echo_bot.UartPeripheralB.Receive.Stored.{
  held-filled, size-filled, count, spare_eq, spare_lt, length-cleared, bounds,
}
use echo_bot.UartPeripheralB.Early.{IsWaiting, Waits}

module _ (ring : ItemRing) (cfg : Config) (stack : List ℕ) (sized : IsSized cfg stack) where
  open ring use {Rb, items}

  abbrev size : ℕ
  size = cfg.rx_buf_size

  abbrev here : UartData Rb → List ℕ
  here d = held ring cfg stack sized d

  abbrev invoke : ℕ → UartData Rb → List ℕ → ℕ → Result (UartData Rb × List Out)
  invoke = app_callback ring cfg stack

  abbrev emptied : UartData Rb → Bool → UartData Rb
  emptied d guard = record d { rx_buf = cleared d.rx_buf; rx_data_len = 0; sending_guard = guard }

  end_line_alone :
      (d : UartData Rb)
      → d.rx_data_len ≤ length d.rx_buf
      → d.sending_guard ≡ false
      → (guard : Bool) × (outs : List Out) × (end_line ring cfg stack invoke none d
          ≡ ok (emptied d guard, outs))
        × (guard ≡ false)
        × (fills outs ≡ [])
  unfolding end_line call_if
  end_line_alone d there down =
      rw (check_sending_guard_lem d.rx_buf d.rx_data_len there)
        (elim (Bool-cases (starts_ok (here d))) [
          | inl answered ↦ rw answered (false, uart_irq_tx_enable ∷ [], refl, refl, refl)
          | inr other ↦ rw other (d.sending_guard, [], refl, down, refl)
        ])

  module _ {d : UartData Rb} (v : IsWaiting ring cfg stack sized d) (c : ℕ) where
    -- The receive buffer is as with a callback.
    abbrev listening : IsValid ring cfg stack sized (record d { callback = some 0 })
    listening = record {
      size = v.filled_to;
      within = v.within;
      registered = (0, refl);
      goods = subst (All (GoodItem cfg)) (sym v.empty) tt;
    }

    abbrev stored : UartData Rb
    stored = record d {
      rx_buf = set d.rx_buf d.rx_data_len c;
      rx_data_len = add_size d.rx_data_len 1;
    }

    emptied-IsWaiting :
        (guard : Bool) → guard ≡ false → IsWaiting ring cfg stack sized (emptied stored guard)
    emptied-IsWaiting guard down = record {
      filled_to = length-cleared ring cfg stack sized listening c;
      within = omega (arith, v.within);
      silent = v.silent;
      empty = v.empty;
      down = down;
    }

    Outcome : Type 0
    Outcome =
        (d' : UartData Rb) × (outs : List Out) × (rx_byte ring cfg stack invoke d c ≡ ok (d', outs))
        × Waits ring cfg stack sized d d' outs (c ∷ [])

    at_end : is_line_end c ≡ true → Outcome
    unfolding rx_byte Outcome
    at_end end =
        let (one, none_left) = lines_end size (here d) c end in
        let (guard, outs, e, down, quiet) =
          end_line_alone stored
            (omega (
              arith,
              size-filled ring cfg stack sized listening c,
              bounds ring cfg stack sized listening c,
              v.within,
            ))
            v.down in
        (
          emptied stored guard,
          outs,
          rw (store_ok d.rx_buf d.rx_data_len c (omega (arith, v.filled_to, v.within)), end)
              (ap (λ cb. end_line ring cfg stack invoke cb stored) v.silent ∙ e),
          record { waiting = emptied-IsWaiting guard down; rest = sym none_left; quiet = quiet },
        )

    inside :
        is_line_end c ≡ false
        → (full : Bool) → (sub_size cfg.rx_buf_size (add_size d.rx_data_len 1) == 0) ≡ full
        → Outcome
    unfolding rx_byte Outcome
    inside other true full =
        let (no_line, none_left) = lines_full size (here d) c other (
          count ring cfg stack sized listening c
          ∙ spare_eq ring cfg stack sized listening c full) in
        (
          emptied stored d.sending_guard,
          [],
          rw (
            store_ok d.rx_buf d.rx_data_len c (omega (arith, v.filled_to, v.within)),
            other,
            full,
          ),
          record {
            waiting = emptied-IsWaiting d.sending_guard v.down;
            rest = sym none_left;
            quiet = refl;
          },
        )
    inside other false more =
        let below : d.rx_data_len + 1 < cfg.rx_buf_size =
          spare_lt ring cfg stack sized listening c more in
        let (no_line, grown) =
          lines_more size (here d) c other
            (omega (arith, count ring cfg stack sized listening c)) in
        (
          stored,
          [],
          rw (
            store_ok d.rx_buf d.rx_data_len c (omega (arith, v.filled_to, v.within)),
            other,
            more,
          ),
          record {
            waiting = record {
              filled_to = size-filled ring cfg stack sized listening c;
              within = omega (arith, bounds ring cfg stack sized listening c);
              silent = v.silent;
              empty = v.empty;
              down = v.down;
            };
            rest = held-filled ring cfg stack sized listening c ∙ sym grown;
            quiet = refl;
          },
        )

    pub rx_byte-Waits :
        (d' : UartData Rb) × (outs : List Out) × (rx_byte ring cfg stack
            (app_callback ring cfg stack)
            d
            c
          ≡ ok (d', outs))
        × Waits ring cfg stack sized d d' outs (c ∷ [])
    unfolding Outcome
    rx_byte-Waits = elim (Bool-cases (is_line_end c)) [
      | inl end ↦ at_end end
      | inr other ↦ inside other (sub_size cfg.rx_buf_size (add_size d.rx_data_len 1) == 0) refl
    ]
