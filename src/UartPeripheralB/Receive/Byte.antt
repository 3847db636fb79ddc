-- ===== src/UartPeripheralB/Receive/Byte.antt =====
-- One byte received: its branches, each against the lines in the bytes.
use echo_bot.Prelude.{
  ℕ, ◌+◌, ◌<◌, ◌≡◌, refl, sym, ap, ◌∙◌, subst, inl, inr, true, false, List, [], ◌∷◌, arith, ◌==◌,
  Bool-cases, ok, store_ok, add_size, sub_size, All,
}
use echo_bot.Zephyr.ItemRing.{ItemRing}
use echo_bot.UartPeripheralB.{Config, UartData, Out, is_line_end, cleared, end_line, rx_byte}
use echo_bot.UartPeripheralB.App.{app_callback}
use echo_bot.UartPeripheralB.Lines.{lines_end, lines_full, lines_more, lines}
use echo_bot.UartPeripheralB.Moves.{IsSized, Fits}
use echo_bot.UartPeripheralB.Receive.{held, IsValid, Heard, end_line-Moves}
use echo_bot.UartPeripheralB.Receive.Stored.{
  filled, held-filled, size-filled, count, spare_eq, spare_lt, of_filled, unmoved, emptied-IsValid,
}

module _ (ring : ItemRing) (cfg : Config) (stack : List ℕ) (sized : IsSized cfg stack) where
  open ring use {Rb}

  module _ {d : UartData Rb} (v : IsValid ring cfg stack sized d) (c : ℕ) where
    Outcome : Type 0
    Outcome =
        (d' : UartData Rb) × (outs : List Out) × (rx_byte ring cfg stack
            (app_callback ring cfg stack) d c
          ≡ ok (d', outs))
        × Heard ring cfg stack sized d d' outs (c ∷ [])

    Asked : Type 0
    Asked = All (Fits cfg) (lines cfg.rx_buf_size (held ring cfg stack sized d) (c ∷ []))

    Fits-filled :
        is_line_end c ≡ true
        → Asked
        → Fits cfg (held ring cfg stack sized (filled ring cfg stack sized v c))
    unfolding Asked
    Fits-filled end asked =
        let one = (lines_end cfg.rx_buf_size (held ring cfg stack sized d) c end).0 in
        (subst (All (Fits cfg))
          (one ∙ ap (λ l. l ∷ []) (sym (held-filled ring cfg stack sized v c))) asked).0

    at_end :
        is_line_end c ≡ true
        → Fits cfg (held ring cfg stack sized (filled ring cfg stack sized v c))
        → Outcome
    unfolding rx_byte Outcome
    at_end end fits =
        let (f, who) = v.registered in
        let (one, none_left) = lines_end cfg.rx_buf_size (held ring cfg stack sized d) c end in
        let (rb, guard, outs, e, m, quiet) =
          end_line-Moves ring cfg stack sized {d = (filled ring cfg stack sized v c)} f v.goods
            (size-filled ring cfg stack sized v c) (omega (arith, v.within)) fits in
        (
          record d {
            rx_buf = cleared (filled ring cfg stack sized v c).rx_buf;
            rx_data_len = 0;
            tx_rb = rb;
            sending_guard = guard;
          },
          outs,
          rw (store_ok d.rx_buf d.rx_data_len c (omega (arith, v.size, v.within)), end)
              (ap
                  (λ cb.
                    end_line ring cfg stack (app_callback ring cfg stack) cb
                      (filled ring cfg stack sized v c))
                  who
                ∙ e),
          record {
            valid = (emptied-IsValid ring cfg stack sized v c) m.goods;
            rest = sym none_left;
            moves =
                (of_filled ring cfg stack sized v c) _ outs
                  (held ring cfg stack sized (filled ring cfg stack sized v c) ∷ [])
                  (one ∙ ap (λ l. l ∷ []) (sym (held-filled ring cfg stack sized v c))) m;
            silent = quiet;
          },
        )

    when_full :
        is_line_end c ≡ false
        → (sub_size cfg.rx_buf_size (add_size d.rx_data_len 1) == 0) ≡ true
        → Outcome
    unfolding rx_byte Outcome
    when_full other full =
        let (no_line, none_left) =
          lines_full cfg.rx_buf_size (held ring cfg stack sized d) c other
            ((count ring cfg stack sized v c) ∙ (spare_eq ring cfg stack sized v c) full) in
        (
          record d { rx_buf = cleared (filled ring cfg stack sized v c).rx_buf; rx_data_len = 0 },
          [],
          rw (store_ok d.rx_buf d.rx_data_len c (omega (arith, v.size, v.within)), other, full),
          record {
            valid = (emptied-IsValid ring cfg stack sized v c) v.goods;
            rest = sym none_left;
            moves = (of_filled ring cfg stack sized v c) _ [] [] no_line (
                (unmoved ring cfg stack sized v c)
                  (cleared (filled ring cfg stack sized v c).rx_buf) 0);
            silent = refl;
          },
        )

    when_more :
        is_line_end c ≡ false
        → (sub_size cfg.rx_buf_size (add_size d.rx_data_len 1) == 0) ≡ false
        → Outcome
    unfolding rx_byte Outcome
    when_more other more =
        let below : d.rx_data_len + 1 < cfg.rx_buf_size =
          (spare_lt ring cfg stack sized v c) more in
        let (no_line, grown) =
          lines_more cfg.rx_buf_size (held ring cfg stack sized d) c other
            (omega (arith, (count ring cfg stack sized v c))) in
        (
          (filled ring cfg stack sized v c),
          [],
          rw (store_ok d.rx_buf d.rx_data_len c (omega (arith, v.size, v.within)), other, more),
          record {
            valid = record {
              size = (size-filled ring cfg stack sized v c);
              within = omega arith;
              registered = v.registered;
              goods = v.goods;
            };
            rest = (held-filled ring cfg stack sized v c) ∙ sym grown;
            moves = (of_filled ring cfg stack sized v c) _ [] [] no_line (
                (unmoved ring cfg stack sized v c) (filled ring cfg stack sized v c).rx_buf
                  (filled ring cfg stack sized v c).rx_data_len);
            silent = refl;
          },
        )

    pub rx_byte-Heard :
        All (Fits cfg) (lines cfg.rx_buf_size (held ring cfg stack sized d) (c ∷ []))
        → (d' : UartData Rb) × (outs : List Out) × (rx_byte ring cfg stack
              (app_callback ring cfg stack)
              d
              c
            ≡ ok (d', outs))
          × Heard ring cfg stack sized d d' outs (c ∷ [])
    unfolding Outcome Asked
    rx_byte-Heard asked = elim (Bool-cases (is_line_end c)) [
      | inl end ↦ at_end end (Fits-filled end asked)
      | inr other ↦ elim (Bool-cases (sub_size cfg.rx_buf_size (add_size d.rx_data_len 1) == 0)) [
        | inl full ↦ when_full other full
        | inr more ↦ when_more other more
      ]
    ]
