-- ===== src/UartPeripheralB/Receive.antt =====
-- `uart_int_handler` with the application's callback: its bytes are cut into lines, and each line is
-- offered to the queue.
pub mod Stored
pub mod Byte
use echo_bot.Prelude.{
  inr, ==_iff, ◌^◌, ℕ, ◌+◌, ◌*◌, ◌≤◌, ◌<◌, ◌≡◌, refl, sym, ap, ◌∙◌, subst, inl, Bool, true, false,
  some, List, [], ◌∷◌, ◌++◌, map, append-nil, arith, ◌==◌, Bool-cases, ok, length, set, take,
  length-set, length-replicate, length-take, length-append, store_ok, take-set, add_size, sub_size,
}
use echo_bot.Prelude.Text.{codes}
use echo_bot.Zephyr.ItemRing.{ItemRing}
use echo_bot.UartPeripheralB.{
  Config, UartData, Out, uart_irq_tx_enable, is_line_end, cleared, call_if, end_line, rx_byte,
}
use echo_bot.UartPeripheralB.App.{app_callback}
use echo_bot.UartPeripheralB.Lines.{
  lines_end, lines_full, lines_more, lines, unfinished, starts_ok, answers, check_sending_guard_lem,
}
use echo_bot.UartPeripheralB.Moves.{fills, busy, IsSized, queue, Goods, IsAwake, Moves, Fits}
use echo_bot.UartPeripheralB.Moves.Send.{user_send_data-Moves}

-- What is sent back for a line.
abbrev pub reply : List ℕ → List ℕ
reply line = codes "SEND:" ++ line

pub busy-le-one : (b : Bool) → busy b ≤ 1
busy-le-one b = ground arith

module _ (ring : ItemRing) (cfg : Config) (stack : List ℕ) (sized : IsSized cfg stack) where
  open ring use {Rb}

  abbrev pub held : UartData Rb → List ℕ
  held d = take d.rx_data_len d.rx_buf

  pub record IsValid (d : UartData Rb) : Type 0 where
    pub size : length d.rx_buf ≡ cfg.rx_buf_size
    pub within : d.rx_data_len < cfg.rx_buf_size
    pub registered : (f : ℕ) × (d.callback ≡ some f)
    pub goods : Goods ring cfg d

  -- The bytes `bs` took the driver from `d` to `d'`.
  pub record Heard (d d' : UartData Rb) (outs : List Out) (bs : List ℕ) : Type 0 where
    pub valid : IsValid d'
    pub rest : held d' ≡ unfinished cfg.rx_buf_size (held d) bs
    pub moves :
        Moves ring cfg d d' outs
          (map reply (lines cfg.rx_buf_size (held d) bs))
          (answers (lines cfg.rx_buf_size (held d) bs))
    pub silent : fills outs ≡ []

  -- The receive buffer does not matter.
  of_queue :
      {on timed : Bool} {d : UartData Rb} {buf : List ℕ} {len : ℕ}
      → IsAwake ring cfg on timed d
      → IsAwake ring cfg on timed (record d { rx_buf = buf; rx_data_len = len })
  of_queue a = record { stirs = a.stirs; guarded = a.guarded }

  -- The guard goes down with the interrupt on.
  freed :
      {on timed : Bool} {d : UartData Rb}
      → IsAwake ring cfg on timed d
      → IsAwake ring cfg true timed (record d { sending_guard = false })
  freed a = record { stirs = inr refl; guarded = refl }

  -- A complete line that stands in the buffer.
  end_line-Moves :
      {d : UartData Rb} (f : ℕ)
      → Goods ring cfg d
      → length d.rx_buf ≡ cfg.rx_buf_size
      → d.rx_data_len ≤ cfg.rx_buf_size
      → Fits cfg (held d)
      → (rb : Rb) × (guard : Bool) × (outs : List Out) × (end_line ring cfg stack
            (app_callback ring cfg stack)
            (some f)
            d
          ≡ ok (
            record d {
              rx_buf = cleared d.rx_buf;
              rx_data_len = 0;
              tx_rb = rb;
              sending_guard = guard;
            },
            outs,
          ))
        × Moves ring cfg d
            (record d {
              rx_buf = cleared d.rx_buf;
              rx_data_len = 0;
              tx_rb = rb;
              sending_guard = guard;
            })
            outs
            (reply (held d) ∷ [])
            (answers (held d ∷ []))
        × (fills outs ≡ [])
  unfolding end_line call_if app_callback
  end_line-Moves {d} f g size within fits =
      let there : d.rx_data_len ≤ length d.rx_buf = omega arith in
      let room : d.rx_data_len + 5 < cfg.tx_buf_words * 4 =
        omega (arith, length-take d.rx_data_len d.rx_buf) in
      rw (check_sending_guard_lem d.rx_buf d.rx_data_len there)
        (elim (Bool-cases (starts_ok (held d))) [
          | inl answered ↦
              let (rb, outs, e, m, quiet) =
                user_send_data-Moves ring cfg stack sized.stack_ok d.rx_buf d.rx_data_len
                  {d = record d { sending_guard = false }} g there room in
              rw answered (
                rb,
                false,
                uart_irq_tx_enable ∷ outs,
                rw e,
                record {
                  goods = m.goods;
                  same_callback = m.same_callback;
                  flow = omega (arith, m.flow, busy-le-one d.sending_guard);
                  lowers = omega (arith, m.lowers, busy-le-one d.sending_guard);
                  accepted = m.accepted;
                  from = m.from;
                  sent = m.sent;
                  lossless = m.lossless;
                  wakes = λ on timed a. of_queue (m.wakes true timed (freed a));
                },
                quiet,
              )
          | inr other ↦
              let (rb, outs, e, m, quiet) =
                user_send_data-Moves ring cfg stack sized.stack_ok d.rx_buf d.rx_data_len {d = d} g
                  there room in
              rw other (
                rb,
                d.sending_guard,
                outs,
                rw e,
                record {
                  goods = m.goods;
                  same_callback = m.same_callback;
                  flow = m.flow;
                  lowers = m.lowers;
                  accepted = m.accepted;
                  from = m.from;
                  sent = m.sent;
                  lossless = m.lossless;
                  wakes = λ on timed a. of_queue (m.wakes on timed a);
                },
                quiet,
              )
        ])
