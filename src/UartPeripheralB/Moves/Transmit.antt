-- ===== src/UartPeripheralB/Moves/Transmit.antt =====
-- `transmit` sends the oldest message if the guard is down, and otherwise nothing.
use echo_bot.Prelude.{
  inl, inr, ◌||◌, Bool, ℕ, ◌≡◌, refl, sym, ap, ◌∙◌, subst, true, false, List, [], ◌∷◌, map,
  append-nil, arith, ok, All, u8, Bool-cases,
}
use echo_bot.Prelude.Kept.{nothing}
use echo_bot.Zephyr.ItemRing.{ItemRing, Item}
use echo_bot.UartPeripheralB.{
  Config, UartData, Out, uart_irq_tx_disable, uart_fifo_fill, k_timer_start, transmit,
}
use echo_bot.UartPeripheralB.Message.{payload, GoodItem, IsStack, transmit_lem}
use echo_bot.UartPeripheralB.Moves.{busy, queue, Goods, Moves, Moves-quiet}

module _ (ring : ItemRing) (cfg : Config) (stack : List ℕ) (st : IsStack cfg stack) where
  open ring use {Rb, items}

  or-true : (b : Bool) → (b || true) ≡ true
  or-true b = ground arith

  transmit_guarded :
      {d : UartData Rb}
      → d.sending_guard ≡ true
      → transmit ring cfg stack d ≡ ok (d, uart_irq_tx_disable ∷ [])
  unfolding transmit
  transmit_guarded up = rw up

  pub transmit_idle :
      {d : UartData Rb}
      → d.sending_guard ≡ false
      → items d.tx_rb ≡ []
      → transmit ring cfg stack d ≡ ok (d, uart_irq_tx_disable ∷ [])
  unfolding transmit
  transmit_idle {d} down e = simp (down, ring.get_empty d.tx_rb (u8 cfg.tx_buf_words) e)

  transmit_ready :
      {d : UartData Rb} (its : List Item)
      → items d.tx_rb ≡ its
      → Goods ring cfg d
      → d.sending_guard ≡ false
      → (d' : UartData Rb) × (outs : List Out) × (transmit ring cfg stack d ≡ ok (d', outs))
        × Moves ring cfg d d' outs [] 0
        × (d'.rx_buf ≡ d.rx_buf)
        × (d'.rx_data_len ≡ d.rx_data_len)
  transmit_ready {d} [] e g down = (
    d,
    uart_irq_tx_disable ∷ [],
    transmit_idle down e,
    Moves-quiet ring cfg refl g (λ on timed a. record { stirs = inl e; guarded = a.guarded }),
    refl,
    refl,
  )
  transmit_ready {d} (it ∷ rest) e g down =
      let goods : All (GoodItem cfg) (it ∷ rest) = subst (All (GoodItem cfg)) e g in
      let (rb, run, left) = transmit_lem ring cfg stack d it rest st down e goods.0 in
      (
        record d { tx_rb = rb; sending_guard = true },
        uart_fifo_fill (payload it) ∷ k_timer_start 5000 ∷ [],
        run,
        record {
          goods = subst (All (GoodItem cfg)) (sym left) goods.1;
          same_callback = refl;
          flow = omega (arith, ap busy down);
          lowers = omega arith;
          accepted = [];
          from = nothing;
          sent =
              ap (λ l. payload it ∷ map payload l) left
              ∙ ap (map payload) (sym e)
              ∙ sym (append-nil (queue ring cfg d));
          lossless = λ enough. refl;
          wakes = λ on timed a. record { stirs = inr (or-true on); guarded = refl };
        },
        refl,
        refl,
      )

  pub transmit-Moves :
      {d : UartData Rb}
      → Goods ring cfg d
      → (d' : UartData Rb) × (outs : List Out) × (transmit ring cfg stack d ≡ ok (d', outs))
        × Moves ring cfg d d' outs [] 0
        × (d'.rx_buf ≡ d.rx_buf)
        × (d'.rx_data_len ≡ d.rx_data_len)
  transmit-Moves {d} g = elim (Bool-cases d.sending_guard) [
    | inr down ↦ transmit_ready (items d.tx_rb) refl g down
    | inl up ↦ (
      d,
      uart_irq_tx_disable ∷ [],
      transmit_guarded up,
      Moves-quiet ring cfg refl g (λ on timed a. record { stirs = inr up; guarded = a.guarded }),
      refl,
      refl,
    )
  ]
