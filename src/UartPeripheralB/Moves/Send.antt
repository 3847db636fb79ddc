-- ===== src/UartPeripheralB/Moves/Send.antt =====
-- `user_send_data` as a move of the queue.
use echo_bot.Prelude.{
  inr, ℕ, ◌+◌, ◌*◌, ◌≤◌, ◌<◌, ◌≡◌, refl, sym, ap, ◌∙◌, subst, none, some, List, [], ◌∷◌, ◌++◌, map,
  map-append, append-nil, arith, ok, length, All, All-append,
}
use echo_bot.Prelude.Kept.{nothing, keep, skip}
use native.Mathlib.Decide.{dec_lt}
use echo_bot.Zephyr.ItemRing.{ItemRing}
use echo_bot.UartPeripheralB.{Config, UartData, Out, uart_irq_tx_enable, user_send_data}
use echo_bot.UartPeripheralB.Cost.{used-cost}
use echo_bot.UartPeripheralB.Message.{
  payload, message, GoodItem, IsStack, packed, packed-GoodItem, payload-packed, offered,
}
use echo_bot.UartPeripheralB.Moves.{fills, queue, Goods, Moves}

module _ (ring : ItemRing) (cfg : Config) where
  open ring use {Rb, items}

  module _ (stack : List ℕ) (st : IsStack cfg stack) where
    -- `user_send_data` with a message that fits: it is queued or dropped, and nothing else changes.
    pub user_send_data-Moves :
        (src : List ℕ) (len : ℕ) {d : UartData Rb}
        → Goods ring cfg d
        → len ≤ length src
        → len + 5 < cfg.tx_buf_words * 4
        → (rb : Rb) × (outs : List Out) × (user_send_data ring cfg stack d src len
            ≡ ok (record d { tx_rb = rb }, outs))
          × Moves ring cfg d (record d { tx_rb = rb }) outs (message src len ∷ []) 0
          × (fills outs ≡ [])
    user_send_data-Moves src len {d} g there room =
        let it = packed cfg stack src len st there in
        elim (dec_lt it.size32 (ring.space d.tx_rb)) [
          | yes h ↦
              let (rb, e, all) = ring.put_fits d.tx_rb it h in
              (
                rb,
                uart_irq_tx_enable ∷ [],
                offered cfg stack src len st there room ring d (some rb) e,
                record {
                  goods = subst (All (GoodItem cfg)) (sym all) (
                      All-append (GoodItem cfg) (items d.tx_rb) (it ∷ []) g
                        (packed-GoodItem cfg stack src len st there room, tt));
                  same_callback = refl;
                  flow = omega arith;
                  lowers = omega arith;
                  accepted = message src len ∷ [];
                  from = keep (message src len) nothing;
                  sent =
                      ap (map payload) all
                      ∙ map-append payload (items d.tx_rb) (it ∷ [])
                      ∙ ap (λ m. queue ring cfg d ++ m ∷ [])
                          (payload-packed cfg stack src len st there room);
                  lossless = λ enough. refl;
                  wakes = λ on timed a. record { stirs = inr refl; guarded = a.guarded };
                },
                refl,
              )
          | no h ↦ (
            d.tx_rb,
            [],
            offered cfg stack src len st there room ring d none
                (ring.put_full d.tx_rb it (omega arith)),
            record {
              goods = g;
              same_callback = refl;
              flow = omega arith;
              lowers = omega arith;
              accepted = [];
              from = skip (message src len) nothing;
              sent = sym (append-nil (queue ring cfg d));
              lossless = λ enough. absurd (
                  omega (
                    arith,
                    ring.space-used d.tx_rb,
                    used-cost cfg (items d.tx_rb) g,
                    (packed-GoodItem cfg stack src len st there room).tight,
                    ap length (payload-packed cfg stack src len st there room),
                  ));
              wakes = λ on timed a. record { stirs = a.stirs; guarded = a.guarded };
            },
            refl,
          )
        ]
