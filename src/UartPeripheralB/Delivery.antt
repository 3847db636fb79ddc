-- ===== src/UartPeripheralB/Delivery.antt =====
-- From the start of the program until the queue is empty.
use echo_bot.UartPeripheralB.Early.Run.{before-Waits}
use echo_bot.UartPeripheralB.Early.{early_bytes, before, IsWaiting, Waits}
use echo_bot.Prelude.{
  ◌<◌, ℕ, zero, suc, ◌<◌, ◌≡◌, refl, sym, subst, Bool, true, false, some, List, [], ◌∷◌, Result, ok,
  ◌>>=◌, All, length-replicate,
}
use echo_bot.Prelude.Kept.{Kept}
use echo_bot.Prelude.Int.{pos}
use echo_bot.Zephyr.ItemRing.{ItemRing}
use echo_bot.UartPeripheralB.{Config, UartData, initial_data, Out, user_set_callback, Round}
use echo_bot.UartPeripheralB.App.{Event, interrupt, timer_expired, main_my_uart_peripheral_b}
use echo_bot.UartPeripheralB.Api.{define_device}
use echo_bot.UartPeripheralB.Setup.{
  SetupCall, Answers, init_my_uart_peripheral_b, is_well, init_my_uart_peripheral_b_lem,
}
use echo_bot.UartPeripheralB.Message.{GoodItem}
use echo_bot.UartPeripheralB.Moves.{IsSized, queue}
use echo_bot.UartPeripheralB.Receive.{IsValid}

-- So many times, the timer expires, and then the transmit interrupt comes.
abbrev pub reliefs : ℕ → List Event
reliefs zero = []
reliefs (suc n) =
    timer_expired ∷ interrupt (record { bytes = []; tx_ready = true } ∷ []) ∷ reliefs n

module _ (ring : ItemRing) (cfg : Config) (stack : List ℕ) where
  open ring use {Rb}

  -- The device, interrupts before the application's `main`, and this, with the address of
  -- `app_callback`. The calls are those made before.
  unfoldable pub boot :
      Bool
      → Rb
      → (app_callback : ℕ) → Answers
      → (early : List (List Round)) → Result (UartData Rb × List Out)
  boot asserts empty_ring app_callback a early = do
    (ready, d, calls) ← define_device ring cfg stack asserts empty_ring a
    (d', outs) ← before ring cfg stack d early
    ok (main_my_uart_peripheral_b ring cfg stack ready app_callback d', outs)

module _ (ring : ItemRing) (cfg : Config) (stack : List ℕ) where
  open ring use {Rb, items}

  abbrev pub started : UartData Rb → ℕ → UartData Rb
  started d app_callback = record d { callback = some app_callback }

  init_well :
      (asserts : Bool) (a : Answers)
      → is_well a ≡ true
      → (calls : List SetupCall) × (init_my_uart_peripheral_b asserts a ≡ ok (pos 0, calls))
  init_well true a well =
      let (calls, without, queue, timer, with_asserts) = init_my_uart_peripheral_b_lem a in
      (calls, rw (with_asserts, well))
  init_well false a well =
      let (calls, without, queue, timer, with_asserts) = init_my_uart_peripheral_b_lem a in
      (calls, rw (without, well))

  module _ (sized : IsSized cfg stack) where
    -- The device waits for its application, and then serves it.
    pub boot-started :
        (asserts : Bool) (empty_ring : Rb) (app_callback : ℕ) (a : Answers)
        (early : List (List Round))
        → is_well a ≡ true
        → items empty_ring ≡ []
        → 0 < cfg.rx_buf_size
        → (d : UartData Rb) × (outs : List Out) × (boot ring cfg stack asserts empty_ring
              app_callback a early
            ≡ ok (started d app_callback, outs))
          × Waits ring cfg stack sized (initial_data cfg empty_ring) d outs (early_bytes early)
          × IsValid ring cfg stack sized (started d app_callback)
    unfolding boot define_device main_my_uart_peripheral_b user_set_callback
    boot-started asserts empty_ring app_callback a early well e some_room =
        let first : IsWaiting ring cfg stack sized (initial_data cfg empty_ring) = record {
          filled_to = length-replicate cfg.rx_buf_size 0;
          within = some_room;
          silent = refl;
          empty = e;
          down = refl;
        } in
        let (d, outs, run_early, w) = before-Waits ring cfg stack sized early first in
        (
          d,
          outs,
          rw ((init_well asserts a well).1, run_early),
          w,
          record {
            size = w.waiting.filled_to;
            within = w.waiting.within;
            registered = (app_callback, refl);
            goods = subst (All (GoodItem cfg)) (sym w.waiting.empty) tt;
          },
        )
