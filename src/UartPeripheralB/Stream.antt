-- ===== src/UartPeripheralB/Stream.antt =====
-- Driver and application over any course of interrupts and expiries.
pub mod Stretch
pub mod Parts
use echo_bot.Prelude.{
  inr, ℕ, ◌+◌, ◌≡◌, refl, sym, ap, ◌∙◌, subst, Bool, true, false, List, [], ◌∷◌, ◌++◌, map,
  map-append, append-nil, arith, Result, ok, if◌then◌else◌,
}
use native.Mathlib.Nat.{zero-add}
use echo_bot.Zephyr.ItemRing.{ItemRing}
use echo_bot.UartPeripheralB.{
  Config, UartData, Out, uart_irq_tx_enable, Round, rx_bytes, handler_round, uart_int_handler,
  transmit, sending_guard_timer_expired_function,
}
use echo_bot.UartPeripheralB.App.{Event, interrupt, timer_expired, app_callback, step, run}
use echo_bot.UartPeripheralB.Lines.{
  lines, unfinished, answers, answers-append, round_bytes, event_bytes, expiries, lines-append,
  unfinished-append,
}
use echo_bot.Prelude.Kept.{Kept}
use echo_bot.UartPeripheralB.Moves.{IsSized, Moves, Moves-none, Moves-append, queue}
use echo_bot.UartPeripheralB.Moves.Transmit.{transmit-Moves}
use echo_bot.UartPeripheralB.Receive.{reply, held, busy-le-one, IsValid, Heard}
use echo_bot.UartPeripheralB.Receive.Byte.{rx_byte-Heard}
use echo_bot.UartPeripheralB.Stream.Stretch.{
  Delivers, Delivers-of_Served, Served, Served-none, of_Heard, Served-append, Asks, Asks-first,
  Asks-later,
}
use echo_bot.UartPeripheralB.Stream.Parts.{rx_bytes-Served, tx_part-Served}

module _ (ring : ItemRing) (cfg : Config) (stack : List ℕ) (sized : IsSized cfg stack) where
  open ring use {Rb}

  abbrev size : ℕ
  size = cfg.rx_buf_size

  abbrev invoke : ℕ → UartData Rb → List ℕ → ℕ → Result (UartData Rb × List Out)
  invoke = app_callback ring cfg stack

  abbrev here : UartData Rb → List ℕ
  here d = held ring cfg stack sized d

  abbrev Asked : UartData Rb → List ℕ → Type 0
  Asked d bs = Asks ring cfg stack sized d bs

  abbrev Valid : UartData Rb → Type 0
  Valid d = IsValid ring cfg stack sized d

  first : (d : UartData Rb) (bs cs : List ℕ) → Asked d (bs ++ cs) → Asked d bs
  first d bs cs asked = Asks-first ring cfg stack sized d bs cs asked

  later :
      (d d' : UartData Rb) (bs cs : List ℕ)
      → here d' ≡ unfinished size (here d) bs
      → Asked d (bs ++ cs)
      → Asked d' cs
  later d d' bs cs rest asked = Asks-later ring cfg stack sized d d' bs cs rest asked

  handler_round-Served :
      (r : Round) {d : UartData Rb}
      → Valid d
      → Asked d r.bytes
      → (d' : UartData Rb) × (outs : List Out) × (handler_round ring cfg stack invoke d r
          ≡ ok (d', outs))
        × Served ring cfg stack sized d d' outs r.bytes 0
  unfolding handler_round
  handler_round-Served r {d} v asked =
      let (d', os, e, h, _) = rx_bytes-Served ring cfg stack sized r.bytes v asked in
      let (d'', ps, e', j) = tx_part-Served ring cfg stack sized r.tx_ready h.valid in
      (
        d'',
        os ++ ps,
        rw (e, e') refl,
        subst (λ bs. Served ring cfg stack sized d d'' (os ++ ps) bs 0) (append-nil r.bytes)
            (Served-append ring cfg stack sized h j),
      )

  pub uart_int_handler-Served :
      (rs : List Round) {d : UartData Rb}
      → Valid d
      → Asked d (round_bytes rs)
      → (d' : UartData Rb) × (outs : List Out) × (uart_int_handler ring cfg stack invoke d rs
          ≡ ok (d', outs))
        × Served ring cfg stack sized d d' outs (round_bytes rs) 0
  unfolding uart_int_handler
  uart_int_handler-Served [] {d} v asked = (d, [], refl, Served-none ring cfg stack sized v)
  uart_int_handler-Served (r ∷ rs) {d} v asked =
      let (d', os, e, h) = handler_round-Served r v (first d r.bytes (round_bytes rs) asked) in
      let (d'', ps, e', j) =
        uart_int_handler-Served rs h.valid (later d d' r.bytes (round_bytes rs) h.rest asked) in
      (d'', os ++ ps, rw (e, e') refl, Served-append ring cfg stack sized h j)

  pub expiry-Served :
      {d : UartData Rb}
      → Valid d
      → Served ring cfg stack sized d
          (record d { sending_guard = false })
          (uart_irq_tx_enable ∷ [])
          []
          1
  expiry-Served {d} v = record {
    valid = record { size = v.size; within = v.within; registered = v.registered; goods = v.goods };
    rest = refl;
    moves = record {
      goods = v.goods;
      same_callback = refl;
      flow = omega (arith, busy-le-one d.sending_guard);
      accepted = [];
      from = Kept.nothing;
      sent = sym (append-nil (queue ring cfg d));
      lowers = omega arith;
      lossless = λ enough. refl;
      wakes = λ on timed a. record { stirs = inr refl; guarded = refl };
    };
  }

  pub run-Served :
      (es : List Event) {d : UartData Rb}
      → IsValid ring cfg stack sized d
      → Asked d (event_bytes es)
      → (d' : UartData Rb) × (outs : List Out) × (run ring cfg stack d es ≡ ok (d', outs))
        × Served ring cfg stack sized d d' outs (event_bytes es) (expiries es)
  unfolding run step sending_guard_timer_expired_function
  run-Served [] {d} v asked = (d, [], refl, Served-none ring cfg stack sized v)
  run-Served (interrupt rs ∷ es) {d} v asked =
      let (d', os, e, h) =
        uart_int_handler-Served rs v (first d (round_bytes rs) (event_bytes es) asked) in
      let (d'', ps, e', j) =
        run-Served es h.valid (later d d' (round_bytes rs) (event_bytes es) h.rest asked) in
      (
        d'',
        os ++ ps,
        rw (e, e') refl,
        subst
            (λ k. Served ring cfg stack sized d d'' (os ++ ps) (round_bytes rs ++ event_bytes es) k)
            (zero-add (expiries es)) (Served-append ring cfg stack sized h j),
      )
  run-Served (timer_expired ∷ es) {d} v asked =
      let h = expiry-Served v in
      let (d'', ps, e', j) = run-Served es h.valid asked in
      (
        d'',
        uart_irq_tx_enable ∷ ps,
        rw e' refl,
        subst (λ k. Served ring cfg stack sized d d'' (uart_irq_tx_enable ∷ ps) (event_bytes es) k)
            (omega arith) (Served-append ring cfg stack sized h j),
      )

  -- From a valid state, over any course of interrupts and expiries of the timer in which every line
  -- received leaves a byte of a message spare, with an application that sends every line back:
  -- nothing faults and the state stays valid. The lines are those of the bytes received; a reply is
  -- "SEND:" and the line. The messages handed to the UART and then those still queued are the
  -- messages queued before and then replies, in order: all of them, if they have room in the ring
  -- together with the messages queued before. There are no more messages handed to the UART than
  -- answers and expiries, but for one when the guard was down and is now up.
  pub run_lem :
      (es : List Event) {d : UartData Rb}
      → IsValid ring cfg stack sized d
      → Asks ring cfg stack sized d (event_bytes es)
      → (d' : UartData Rb) × (outs : List Out) × (run ring cfg stack d es ≡ ok (d', outs))
        × Delivers ring cfg stack sized d d' outs (event_bytes es) (expiries es)
  run_lem es v asked =
      let (d', outs, e, s) = run-Served es v asked in
      (d', outs, e, Delivers-of_Served ring cfg stack sized s)
