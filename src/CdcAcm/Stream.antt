-- ===== src/CdcAcm/Stream.antt =====
-- The bytes that pass through the port, and the transmit interrupt that keeps them moving.
use native.Mathlib.Decide.{ℕ_discrete}
use echo_bot.Prelude.{
  ℕ, ◌-◌, ◌≤◌, ◌≡◌, refl, sym, subst, Bool, true, false, List, [], ◌∷◌, ◌++◌, append-nil, arith,
  if◌then◌else◌, ok, length, take, All, read_ok, inl, ap, ◌∙◌,
}
use echo_bot.Zephyr.ByteRing.{ByteRing}
use echo_bot.Zephyr.ByteRing.Flow.{Flow, Flow-none, Flow-append, Flow-put, Flow-get}
use echo_bot.Zephyr.ByteRing.Awake.{IsAwake, put-IsAwake, get-IsAwake, after_put, ne_zero}
use echo_bot.CdcAcm.{
  ring_buf_size, Out, Round, Event, interrupt, send, send_cdc_acm, rx_bytes, transmit,
  handler_round, interrupt_handler, step, run, send_interrupted,
}
use echo_bot.CdcAcm.Calls.{
  given, given-append, round_bytes, event_bytes, IsThere, tx_on, tx_on-append, enabling,
  given-enabling, given-filling, tx_on-enabling, tx_on-filling,
}

module _ (ring : ByteRing ring_buf_size) where
  open ring use {Rb, bytes, ring_buf_put, ring_buf_get, bytes-put, count-put, taken-get, bytes-get}

  -- What one stretch of the port's work does.
  record Passes (rb rb' : Rb) (outs : List Out) (offered : List ℕ) : Type 0 where
    flow : Flow ring_buf_size (bytes rb) (bytes rb') (given outs) offered
    awake : (on : Bool) → IsAwake on (bytes rb) → IsAwake (tx_on on outs) (bytes rb')

  Passes-none : (rb : Rb) → Passes rb rb [] []
  Passes-none rb = record { flow = Flow-none (bytes rb); awake = λ on h. h }

  Passes-append :
      {rb rb' rb'' : Rb} {os ps : List Out} {offered more : List ℕ}
      → Passes rb rb' os offered
      → Passes rb' rb'' ps more
      → Passes rb rb'' (os ++ ps) (offered ++ more)
  Passes-append {rb} {rb'} {rb''} {os} {ps} {offered} {more} h k = record {
    flow =
        subst (λ sent. Flow ring_buf_size (bytes rb) (bytes rb'') sent (offered ++ more))
          (sym (given-append os ps)) (Flow-append h.flow k.flow);
    awake = λ on w.
        subst (λ b. IsAwake b (bytes rb'')) (sym (tx_on-append on os ps))
          (k.awake (tx_on on os) (h.awake on w));
  }

  put-Flow :
      (rb : Rb) (src : List ℕ)
      → Flow ring_buf_size (bytes rb) (bytes (ring_buf_put rb src).1) [] src
  put-Flow rb src = rw (bytes-put rb src) (Flow-put (bytes rb) src)

  send_cdc_acm-Passes :
      (rb : Rb) (src : List ℕ) (len : ℕ)
      → len ≤ length src
      → (rb' : Rb) × (outs : List Out) × (send_cdc_acm ring rb src len ≡ ok (rb', outs))
        × Passes rb rb' outs (take len src)
  unfolding send_cdc_acm
  send_cdc_acm-Passes rb src len there =
      let room = ring_buf_size - length (bytes rb) in
      let (wrote, rb') = ring_buf_put rb (take len src) in
      (
        rb',
        enabling wrote,
        rw (read_ok src len there) refl,
        record {
          flow = rw (given-enabling wrote) (put-Flow rb (take len src));
          awake = λ on w.
              rw (tx_on-enabling on wrote, count-put rb (take len src), bytes-put rb (take len src))
                (put-IsAwake on (bytes rb) (take len src) room w);
        },
      )

  rx_bytes-Passes :
      (cs : List ℕ) (rb : Rb)
      → (rb' : Rb) × (outs : List Out) × (rx_bytes ring rb cs ≡ ok (rb', outs))
        × Passes rb rb' outs cs
  unfolding rx_bytes
  rx_bytes-Passes [] rb = (rb, [], refl, Passes-none rb)
  rx_bytes-Passes (c ∷ cs) rb =
      let (rb', os, e, h) = send_cdc_acm-Passes rb (c ∷ []) 1 (omega arith) in
      let (rb'', ps, e', k) = rx_bytes-Passes cs rb' in
      (rb'', os ++ ps, rw (e, e') refl, Passes-append h k)

  transmit-Passes :
      (rb : Rb) (takes : ℕ) → Passes rb (transmit ring rb takes).0 (transmit ring rb takes).1 []
  unfolding transmit
  transmit-Passes rb takes = record {
    flow =
        rw (given-filling (ring_buf_get rb 16).0 takes, taken-get rb 16, bytes-get rb 16)
          (Flow-get (bytes rb) 16);
    awake = λ on w.
        rw (tx_on-filling on (ring_buf_get rb 16).0 takes, taken-get rb 16, bytes-get rb 16)
          (get-IsAwake on (bytes rb) 15 w);
  }

  -- The transmit branch of a round.
  tx_part-Passes :
      (ready : Bool) (rb : Rb) (takes : ℕ)
      → let (rb', outs) = if ready then transmit ring rb takes else (rb, []) in
        Passes rb rb' outs []
  tx_part-Passes true rb takes = transmit-Passes rb takes
  tx_part-Passes false rb takes = Passes-none rb

  handler_round-Passes :
      (r : Round) (rb : Rb)
      → (rb' : Rb) × (outs : List Out) × (handler_round ring rb r ≡ ok (rb', outs))
        × Passes rb rb' outs r.bytes
  unfolding handler_round
  handler_round-Passes r rb =
      let (rb', os, e, h) = rx_bytes-Passes r.bytes rb in
      let k = tx_part-Passes r.tx_ready rb' r.takes in
      (_, _, rw e refl, subst (Passes rb _ _) (append-nil r.bytes) (Passes-append h k))

  interrupt_handler-Passes :
      (rs : List Round) (rb : Rb)
      → (rb' : Rb) × (outs : List Out) × (interrupt_handler ring rb rs ≡ ok (rb', outs))
        × Passes rb rb' outs (round_bytes rs)
  unfolding interrupt_handler
  interrupt_handler-Passes [] rb = (rb, [], refl, Passes-none rb)
  interrupt_handler-Passes (r ∷ rs) rb =
      let (rb', os, e, h) = handler_round-Passes r rb in
      let (rb'', ps, e', k) = interrupt_handler-Passes rs rb' in
      (rb'', os ++ ps, rw (e, e') refl, Passes-append h k)

  -- The interrupt behind a put that has not enabled it yet, an interrupt, and the enabling.
  late-IsAwake :
      {rb rb'' : Rb} {src cs : List ℕ} {outs : List Out} (on : Bool)
      → Passes (ring_buf_put rb src).1 rb'' outs cs
      → IsAwake on (bytes rb)
      → IsAwake (after_put (tx_on on outs) (ring_buf_put rb src).0) (bytes rb'')
  late-IsAwake {rb} {rb''} {src} {cs} {outs} on h w = elim (ℕ_discrete (ring_buf_put rb src).0 0) [
    | no k ↦ inl (ap (λ b. if b then tx_on on outs else true) (ne_zero (ring_buf_put rb src).0 k))
    | yes none ↦
        let room = ring_buf_size - length (bytes rb) in
        let still : IsAwake on (bytes (ring_buf_put rb src).1) = rw (bytes-put rb src) (
          subst (λ n. IsAwake (after_put on n) (bytes rb ++ take room src))
            (sym (count-put rb src) ∙ none) (put-IsAwake on (bytes rb) src room w)) in
        rw none (h.awake on still)
  ]

  send_interrupted-Passes :
      (src : List ℕ) (len : ℕ) (rounds : List Round) (rb : Rb)
      → len ≤ length src
      → (rb' : Rb) × (outs : List Out) × (step ring rb (send_interrupted src len rounds)
          ≡ ok (rb', outs))
        × Passes rb rb' outs (take len src ++ round_bytes rounds)
  unfolding step
  send_interrupted-Passes src len rounds rb there =
      let put = ring_buf_put rb (take len src) in
      let (rb', outs, e, h) = interrupt_handler-Passes rounds put.1 in
      (
        rb',
        outs ++ enabling put.0,
        rw (read_ok src len there, e),
        record {
          flow =
              rw (given-append outs (enabling put.0), given-enabling put.0, append-nil (given outs))
                (Flow-append (put-Flow rb (take len src)) h.flow);
          awake = λ on w.
              rw (tx_on-append on outs (enabling put.0), tx_on-enabling (tx_on on outs) put.0)
                (late-IsAwake on h w);
        },
      )

  run-Passes :
      (es : List Event) (rb : Rb)
      → All IsThere es
      → (rb' : Rb) × (outs : List Out) × (run ring rb es ≡ ok (rb', outs))
        × Passes rb rb' outs (event_bytes es)
  unfolding run step
  run-Passes [] rb there = (rb, [], refl, Passes-none rb)
  run-Passes (interrupt rounds ∷ es) rb there =
      let (rb', os, e, h) = interrupt_handler-Passes rounds rb in
      let (rb'', ps, e', k) = run-Passes es rb' there.1 in
      (rb'', os ++ ps, rw (e, e') refl, Passes-append h k)
  run-Passes (send_interrupted src len rounds ∷ es) rb there =
      let (rb', os, e, h) = send_interrupted-Passes src len rounds rb there.0 in
      let (rb'', ps, e', k) = run-Passes es rb' there.1 in
      (rb'', os ++ ps, rw (e, e') refl, Passes-append h k)
  run-Passes (send src len ∷ es) rb there =
      let (rb', os, e, h) = send_cdc_acm-Passes rb src len there.0 in
      let (rb'', ps, e', k) = run-Passes es rb' there.1 in
      (rb'', os ++ ps, rw (e, e') refl, Passes-append h k)

  -- On calls of `send_cdc_acm` with no more bytes than there are, in any order with interrupts, also
  -- with one between the ring_buf_put and the uart_irq_tx_enable of such a call, from a state where no
  -- byte waits with the transmit interrupt off: nothing faults. The bytes given to the UART and then
  -- those that wait are the bytes that waited before and then bytes received or sent, in order, of
  -- which at least as many as had room at first are there: what fits the buffer is not lost. And still
  -- no byte waits with the transmit interrupt off: the port never stalls with bytes to send.
  pub run-Flow :
      (es : List Event) (rb : Rb) (on : Bool)
      → All IsThere es
      → IsAwake on (bytes rb)
      → (rb' : Rb) × (outs : List Out) × (run ring rb es ≡ ok (rb', outs))
        × Flow ring_buf_size (bytes rb) (bytes rb') (given outs) (event_bytes es)
        × IsAwake (tx_on on outs) (bytes rb')
  run-Flow es rb on there w =
      let (rb', outs, e, h) = run-Passes es rb there in (rb', outs, e, h.flow, h.awake on w)
