-- ===== src/CdcAcm/Drain.antt =====
-- How the port empties its buffer.
use echo_bot.Prelude.{
  suc_ne, ℕ, ◌+◌, ◌*◌, ◌≤◌, ◌≡◌, refl, sym, ap, ◌∙◌, Bool, true, false, List, [], ◌∷◌, ◌++◌,
  append-nil, arith, ok, length, length-drop, length-take, ◌<◌, take, drop, take-append-drop, map,
}
use echo_bot.Zephyr.ByteRing.{ByteRing}
use echo_bot.CdcAcm.{
  ring_buf_size, Out, uart_irq_tx_enable, uart_irq_tx_disable, uart_fifo_fill, Round, rx_bytes,
  transmit, handler_round, interrupt_handler,
}
use echo_bot.CdcAcm.Calls.{given, given-append, given-filling, filling, tx_on, tx_on-append}

-- A round with nothing received and room to send.
abbrev pub idle : ℕ → Round
idle takes = record { bytes = []; tx_ready = true; takes = takes }

-- The bytes that uart_fifo_fill took.
abbrev pub taken : List Out → List ℕ
taken [] = []
taken (uart_irq_tx_enable ∷ os) = taken os
taken (uart_irq_tx_disable ∷ os) = taken os
taken (uart_fifo_fill buf takes ∷ os) = take takes buf ++ taken os

taken-filling : (buf : List ℕ) (takes : ℕ) → length (taken (filling buf takes)) ≤ takes
taken-filling [] takes = omega arith
taken-filling (c ∷ buf) takes =
    rw (suc_ne (length buf), append-nil (take takes (c ∷ buf)))
      (omega (arith, length-take takes (c ∷ buf)))

empty_of_length : (xs : List ℕ) → length xs ≡ 0 → xs ≡ []
empty_of_length [] h = refl
empty_of_length (x ∷ xs) h = absurd (omega arith)

module _ (ring : ByteRing ring_buf_size) where
  open ring use {Rb, bytes, ring_buf_get, taken-get, bytes-get}

  round_idle :
      (rb : Rb) (takes : ℕ) → handler_round ring rb (idle takes) ≡ ok (transmit ring rb takes)
  unfolding handler_round rx_bytes
  round_idle rb takes = refl

  given-transmit : (rb : Rb) (takes : ℕ) → given (transmit ring rb takes).1 ≡ take 16 (bytes rb)
  unfolding transmit
  given-transmit rb takes = given-filling (ring_buf_get rb 16).0 takes ∙ taken-get rb 16

  bytes-transmit : (rb : Rb) (takes : ℕ) → bytes (transmit ring rb takes).0 ≡ drop 16 (bytes rb)
  unfolding transmit
  bytes-transmit rb takes = bytes-get rb 16

  tx_on-transmit :
      (on : Bool) (rb : Rb) (takes : ℕ)
      → bytes rb ≡ []
      → tx_on on (transmit ring rb takes).1 ≡ false
  unfolding transmit
  tx_on-transmit on rb takes e = rw (taken-get rb 16, e) refl

  taken-transmit : (rb : Rb) (takes : ℕ) → length (taken (transmit ring rb takes).1) ≤ takes
  unfolding transmit
  taken-transmit rb takes = taken-filling (ring_buf_get rb 16).0 takes

  -- When nothing more comes, as many rounds with room to send as the waiting bytes fill by sixteen, and
  -- one more, give all of them to the UART in order, empty the buffer and switch the transmit interrupt
  -- off.
  pub interrupt_handler_drains :
      (counts : List ℕ) (last : ℕ) (rb : Rb) (on : Bool)
      → length (bytes rb) ≤ 16 * length counts
      → (rb' : Rb) × (outs : List Out) × (interrupt_handler ring rb (map idle (counts ++ last ∷ []))
          ≡ ok (rb', outs))
        × (given outs ≡ bytes rb)
        × (bytes rb' ≡ [])
        × (tx_on on outs ≡ false)
  unfolding interrupt_handler
  interrupt_handler_drains [] last rb on h =
      let e = empty_of_length (bytes rb) (omega arith) in
      (
        (transmit ring rb last).0,
        (transmit ring rb last).1 ++ [],
        rw (round_idle rb last) refl,
        rw (append-nil (transmit ring rb last).1) (given-transmit rb last ∙ ap (take 16) e ∙ sym e),
        bytes-transmit rb last ∙ ap (drop 16) e,
        rw (append-nil (transmit ring rb last).1) (tx_on-transmit on rb last e),
      )
  interrupt_handler_drains (takes ∷ counts) last rb on h =
      let rb1 = (transmit ring rb takes).0 in
      let os = (transmit ring rb takes).1 in
      let (rb', ps, e, all, none_left, off) =
        interrupt_handler_drains counts last rb1 (tx_on on os)
          (omega (arith, ap length (bytes-transmit rb takes), length-drop 16 (bytes rb))) in
      (
        rb',
        os ++ ps,
        rw (round_idle rb takes, e) refl,
        given-append os ps
            ∙ ap (λ t. t ++ given ps) (given-transmit rb takes)
            ∙ ap (λ t. take 16 (bytes rb) ++ t) (all ∙ bytes-transmit rb takes)
            ∙ take-append-drop 16 (bytes rb),
        none_left,
        tx_on-append on os ps ∙ off,
      )

  -- Where uart_fifo_fill takes fewer bytes than it is given, bytes are lost: those that it took and
  -- those that still wait are fewer than those that waited.
  pub transmit_short :
      (rb : Rb) (takes : ℕ)
      → takes < 16
      → takes < length (bytes rb)
      → length (taken (transmit ring rb takes).1) + length (bytes (transmit ring rb takes).0)
        < length (bytes rb)
  transmit_short rb takes h k = omega (
    arith,
    taken-transmit rb takes,
    ap length (bytes-transmit rb takes),
    length-drop 16 (bytes rb),
  )
