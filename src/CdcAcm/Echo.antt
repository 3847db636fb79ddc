-- ===== src/CdcAcm/Echo.antt =====
-- The port from its empty buffer until it is empty again.
use echo_bot.Prelude.{
  ℕ, ◌*◌, ◌≤◌, ◌≡◌, ap, ◌∙◌, inr, false, List, [], ◌∷◌, ◌++◌, map, arith, ok, length, length-append,
  All,
}
use echo_bot.Zephyr.ByteRing.{ByteRing}
use echo_bot.Zephyr.ByteRing.Flow.{lossless}
use echo_bot.CdcAcm.{ring_buf_size, Out, Event, interrupt_handler, run}
use echo_bot.CdcAcm.Calls.{given, given-append, event_bytes, IsThere, tx_on, tx_on-append}
use echo_bot.CdcAcm.Stream.{run-Flow}
use echo_bot.CdcAcm.Drain.{idle, interrupt_handler_drains}

module _ (ring : ByteRing ring_buf_size) where
  open ring use {Rb, bytes, ring_buf_init, bytes-init}

  -- From the initialised buffer and with the transmit interrupt off, let at most 256 bytes in all come
  -- in interrupts and in calls of `send_cdc_acm` with no more bytes than there are, in any order, also
  -- with an interrupt inside such a call. Then let an interrupt come that finds room to send as often
  -- as these bytes fill sixteen, and once more. Nothing faults; the UART is given exactly the bytes
  -- that came, in order, the buffer is empty and the transmit interrupt off.
  pub run-interrupt_handler :
      (es : List Event) (counts : List ℕ) (last : ℕ)
      → All IsThere es
      → length (event_bytes es) ≤ ring_buf_size
      → length (event_bytes es) ≤ 16 * length counts
      → (rb rb' : Rb) × (outs more : List Out) × (run ring ring_buf_init es ≡ ok (rb, outs))
        × (interrupt_handler ring rb (map idle (counts ++ last ∷ [])) ≡ ok (rb', more))
        × (given (outs ++ more) ≡ event_bytes es)
        × (bytes rb' ≡ [])
        × (tx_on false (outs ++ more) ≡ false)
  run-interrupt_handler es counts last there fits few =
      let (rb, outs, e, flow, awake) =
        run-Flow ring es ring_buf_init false there (inr bytes-init) in
      let all : given outs ++ bytes rb ≡ event_bytes es =
        lossless flow (omega (arith, ap length bytes-init))
        ∙ ap (λ l. l ++ event_bytes es) bytes-init in
      let (rb', more, e', rest, none_left, off) =
        interrupt_handler_drains ring counts last rb (tx_on false outs)
          (omega (arith, ap length all, length-append (given outs) (bytes rb))) in
      (
        rb,
        rb',
        outs,
        more,
        e,
        e',
        given-append outs more ∙ ap (λ l. given outs ++ l) rest ∙ all,
        none_left,
        tx_on-append false outs more ∙ off,
      )
