-- ===== src/CdcComposite/Stream.antt =====
-- The bytes that pass through the bridge in its two directions, and the transmit interrupts that keep
-- them moving.
use echo_bot.Prelude.{
  ℕ, ◌+◌, ◌≤◌, ◌≡◌, refl, ap, ◌∙◌, Bool, true, false, some, List, [], ◌∷◌, ◌++◌, arith,
  if◌then◌else◌, ok, length, length-append, drop, All, read_ok, copy_in_ok, take-append,
}
use echo_bot.Zephyr.ByteRing.{ByteRing}
use echo_bot.Zephyr.ByteRing.Flow.{Flow, lossless}
use echo_bot.Zephyr.ByteRing.Awake.{IsAwake}
use echo_bot.CdcComposite.{
  ring_buf_size, Port, port0, port1, Peers, Out, Received, nothing_ready, read_failed, delivered,
  Round, peer, fifo_read, receive, transmit, handler_rounds, interrupt_handler, run,
}
use echo_bot.CdcComposite.Passes.{
  waiting, Passes, Passes-none, Passes-append, put-Passes, Passes-silent, transmit-Passes,
  Passes-of_eq,
}
use echo_bot.CdcComposite.Bridge.{across, IsBridge, connect, connect-IsBridge, bytes-connect}
use echo_bot.CdcComposite.Calls.{
  at_port, given, tx_on, bytes_of, round_bytes, offered, IsShort, IsShortCall,
}

fifo_read_ok :
    (stack : List ℕ) (got : Received)
    → length (bytes_of got) ≤ length stack
    → fifo_read stack got ≡ ok (bytes_of got)
unfolding fifo_read
fifo_read_ok stack nothing_ready h = refl
fifo_read_ok stack read_failed h = refl
fifo_read_ok stack (delivered bs) h =
    rw
      (
        copy_in_ok stack 0 bs (omega arith),
        ap (λ n. drop n stack) {x = 0 + length bs} {y = length bs} (omega arith),
      )
      (read_ok (bs ++ drop (length bs) stack) (length bs)
          (omega (arith, length-append bs (drop (length bs) stack)))
        ∙ ap ok (take-append bs (drop (length bs) stack)))

at_port-append :
    (p d : Port) (a b : List ℕ)
    → at_port p d a [] ++ ([] ++ at_port p d b []) ≡ at_port p d (a ++ b) []
at_port-append port0 port0 a b = refl
at_port-append port0 port1 a b = refl
at_port-append port1 port0 a b = refl
at_port-append port1 port1 a b = refl

module _ (ring : ByteRing ring_buf_size) where
  open ring use {Rb, bytes, ring_buf_put, ring_buf_get}

  across-across : (d : Port) → across (across d) ≡ d
  across-across port0 = refl
  across-across port1 = refl

  points_back : {ps : Peers Rb} (d : Port) → IsBridge ps → (peer ps (across d)).other ≡ some d
  points_back d h = h.crossed (across d) ∙ ap some (across-across d)

  receive-Passes :
      (stack : List ℕ) (ps : Peers Rb) (d : Port) (got : Received)
      → length stack ≡ 64
      → length (bytes_of got) ≤ 64
      → IsBridge ps
      → (ps' : Peers Rb) × (outs : List Out) × (receive ring stack ps (some (across d)) got
          ≡ ok (ps', outs))
        × Passes ring ps ps' outs (λ p. at_port p d (bytes_of got) [])
  unfolding receive
  receive-Passes stack ps d nothing_ready size short h = (ps, [], refl, Passes-silent ring d h)
  receive-Passes stack ps d read_failed size short h = (
    _,
    _,
    rw (points_back d h, fifo_read_ok stack read_failed (omega arith)) refl,
    put-Passes ring ps d [] h,
  )
  receive-Passes stack ps d (delivered bs) size short h = (
    _,
    _,
    rw (points_back d h, fifo_read_ok stack (delivered bs) (omega arith)) refl,
    put-Passes ring ps d bs h,
  )

  -- The transmit branch of a round.
  tx_part-Passes :
      (ready : Bool) (ps : Peers Rb) (d : Port) (takes : ℕ)
      → IsBridge ps
      → (ps' : Peers Rb) × (outs : List Out) × ((if ready
            then transmit ring ps d (some (across d)) takes
            else ok (ps, []))
          ≡ ok (ps', outs))
        × Passes ring ps ps' outs (λ p. [])
  tx_part-Passes true ps d takes h = transmit-Passes ring ps d takes h
  tx_part-Passes false ps d takes h = (ps, [], refl, Passes-none ring ps h)

  module _ (stack : List ℕ) (size : length stack ≡ 64) where
    handler_rounds-Passes :
        (rs : List Round) (ps : Peers Rb) (d : Port)
        → All IsShort rs
        → IsBridge ps
        → (ps' : Peers Rb) × (outs : List Out) × (handler_rounds ring stack ps d
              (some (across d))
              rs
            ≡ ok (ps', outs))
          × Passes ring ps ps' outs (λ p. at_port p d (round_bytes rs) [])
    unfolding handler_rounds
    handler_rounds-Passes [] ps d short h = (ps, [], refl, Passes-silent ring d h)
    handler_rounds-Passes (r ∷ rs) ps d short h =
        let (ps', os, e, f) = receive-Passes stack ps d r.received size short.0 h in
        let (ps'', more, e2, g) = tx_part-Passes r.tx_ready ps' d r.takes f.bridge in
        let (ps3, outs, e', k) = handler_rounds-Passes rs _ d short.1 g.bridge in
        (
          ps3,
          _,
          rw (e, e2, e') refl,
          Passes-of_eq ring (λ p. at_port-append p d (bytes_of r.received) (round_bytes rs))
              (Passes-append ring f (Passes-append ring g k)),
        )

    interrupt_handler-Passes :
        (ps : Peers Rb) (d : Port) (rs : List Round)
        → All IsShort rs
        → IsBridge ps
        → (ps' : Peers Rb) × (outs : List Out) × (interrupt_handler ring stack ps d rs
            ≡ ok (ps', outs))
          × Passes ring ps ps' outs (λ p. at_port p d (round_bytes rs) [])
    unfolding interrupt_handler
    interrupt_handler-Passes ps d rs short h =
        let (ps', outs, e, k) = handler_rounds-Passes rs ps d short h in
        (ps', outs, rw (h.handed d) e, k)

    run-Passes :
        (is : List (Port × List Round)) (ps : Peers Rb)
        → All IsShortCall is
        → IsBridge ps
        → (ps' : Peers Rb) × (outs : List Out) × (run ring stack ps is ≡ ok (ps', outs))
          × Passes ring ps ps' outs (λ p. offered p is)
    unfolding run
    run-Passes [] ps short h = (ps, [], refl, Passes-none ring ps h)
    run-Passes ((d, rounds) ∷ is) ps short h =
        let (ps', os, e, f) = interrupt_handler-Passes ps d rounds short.0 h in
        let (ps'', outs, e', k) = run-Passes is ps' short.1 f.bridge in
        (ps'', os ++ outs, rw (e, e') refl, Passes-append ring f k)

    -- Of two connected ports whose reads deliver at most the 64 bytes that they are asked for, where no
    -- byte waits for a device whose transmit interrupt is off, in any order of interrupts: nothing
    -- faults and they stay connected. In each direction, the bytes given to a device and then those
    -- that wait for it are the bytes that waited before and then bytes that came to the other device,
    -- in order, of which at least as many as had room at first are there. And still no byte waits for
    -- a device whose transmit interrupt is off: neither direction stalls.
    pub run-IsBridge :
        (is : List (Port × List Round)) (ps : Peers Rb) (on : Port → Bool)
        → All IsShortCall is
        → IsBridge ps
        → ((e : Port) → IsAwake (on e) (waiting ring e ps))
        → (ps' : Peers Rb) × (outs : List Out) × (run ring stack ps is ≡ ok (ps', outs))
          × IsBridge ps'
          × ((e : Port)
              → Flow ring_buf_size
                  (waiting ring e ps)
                  (waiting ring e ps')
                  (given e outs)
                  (offered (across e) is))
          × ((e : Port) → IsAwake (tx_on e (on e) outs) (waiting ring e ps'))
    run-IsBridge is ps on short h w =
        let (ps', outs, e, k) = run-Passes is ps short h in
        (ps', outs, e, k.bridge, k.flow, λ d. k.awake d (on d) (w d))

    -- From the moment that `threadA` has connected the ports, as long as no more than 128 bytes have come to
    -- a device, all of them go to the other in order: the bytes given to it and then those that wait
    -- for it are those that came. The reads deliver at most the 64 bytes that they are asked for.
    pub connect_lossless :
        (is : List (Port × List Round)) (ps : Peers Rb) (e : Port)
        → All IsShortCall is
        → length (offered (across e) is) ≤ 128
        → (ps' : Peers Rb) × (outs : List Out) × (run ring stack (connect ring ps) is
            ≡ ok (ps', outs))
          × (given e outs ++ waiting ring e ps' ≡ offered (across e) is)
    connect_lossless is ps e short room =
        let (ps', outs, e', k) = run-Passes is (connect ring ps) short (connect-IsBridge ring ps) in
        let none = bytes-connect ring ps (across e) in
        (
          ps',
          outs,
          e',
          lossless (k.flow e) (omega (arith, ap length none))
              ∙ ap (λ t. t ++ offered (across e) is) none,
        )
