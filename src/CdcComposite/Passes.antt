-- ===== src/CdcComposite/Passes.antt =====
-- What one step of the bridge does to the bytes in both directions, and to the transmit interrupts that
-- keep them moving.
use echo_bot.Prelude.{ℕ, ◌≡◌, refl, sym, ◌∙◌, subst, Bool, List, [], ◌++◌, length, some, ok}
use echo_bot.Zephyr.ByteRing.{ByteRing}
use echo_bot.Zephyr.ByteRing.Flow.{Flow, Flow-none, Flow-append, Flow-put, Flow-get}
use echo_bot.Zephyr.ByteRing.Awake.{IsAwake, after_put, after_get, put-IsAwake, get-IsAwake}
use echo_bot.CdcComposite.{
  ring_buf_size, Port, port0, port1, Peers, Out, peer, user_data, set_rb, transmit,
}
use echo_bot.CdcComposite.Bridge.{across, IsBridge}
use echo_bot.CdcComposite.Calls.{
  at_port, given, given-append, given-enabling, filling, given-filling, tx_on, tx_on-append,
  tx_on-enabling, tx_on-filling, enabling,
}

module _ (ring : ByteRing ring_buf_size) where
  open ring use {Rb, bytes, ring_buf_put, ring_buf_get, bytes-put, count-put, taken-get, bytes-get}

  -- The bytes that wait to be sent by the device e.
  abbrev pub waiting : Port → Peers Rb → List ℕ
  waiting e ps = bytes (peer ps (across e)).rb

  other-set_rb :
      (ps : Peers Rb) (q p : Port) (rb : Rb) → (peer (set_rb ps q rb) p).other ≡ (peer ps p).other
  other-set_rb ps port0 port0 rb = refl
  other-set_rb ps port0 port1 rb = refl
  other-set_rb ps port1 port0 rb = refl
  other-set_rb ps port1 port1 rb = refl

  user_data-set_rb :
      (ps : Peers Rb) (q d : Port) (rb : Rb) → user_data (set_rb ps q rb) d ≡ user_data ps d
  user_data-set_rb ps port0 port0 rb = refl
  user_data-set_rb ps port0 port1 rb = refl
  user_data-set_rb ps port1 port0 rb = refl
  user_data-set_rb ps port1 port1 rb = refl

  set_rb-IsBridge : {ps : Peers Rb} (q : Port) (rb : Rb) → IsBridge ps → IsBridge (set_rb ps q rb)
  set_rb-IsBridge {ps} q rb h = record {
    crossed = λ p. other-set_rb ps q p rb ∙ h.crossed p;
    handed = λ d. user_data-set_rb ps q d rb ∙ h.handed d;
  }

  -- What one stretch of the bridge's work does, with the bytes `came` to each device.
  pub record Passes (ps ps' : Peers Rb) (outs : List Out) (came : Port → List ℕ) : Type 0 where
    pub bridge : IsBridge ps'
    pub flow :
        (e : Port)
        → Flow ring_buf_size (waiting e ps) (waiting e ps') (given e outs) (came (across e))
    pub awake :
        (e : Port) (on : Bool)
        → IsAwake on (waiting e ps)
        → IsAwake (tx_on e on outs) (waiting e ps')

  pub Passes-none : (ps : Peers Rb) → IsBridge ps → Passes ps ps [] (λ d. [])
  Passes-none ps h = record {
    bridge = h;
    flow = λ e. Flow-none (waiting e ps);
    awake = λ e on w. w;
  }

  pub Passes-append :
      {ps ps' ps'' : Peers Rb} {os outs : List Out} {came more : Port → List ℕ}
      → Passes ps ps' os came
      → Passes ps' ps'' outs more
      → Passes ps ps'' (os ++ outs) (λ d. came d ++ more d)
  Passes-append {ps} {ps'} {ps''} {os} {outs} {came} {more} h k = record {
    bridge = k.bridge;
    flow = λ e.
        subst
          (λ sent.
            Flow ring_buf_size (waiting e ps) (waiting e ps'') sent
              (came (across e) ++ more (across e)))
          (sym (given-append e os outs)) (Flow-append (h.flow e) (k.flow e));
    awake = λ e on w.
        subst (λ b. IsAwake b (waiting e ps'')) (sym (tx_on-append e on os outs))
          (k.awake e (tx_on e on os) (h.awake e on w));
  }

  pub Passes-of_eq :
      {ps ps' : Peers Rb} {outs : List Out} {came more : Port → List ℕ}
      → ((p : Port) → came p ≡ more p)
      → Passes ps ps' outs came
      → Passes ps ps' outs more
  Passes-of_eq {ps} {ps'} {outs} e h = record {
    bridge = h.bridge;
    flow = λ d.
        subst (Flow ring_buf_size (waiting d ps) (waiting d ps') (given d outs)) (e (across d))
          (h.flow d);
    awake = h.awake;
  }

  put-Flow :
      (ps : Peers Rb) (d e : Port) (src : List ℕ)
      → Flow ring_buf_size
          (waiting e ps)
          (waiting e (set_rb ps d (ring_buf_put (peer ps d).rb src).1))
          []
          (at_port (across e) d src [])
  put-Flow ps port0 port0 src = Flow-none (waiting port0 ps)
  put-Flow ps port0 port1 src = rw (bytes-put ps.peer0.rb src) (Flow-put (bytes ps.peer0.rb) src)
  put-Flow ps port1 port0 src = rw (bytes-put ps.peer1.rb src) (Flow-put (bytes ps.peer1.rb) src)
  put-Flow ps port1 port1 src = Flow-none (waiting port1 ps)

  put-IsAwake-across :
      (ps : Peers Rb) (d e : Port) (src : List ℕ) (on : Bool)
      → IsAwake on (waiting e ps)
      → let (wrote, rb) = ring_buf_put (peer ps d).rb src in
        IsAwake (at_port e (across d) (after_put on wrote) on) (waiting e (set_rb ps d rb))
  put-IsAwake-across ps port0 port0 src on w = w
  put-IsAwake-across ps port0 port1 src on w =
      rw (count-put ps.peer0.rb src, bytes-put ps.peer0.rb src) (put-IsAwake on _ src _ w)
  put-IsAwake-across ps port1 port0 src on w =
      rw (count-put ps.peer1.rb src, bytes-put ps.peer1.rb src) (put-IsAwake on _ src _ w)
  put-IsAwake-across ps port1 port1 src on w = w

  -- Bytes put in the buffer of the device that they came to go to the other.
  pub put-Passes :
      (ps : Peers Rb) (d : Port) (src : List ℕ)
      → IsBridge ps
      → let (wrote, rb) = ring_buf_put (peer ps d).rb src in
        Passes ps (set_rb ps d rb) (enabling (across d) wrote) (λ p. at_port p d src [])
  put-Passes ps d src h = record {
    bridge = set_rb-IsBridge d _ h;
    flow = λ e.
        rw (given-enabling e (across d) (ring_buf_put (peer ps d).rb src).0) (put-Flow ps d e src);
    awake = λ e on w.
        rw (tx_on-enabling e (across d) on (ring_buf_put (peer ps d).rb src).0)
          (put-IsAwake-across ps d e src on w);
  }

  pub Passes-silent :
      {ps : Peers Rb} (d : Port) → IsBridge ps → Passes ps ps [] (λ p. at_port p d [] [])
  Passes-silent {ps} d h = record { bridge = h; flow = λ e. silent_flow d e; awake = λ e on w. w }
    where
      silent_flow :
          (d e : Port)
          → Flow ring_buf_size (waiting e ps) (waiting e ps) [] (at_port (across e) d [] [])
      silent_flow port0 port0 = Flow-none (waiting port0 ps)
      silent_flow port0 port1 = Flow-none (waiting port1 ps)
      silent_flow port1 port0 = Flow-none (waiting port0 ps)
      silent_flow port1 port1 = Flow-none (waiting port1 ps)

  get-Flow :
      (ps : Peers Rb) (d e : Port)
      → Flow ring_buf_size
          (waiting e ps)
          (waiting e (set_rb ps (across d) (ring_buf_get (peer ps (across d)).rb 64).1))
          (at_port e d (ring_buf_get (peer ps (across d)).rb 64).0 [])
          []
  get-Flow ps port0 port0 =
      rw (taken-get ps.peer1.rb 64, bytes-get ps.peer1.rb 64) (Flow-get (bytes ps.peer1.rb) 64)
  get-Flow ps port0 port1 = Flow-none (waiting port1 ps)
  get-Flow ps port1 port0 = Flow-none (waiting port0 ps)
  get-Flow ps port1 port1 =
      rw (taken-get ps.peer0.rb 64, bytes-get ps.peer0.rb 64) (Flow-get (bytes ps.peer0.rb) 64)

  get-IsAwake-across :
      (ps : Peers Rb) (d e : Port) (on : Bool)
      → IsAwake on (waiting e ps)
      → let (buf, rb) = ring_buf_get (peer ps (across d)).rb 64 in
        IsAwake (at_port e d (after_get on (length buf)) on) (waiting e (set_rb ps (across d) rb))
  get-IsAwake-across ps port0 port0 on w =
      rw (taken-get ps.peer1.rb 64, bytes-get ps.peer1.rb 64) (get-IsAwake on _ 63 w)
  get-IsAwake-across ps port0 port1 on w = w
  get-IsAwake-across ps port1 port0 on w = w
  get-IsAwake-across ps port1 port1 on w =
      rw (taken-get ps.peer0.rb 64, bytes-get ps.peer0.rb 64) (get-IsAwake on _ 63 w)

  pub transmit-Passes :
      (ps : Peers Rb) (d : Port) (takes : ℕ)
      → IsBridge ps
      → (ps' : Peers Rb) × (outs : List Out) × (transmit ring ps d (some (across d)) takes
          ≡ ok (ps', outs))
        × Passes ps ps' outs (λ p. [])
  unfolding transmit
  transmit-Passes ps d takes h =
      let (buf, rb) = ring_buf_get (peer ps (across d)).rb 64 in
      (
        set_rb ps (across d) rb,
        filling d buf takes,
        refl,
        record {
          bridge = set_rb-IsBridge (across d) _ h;
          flow = λ e. rw (given-filling e d buf takes) (get-Flow ps d e);
          awake = λ e on w. rw (tx_on-filling e d on buf takes) (get-IsAwake-across ps d e on w);
        },
      )
