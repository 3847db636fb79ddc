-- ===== src/CdcComposite/Bridge.antt =====
-- How the two ports are connected: the thread that waits for both hosts and then crosses the peers.
use echo_bot.Prelude.{
  ℕ, zero, suc, ◌≡◌, refl, sym, ap, ◌∙◌, inl, inr, Bool, Bool-cases, true, false, ◌&&◌, not, some,
  List, [], ◌∷◌, ◌++◌, append-nil, ◌==◌, if◌then◌else◌, suc_ne, ◌||◌,
}
use echo_bot.Prelude.Int.{ℤ}
use echo_bot.Zephyr.Errno.{is_error}
use echo_bot.Zephyr.ByteRing.{ByteRing}
use echo_bot.Zephyr.LineControl.{any_set}
use echo_bot.CdcComposite.{ring_buf_size, Port, port0, port1, Peers, peer, user_data}

-- The calls that change the USB or a UART, and the waits.
pub data SetupCall : Type 0 where
  usb_enable k_sleep k_busy_wait : SetupCall
  set_dcd set_dsr uart_irq_rx_enable : Port → SetupCall

abbrev pub all_ready : List Bool → Bool
all_ready [] = true
all_ready (ready ∷ rest) = ready && all_ready rest

-- The loop that waits for DTR, on what uart_line_ctrl_get reads each time: whether it ends.
unfoldable pub wait_dtr : List ℕ → Bool × List SetupCall
wait_dtr [] = (false, [])
wait_dtr (dtr ∷ dtrs) =
    let (set, calls) = wait_dtr dtrs in if dtr == 0 then (set, k_sleep ∷ calls) else (true, [])

-- What uart_line_ctrl_set returns and the baud rate are only logged.
abbrev pub uart_line_set : Port → List SetupCall
uart_line_set p = set_dcd p ∷ set_dsr p ∷ k_busy_wait ∷ []

module _ (ring : ByteRing ring_buf_size) where
  open ring use {Rb, ring_buf_init}

  -- The assignments, in the order of the code.
  unfoldable pub connect : Peers Rb → Peers Rb
  connect ps =
      let ps1 = record ps { peer0 = record ps.peer0 { other = some port1 } } in
      let ps2 = record ps1 { peer1 = record ps1.peer1 { other = some port0 } } in
      let ps3 = record ps2 { peer0 = record ps2.peer0 { rb = ring_buf_init } } in
      let ps4 = record ps3 { peer1 = record ps3.peer1 { rb = ring_buf_init } } in
      let ps5 = record ps4 { user_data1 = some port0 } in record ps5 { user_data0 = some port1 }

  -- `threadA`: whether each device is ready, what usb_enable returns, and the DTR of the two hosts.
  unfoldable pub thread_a : List Bool → ℤ → List ℕ → List ℕ → Peers Rb → Peers Rb × List SetupCall
  thread_a ready usb dtrs0 dtrs1 ps =
      if not (all_ready ready)
      then (ps, [])
      else if is_error usb
      then (ps, usb_enable ∷ [])
      else (let (set0, calls0) = wait_dtr dtrs0 in
          let (set1, calls1) = wait_dtr dtrs1 in
          if not set0
          then (ps, usb_enable ∷ calls0)
          else if not set1
          then (ps, usb_enable ∷ (calls0 ++ calls1))
          else (
            connect ps,
            usb_enable
                ∷ (calls0
                    ++ (calls1
                        ++ (uart_line_set port0
                            ++ (uart_line_set port1
                                ++ uart_irq_rx_enable port0 ∷ uart_irq_rx_enable port1 ∷ [])))),
          ))

-- The other port.
abbrev pub across : Port → Port
across port0 = port1
across port1 = port0

-- Each peer points to the other, and the interrupt of a device gets the other's peer.
pub record IsBridge {Rb : Type 0} (ps : Peers Rb) : Type 0 where
  pub crossed : (p : Port) → (peer ps p).other ≡ some (across p)
  pub handed : (d : Port) → user_data ps d ≡ some (across d)

abbrev same_port : Port → Port → Bool
same_port port0 port0 = true
same_port port1 port1 = true
same_port _ _ = false

-- Whether the receive interrupt of this port is enabled.
abbrev pub receives : Port → List SetupCall → Bool
receives p [] = false
receives p (uart_irq_rx_enable q ∷ cs) = same_port p q || receives p cs
receives p (_ ∷ cs) = receives p cs

set-wait_dtr : (dtrs : List ℕ) → (wait_dtr dtrs).0 ≡ any_set dtrs
unfolding wait_dtr
set-wait_dtr [] = refl
set-wait_dtr (zero ∷ dtrs) = set-wait_dtr dtrs
set-wait_dtr (suc n ∷ dtrs) = rw (suc_ne n) refl

receives-wait_dtr :
    (p : Port) (dtrs : List ℕ) (cs : List SetupCall)
    → receives p ((wait_dtr dtrs).1 ++ cs) ≡ receives p cs
unfolding wait_dtr
receives-wait_dtr p [] cs = refl
receives-wait_dtr p (zero ∷ dtrs) cs = receives-wait_dtr p dtrs cs
receives-wait_dtr p (suc n ∷ dtrs) cs = simp (suc_ne n)

receives-wait_alone : (p : Port) (dtrs : List ℕ) → receives p (wait_dtr dtrs).1 ≡ false
receives-wait_alone p dtrs =
    ap (receives p) (sym (append-nil (wait_dtr dtrs).1)) ∙ receives-wait_dtr p dtrs []

-- What both ports do at the end.
abbrev last_calls : List SetupCall
last_calls =
    uart_line_set port0
    ++ (uart_line_set port1 ++ uart_irq_rx_enable port0 ∷ uart_irq_rx_enable port1 ∷ [])

receives-last_calls : (p : Port) → receives p last_calls ≡ true
receives-last_calls port0 = refl
receives-last_calls port1 = refl

module _ (ring : ByteRing ring_buf_size) where
  open ring use {Rb, bytes, bytes-init}

  connect-crossed : (ps : Peers Rb) (p : Port) → (peer (connect ring ps) p).other ≡ some (across p)
  unfolding connect
  connect-crossed ps port0 = refl
  connect-crossed ps port1 = refl

  connect-handed : (ps : Peers Rb) (d : Port) → user_data (connect ring ps) d ≡ some (across d)
  unfolding connect
  connect-handed ps port0 = refl
  connect-handed ps port1 = refl

  pub bytes-connect : (ps : Peers Rb) (p : Port) → bytes (peer (connect ring ps) p).rb ≡ []
  unfolding connect
  bytes-connect ps port0 = bytes-init
  bytes-connect ps port1 = bytes-init

  pub connect-IsBridge : (ps : Peers Rb) → IsBridge (connect ring ps)
  connect-IsBridge ps = record { crossed = connect-crossed ps; handed = connect-handed ps }

  thread_a_runs :
      (ready : List Bool) (usb : ℤ) (dtrs0 dtrs1 : List ℕ) (ps : Peers Rb)
      → let (ps', calls) = thread_a ring ready usb dtrs0 dtrs1 ps in
        let starts = all_ready ready && (not (is_error usb) && (any_set dtrs0 && any_set dtrs1)) in
        ((p : Port) → receives p calls ≡ starts) × (ps' ≡ (if starts then connect ring ps else ps))
  unfolding thread_a
  thread_a_runs ready usb dtrs0 dtrs1 ps = elim (Bool-cases (all_ready ready)) [
    | inr e ↦ rw e (λ p. refl, refl)
    | inl e ↦ elim (Bool-cases (is_error usb)) [
      | inl e' ↦ rw (e, e') (λ p. refl, refl)
      | inr e' ↦ elim (Bool-cases (any_set dtrs0)) [
        | inr f ↦ rw (e, e', set-wait_dtr dtrs0, f) (λ p. receives-wait_alone p dtrs0, refl)
        | inl f ↦ elim (Bool-cases (any_set dtrs1)) [
          | inr f' ↦
              rw (e, e', set-wait_dtr dtrs0, f, set-wait_dtr dtrs1, f')
                (
                  λ p. receives-wait_dtr p dtrs0 (wait_dtr dtrs1).1 ∙ receives-wait_alone p dtrs1,
                  refl,
                )
          | inl f' ↦
              rw (e, e', set-wait_dtr dtrs0, f, set-wait_dtr dtrs1, f')
                (
                  λ p.
                      receives-wait_dtr p dtrs0 _
                      ∙ receives-wait_dtr p dtrs1 last_calls
                      ∙ receives-last_calls p,
                  refl,
                )
        ]
      ]
    ]
  ]

  -- Each of the two ports starts to receive exactly when all devices are ready, the USB is enabled and both hosts set
  -- DTR. Then, and only then, the peers are changed: each points to the other, the interrupt of each
  -- device is handed the other's peer, and both ring buffers are empty.
  pub thread_a_lem :
      (ready : List Bool) (usb : ℤ) (dtrs0 dtrs1 : List ℕ) (ps : Peers Rb)
      → let (ps', calls) = thread_a ring ready usb dtrs0 dtrs1 ps in
        let starts = all_ready ready && (not (is_error usb) && (any_set dtrs0 && any_set dtrs1)) in
        ((p : Port) → receives p calls ≡ starts)
        × (ps' ≡ (if starts then connect ring ps else ps))
        × IsBridge (connect ring ps)
        × ((p : Port) → bytes (peer (connect ring ps) p).rb ≡ [])
  thread_a_lem ready usb dtrs0 dtrs1 ps =
      let (calls, state) = thread_a_runs ready usb dtrs0 dtrs1 ps in
      (calls, state, connect-IsBridge ps, bytes-connect ps)
