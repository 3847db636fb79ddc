-- ===== src/CdcAcm/Start/Waits.antt =====
-- When the port receives.
use echo_bot.Prelude.{
  suc_ne, ℕ, zero, suc, ◌≡◌, refl, ap, ◌∙◌, inl, inr, Bool, Bool-cases, true, false, ◌&&◌, not,
  List, [], ◌∷◌, ◌++◌,
}
use echo_bot.Prelude.Int.{ℤ}
use echo_bot.Zephyr.Errno.{is_error}
use echo_bot.Zephyr.LineControl.{any_set}
use echo_bot.CdcAcm.Start.{
  SetupCall, ring_buf_init, k_work_submit, set_dcd, set_dsr, uart_irq_callback_user_data_set,
  uart_irq_rx_enable, k_timer_start, uart_line_set, my_work_handler, my_timer_handler, main_cdc_acm,
  starts_timer, expiries, start,
}

abbrev pub receives : List SetupCall → Bool
receives [] = false
receives (uart_irq_rx_enable ∷ cs) = true
receives (_ ∷ cs) = receives cs

-- No `uart_irq_rx_enable` comes before the ring buffer is initialised and the callback is set.
abbrev pub in_order : Bool → Bool → List SetupCall → Bool
in_order ring callback [] = true
in_order ring callback (ring_buf_init ∷ cs) = in_order true callback cs
in_order ring callback (uart_irq_callback_user_data_set ∷ cs) = in_order ring true cs
in_order ring callback (uart_irq_rx_enable ∷ cs) = ring && (callback && in_order ring callback cs)
in_order ring callback (_ ∷ cs) = in_order ring callback cs

expiries_stopped : (dtrs : List ℕ) → expiries false dtrs ≡ []
unfolding expiries
expiries_stopped [] = refl
expiries_stopped (dtr ∷ dtrs) = refl

-- The calls of an expiry with DTR set.
abbrev pub ready_calls : List SetupCall
ready_calls =
    k_work_submit ∷ set_dcd ∷ set_dsr ∷ uart_irq_callback_user_data_set ∷ uart_irq_rx_enable ∷ []

expiries_unset :
    (dtrs : List ℕ)
    → expiries true (0 ∷ dtrs) ≡ k_work_submit ∷ k_timer_start 100 ∷ expiries true dtrs
unfolding expiries my_work_handler my_timer_handler
expiries_unset dtrs = refl

my_work_handler_set :
    (n : ℕ)
    → my_work_handler (suc n)
      ≡ set_dcd ∷ set_dsr ∷ uart_irq_callback_user_data_set ∷ uart_irq_rx_enable ∷ []
unfolding my_work_handler uart_line_set
my_work_handler_set n = rw (suc_ne n) refl

expiries_set : (n : ℕ) (dtrs : List ℕ) → expiries true (suc n ∷ dtrs) ≡ ready_calls
unfolding expiries my_timer_handler
expiries_set n dtrs =
    ap (λ cs. k_work_submit ∷ (cs ++ expiries (starts_timer cs) dtrs)) (my_work_handler_set n)
    ∙ ap
        (λ cs.
          k_work_submit ∷ set_dcd ∷ set_dsr ∷ uart_irq_callback_user_data_set ∷ uart_irq_rx_enable
          ∷ cs)
        (expiries_stopped dtrs)

receives-expiries : (dtrs : List ℕ) → receives (expiries true dtrs) ≡ any_set dtrs
unfolding expiries
receives-expiries [] = refl
receives-expiries (zero ∷ dtrs) = ap receives (expiries_unset dtrs) ∙ receives-expiries dtrs
receives-expiries (suc n ∷ dtrs) = ap receives (expiries_set n dtrs) ∙ rw (suc_ne n) refl

in_order-expiries :
    (dtrs : List ℕ) (callback : Bool) → in_order true callback (expiries true dtrs) ≡ true
unfolding expiries
in_order-expiries [] callback = refl
in_order-expiries (zero ∷ dtrs) callback =
    ap (in_order true callback) (expiries_unset dtrs) ∙ in_order-expiries dtrs callback
in_order-expiries (suc n ∷ dtrs) callback = ap (in_order true callback) (expiries_set n dtrs)

-- The port receives exactly when the device is ready, the USB is enabled and the host sets DTR at
-- some expiry of the timer; and it never receives before its ring buffer and its callback are set.
pub start_lem :
    (ready : Bool) (usb : ℤ) (dtrs : List ℕ)
    → (receives (start ready usb dtrs) ≡ ready && (not (is_error usb) && any_set dtrs))
      × (in_order false false (start ready usb dtrs) ≡ true)
unfolding start main_cdc_acm
start_lem false usb dtrs =
    (ap receives (expiries_stopped dtrs), ap (in_order false false) (expiries_stopped dtrs))
start_lem true usb dtrs = elim (Bool-cases (is_error usb)) [
  | inl e ↦
      rw e (ap receives (expiries_stopped dtrs), ap (in_order false false) (expiries_stopped dtrs))
  | inr e ↦ rw e (receives-expiries dtrs, in_order-expiries dtrs false)
]
