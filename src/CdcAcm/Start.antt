-- ===== src/CdcAcm/Start.antt =====
-- How the port starts: the code waits, with a timer of 100 ms and a work item, until the host sets DTR.
pub mod Waits
use echo_bot.Prelude.{
  ℕ, Bool, true, false, ◌||◌, ◌&&◌, List, [], ◌∷◌, ◌++◌, ◌==◌, if◌then◌else◌, not,
}
use echo_bot.Prelude.Int.{ℤ}
use echo_bot.Zephyr.Errno.{is_error}

-- The calls that change the USB, the UART, the ring buffer, the timer or the work item.
pub data SetupCall : Type 0 where
  usb_enable ring_buf_init k_timer_init k_work_init k_work_submit : SetupCall
  set_dcd set_dsr uart_irq_callback_user_data_set uart_irq_rx_enable : SetupCall
  k_timer_start : ℕ → SetupCall

-- What uart_line_ctrl_set returns is only logged.
unfoldable pub uart_line_set : List SetupCall
uart_line_set = set_dcd ∷ set_dsr ∷ []

-- `dtr` is what uart_line_ctrl_get reads.
unfoldable pub my_work_handler : ℕ → List SetupCall
unfolding uart_line_set
my_work_handler dtr =
    if dtr == 0
    then k_timer_start 100 ∷ []
    else uart_line_set ++ (uart_irq_callback_user_data_set ∷ uart_irq_rx_enable ∷ [])

unfoldable pub my_timer_handler : List SetupCall
my_timer_handler = k_work_submit ∷ []

-- Whether the device is ready, and what usb_enable returns.
unfoldable pub main_cdc_acm : Bool → ℤ → List SetupCall
main_cdc_acm ready usb =
    if not ready
    then []
    else if is_error usb
    then usb_enable ∷ []
    else usb_enable ∷ ring_buf_init ∷ k_timer_init ∷ k_work_init ∷ k_timer_start 100 ∷ []

abbrev pub starts_timer : List SetupCall → Bool
starts_timer [] = false
starts_timer (k_timer_start ms ∷ cs) = true
starts_timer (_ ∷ cs) = starts_timer cs

abbrev submits : List SetupCall → Bool
submits [] = false
submits (k_work_submit ∷ cs) = true
submits (_ ∷ cs) = submits cs

-- While the timer runs it expires, and its handler is called. The work item is run if that submits it:
-- one element is the DTR that the host has set by then.
unfoldable pub expiries : Bool → List ℕ → List SetupCall
unfolding my_timer_handler my_work_handler
expiries running [] = []
expiries false (dtr ∷ dtrs) = []
expiries true (dtr ∷ dtrs) =
    let work = if submits my_timer_handler then my_work_handler dtr else [] in
    my_timer_handler ++ (work ++ expiries (starts_timer work) dtrs)

unfoldable pub start : Bool → ℤ → List ℕ → List SetupCall
start ready usb dtrs =
    main_cdc_acm ready usb ++ expiries (starts_timer (main_cdc_acm ready usb)) dtrs
