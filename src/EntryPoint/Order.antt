-- ===== src/EntryPoint/Order.antt =====
-- In which order `main` prepares the objects of Zephyr and uses them.
use echo_bot.Prelude.{
  ℕ, ◌+◌, ◌≡◌, refl, inl, inr, Bool, Bool-cases, true, false, not, ◌&&◌, ◌||◌, List, [], ◌∷◌, ◌++◌,
  ◌==◌,
}
use echo_bot.CdcAcm.Start as Cdc
use echo_bot.DhcpClient as Dhcp
use echo_bot.Zephyr.Errno.{is_error}
use echo_bot.EntryPoint.{
  Thread, thread_echo_bot, thread_cdc_acm_composite, thread_shell_module, thread_mcp9808,
  thread_app, thread_socket_dumb_http, thread_http_get, StartCall, k_thread_create, k_thread_start,
  cdc_acm, dhcpv4, k_work_queue_init, k_work_queue_start, k_work_init, k_work_submit_to_queue,
  Board, main, main_shell_module, main_mcp9808, main_app, main_http_get,
}

-- What a call may need: a thread that has been created, the USB stack, the ring buffer, timer and work
-- item of the CDC ACM port, the event callback of the DHCP client, its registration and the network
-- interface, the work queue, its thread, and a work item.
pub data Object : Type 0 where
  created : Thread → Object
  usb cdc_ring cdc_timer cdc_work event_callback event_added interface : Object
  queue queue_thread : Object
  work_item : ℕ → Object

abbrev thread_number : Thread → ℕ
thread_number thread_echo_bot = 0
thread_number thread_cdc_acm_composite = 1
thread_number thread_shell_module = 2
thread_number thread_mcp9808 = 3
thread_number thread_app = 4
thread_number thread_socket_dumb_http = 5
thread_number thread_http_get = 6

-- Different objects have different numbers.
abbrev number : Object → ℕ
number (created t) = thread_number t
number usb = 7
number cdc_ring = 8
number cdc_timer = 9
number cdc_work = 10
number event_callback = 11
number event_added = 12
number interface = 13
number queue = 14
number queue_thread = 15
number (work_item n) = n + 16

abbrev has : List Object → Object → Bool
has [] o = false
has (p ∷ ps) o = number p == number o || has ps o

-- The objects that a call uses, and the object that it prepares.
abbrev pub needs : StartCall → List Object
needs (k_thread_start t) = created t ∷ []
needs (cdc_acm (Cdc.k_timer_start ms)) = usb ∷ cdc_ring ∷ cdc_timer ∷ cdc_work ∷ []
needs (dhcpv4 Dhcp.add_event_callback) = event_callback ∷ []
needs (dhcpv4 Dhcp.net_dhcpv4_start) = event_added ∷ interface ∷ []
needs (k_work_queue_start stack_size priority) = queue ∷ []
needs (k_work_submit_to_queue n) = queue_thread ∷ work_item n ∷ []
needs _ = []

abbrev pub prepares : StartCall → List Object
prepares (k_thread_create t stack_size priority) = created t ∷ []
prepares (cdc_acm Cdc.usb_enable) = usb ∷ []
prepares (cdc_acm Cdc.ring_buf_init) = cdc_ring ∷ []
prepares (cdc_acm Cdc.k_timer_init) = cdc_timer ∷ []
prepares (cdc_acm Cdc.k_work_init) = cdc_work ∷ []
prepares (dhcpv4 (Dhcp.init_event_callback event)) = event_callback ∷ []
prepares (dhcpv4 Dhcp.add_event_callback) = event_added ∷ []
prepares (dhcpv4 Dhcp.net_if_get_default) = interface ∷ []
prepares k_work_queue_init = queue ∷ []
prepares (k_work_queue_start stack_size priority) = queue_thread ∷ []
prepares (k_work_init n) = work_item n ∷ []
prepares _ = []

abbrev all_in : List Object → List Object → Bool
all_in ps [] = true
all_in ps (o ∷ os) = has ps o && all_in ps os

abbrev none_in : List Object → List Object → Bool
none_in ps [] = true
none_in ps (o ∷ os) = not (has ps o) && none_in ps os

-- Whether each call finds what it needs, and nothing is prepared twice, from the objects `ready` on.
abbrev pub in_order : List StartCall → List Object → Bool
in_order [] ready = true
in_order (c ∷ cs) ready =
    (all_in ready (needs c) && none_in ready (prepares c)) && in_order cs (prepares c ++ ready)

-- On every board, whichever devices are ready and whatever usb_enable returns: a thread is started,
-- a timer, a callback, the client of DHCP, the work queue and a work item are used only behind the
-- calls that prepare them, and nothing is prepared twice.
pub main-in_order : (b : Board) → in_order (main b) [] ≡ true
unfolding main Cdc.main_cdc_acm main_shell_module main_mcp9808 main_app Dhcp.main_dhcpv4_client
    main_http_get
main-in_order b = elim (Bool-cases b.uart_ready) [
  | inl u ↦ elim (Bool-cases b.uart_b_ready) [
    | inl v ↦ elim (Bool-cases b.cdc_ready) [
      | inr c ↦ rw (c, u, v) refl
      | inl c ↦ elim (Bool-cases (is_error b.usb)) [
        | inl e ↦ rw (c, u, v, e) refl
        | inr e ↦ rw (c, u, v, e) refl
      ]
    ]
    | inr v ↦ elim (Bool-cases b.cdc_ready) [
      | inr c ↦ rw (c, u, v) refl
      | inl c ↦ elim (Bool-cases (is_error b.usb)) [
        | inl e ↦ rw (c, u, v, e) refl
        | inr e ↦ rw (c, u, v, e) refl
      ]
    ]
  ]
  | inr u ↦ elim (Bool-cases b.uart_b_ready) [
    | inl v ↦ elim (Bool-cases b.cdc_ready) [
      | inr c ↦ rw (c, u, v) refl
      | inl c ↦ elim (Bool-cases (is_error b.usb)) [
        | inl e ↦ rw (c, u, v, e) refl
        | inr e ↦ rw (c, u, v, e) refl
      ]
    ]
    | inr v ↦ elim (Bool-cases b.cdc_ready) [
      | inr c ↦ rw (c, u, v) refl
      | inl c ↦ elim (Bool-cases (is_error b.usb)) [
        | inl e ↦ rw (c, u, v, e) refl
        | inr e ↦ rw (c, u, v, e) refl
      ]
    ]
  ]
]
