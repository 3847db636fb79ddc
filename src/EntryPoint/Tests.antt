-- ===== src/EntryPoint/Tests.antt =====
-- A start of the program on a board where all devices are ready.
use echo_bot.Prelude.{◌≡◌, refl, true, false, [], ◌∷◌}
use echo_bot.Prelude.Int.{pos, negsuc}
use echo_bot.CdcAcm.Start.{
  usb_enable, ring_buf_init, k_timer_init, k_work_init, k_timer_start, main_cdc_acm,
}
use echo_bot.DhcpClient.{
  init_event_callback, add_event_callback, net_if_get_default, net_dhcpv4_start, main_dhcpv4_client,
}
use echo_bot.EntryPoint.Order.{in_order, main-in_order}
use echo_bot.EntryPoint as EntryPoint
use echo_bot.EntryPoint.{
  Board, thread_shell_module, thread_mcp9808, thread_app, thread_http_get, k_thread_create,
  k_thread_start, cdc_acm, dhcpv4, my_uart_set_callback, my_uart_b_set_callback, k_work_queue_init,
  k_work_queue_start, k_work_submit_to_queue, main_shell_module, main_mcp9808, main_app,
  main_http_get, main,
}

abbrev all_ready : Board
all_ready = record {
  cdc_ready = true;
  usb = pos 0;
  uart_ready = true;
  uart_b_ready = true;
  event_add = 7;
}

main-all_ready :
    main all_ready
    ≡ cdc_acm usb_enable
      ∷ cdc_acm ring_buf_init
      ∷ cdc_acm k_timer_init
      ∷ cdc_acm k_work_init
      ∷ cdc_acm (k_timer_start 100)
      ∷ k_thread_create thread_shell_module 1024 7
      ∷ k_thread_start thread_shell_module
      ∷ my_uart_set_callback
      ∷ my_uart_b_set_callback
      ∷ k_thread_create thread_mcp9808 1024 7
      ∷ k_thread_start thread_mcp9808
      ∷ k_thread_create thread_app 1024 7
      ∷ k_thread_start thread_app
      ∷ dhcpv4 (init_event_callback 7)
      ∷ dhcpv4 add_event_callback
      ∷ dhcpv4 net_if_get_default
      ∷ dhcpv4 net_dhcpv4_start
      ∷ k_thread_create thread_http_get 4096 7
      ∷ k_thread_start thread_http_get
      ∷ k_work_queue_init
      ∷ k_work_queue_start 512 5
      ∷ EntryPoint.k_work_init 0
      ∷ EntryPoint.k_work_init 1
      ∷ EntryPoint.k_work_init 2
      ∷ k_work_submit_to_queue 0
      ∷ k_work_submit_to_queue 1
      ∷ k_work_submit_to_queue 2
      ∷ []
unfolding main main_cdc_acm main_shell_module main_mcp9808 main_app main_dhcpv4_client main_http_get
main-all_ready = refl

-- A board without the second UART, where USB does not come up.
abbrev half_ready : Board
half_ready = record {
  cdc_ready = true;
  usb = negsuc 4;
  uart_ready = true;
  uart_b_ready = false;
  event_add = 7;
}

main-in_order_example : in_order (main half_ready) [] ≡ true
main-in_order_example = main-in_order half_ready

-- The order matters: a thread cannot be started before it is created.
start_first : in_order (k_thread_start thread_app ∷ main_app) [] ≡ false
start_first = refl
