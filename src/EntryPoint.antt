-- ===== src/EntryPoint.antt =====
-- src/main.c, and the functions main_* that create the threads of the parts: what the program calls
-- when it starts.
pub mod Order
mod Tests
use echo_bot.Prelude.{ℕ, Bool, List, [], ◌∷◌, ◌++◌, map, if◌then◌else◌}
use echo_bot.Prelude.Int.{ℤ}
use echo_bot.CdcAcm.Start.{SetupCall, main_cdc_acm}
use echo_bot.DhcpClient.{Call, main_dhcpv4_client}

pub data Thread : Type 0 where
  thread_echo_bot thread_cdc_acm_composite thread_shell_module thread_mcp9808 : Thread
  thread_app thread_socket_dumb_http thread_http_get : Thread

-- k_thread_create with K_FOREVER, which leaves the start to k_thread_start; work items by their index.
-- my_uart_b_set_callback is the my_uart_set_callback of the header my_uart_peripheral_b_api.h.
pub data StartCall : Type 0 where
  k_thread_create : Thread → (stack_size priority : ℕ) → StartCall
  k_thread_start : Thread → StartCall
  cdc_acm : SetupCall → StartCall
  dhcpv4 : Call → StartCall
  my_uart_set_callback my_uart_b_set_callback : StartCall
  k_work_queue_init : StartCall
  k_work_queue_start : (stack_size priority : ℕ) → StartCall
  k_work_init k_work_submit_to_queue : ℕ → StartCall

-- What a work item does.
pub data WorkStep : Type 0 where
  printk : WorkStep
  k_sleep : (ms : ℕ) → WorkStep

unfoldable pub main_echo_bot : List StartCall
main_echo_bot = k_thread_create thread_echo_bot 1024 7 ∷ k_thread_start thread_echo_bot ∷ []

unfoldable pub main_cdc_acm_composite : List StartCall
main_cdc_acm_composite =
    k_thread_create thread_cdc_acm_composite 1024 7 ∷ k_thread_start thread_cdc_acm_composite ∷ []

unfoldable pub main_shell_module : List StartCall
main_shell_module =
    k_thread_create thread_shell_module 1024 7 ∷ k_thread_start thread_shell_module ∷ []

unfoldable pub main_mcp9808 : List StartCall
main_mcp9808 = k_thread_create thread_mcp9808 1024 7 ∷ k_thread_start thread_mcp9808 ∷ []

unfoldable pub main_app : List StartCall
main_app = k_thread_create thread_app 1024 7 ∷ k_thread_start thread_app ∷ []

unfoldable pub main_socket_dumb_http : List StartCall
main_socket_dumb_http =
    k_thread_create thread_socket_dumb_http 2048 7 ∷ k_thread_start thread_socket_dumb_http ∷ []

unfoldable pub main_http_get : List StartCall
main_http_get = k_thread_create thread_http_get 4096 7 ∷ k_thread_start thread_http_get ∷ []

unfoldable pub work_handler : List WorkStep
work_handler = printk ∷ k_sleep 4000 ∷ []

-- Which devices are ready, what usb_enable returns, and NET_EVENT_IPV4_ADDR_ADD.
pub record Board : Type 0 where
  pub cdc_ready : Bool
  pub usb : ℤ
  pub uart_ready : Bool
  pub uart_b_ready : Bool
  pub event_add : ℕ

-- `main`; the calls that it leaves out in comments are left out.
unfoldable pub main : Board → List StartCall
main b =
    map cdc_acm (main_cdc_acm b.cdc_ready b.usb)
    ++ (main_shell_module
        ++ ((if b.uart_ready then my_uart_set_callback ∷ [] else [])
            ++ ((if b.uart_b_ready then my_uart_b_set_callback ∷ [] else [])
                ++ (main_mcp9808
                    ++ (main_app
                        ++ (map dhcpv4 (main_dhcpv4_client b.event_add)
                            ++ (main_http_get
                                ++ k_work_queue_init
                                  ∷ k_work_queue_start 512 5
                                  ∷ k_work_init 0
                                  ∷ k_work_init 1
                                  ∷ k_work_init 2
                                  ∷ k_work_submit_to_queue 0
                                  ∷ k_work_submit_to_queue 1
                                  ∷ k_work_submit_to_queue 2
                                  ∷ [])))))))
