-- ===== src/UartPeripheral.antt =====
-- drivers/my_uart_peripheral/driver.c: a device on a UART that collects NUL-terminated strings, and
-- sends its own string when a GPIO pin rises.
-- A call of `uart_int_handler` is given what the UART driver answers: whether `uart_irq_rx_ready`
-- holds, and the bytes that `uart_poll_in` delivers until it fails.
pub mod Receive
pub mod Transmit
pub mod Setup
pub mod Api
pub mod App
pub mod Life
pub mod Torn
pub mod Registering
mod Tests
use echo_bot.Prelude.{
  ℕ, ◌+◌, Bool, true, false, Option, none, some, List, [], ◌∷◌, ◌++◌, leb, ◌==◌, if◌then◌else◌,
  Result, ok, assert_failed, ◌>>=◌, ◌>>◌, check, store, copy_in, read, c_string, replicate, length,
  take, add_size, sub_size,
}

-- CONFIG_MY_UART_PERIPHERAL_RX_BUF_SIZE and CONFIG_MY_UART_PERIPHERAL_MAX_STR_LEN.
pub record Config : Type 0 where
  pub rx_buf_size : ℕ
  pub max_str_len : ℕ

-- `struct my_uart_data`. A pointer is an address; a callback that is NULL is `none`.
pub record UartData : Type 0 where
  pub str : List ℕ
  pub rx_buf : List ℕ
  pub rx_data_len : ℕ
  pub string_callback : Option ℕ
  pub user_data : ℕ

-- The data of an instance before the driver is initialised; the rest of an array is NULs.
abbrev pub initial_data : Config → (initial_string : List ℕ) → UartData
initial_data cfg initial_string = record {
  str = take (cfg.max_str_len + 1) (initial_string ++ replicate (cfg.max_str_len + 1) 0);
  rx_buf = replicate cfg.rx_buf_size 0;
  rx_data_len = 0;
  string_callback = none;
  user_data = 0;
}

-- A call of the string callback: `bytes` is the array that `data` points to.
pub record Call : Type 0 where
  pub callback : ℕ
  pub bytes : List ℕ
  pub size : ℕ
  pub is_string : Bool
  pub context : ℕ

-- `memset(a, 0, sizeof(a))`
abbrev pub cleared : List ℕ → List ℕ
cleared a = replicate (length a) 0

-- `asserts` says whether `__ASSERT` is compiled in; `string` is the object at that address.
pub user_set_string : Bool → Config → UartData → List ℕ → ℕ → Result UartData
user_set_string asserts cfg d string len = do
  check (if asserts then leb len cfg.max_str_len else true) assert_failed
  src ← read string len
  copied ← copy_in d.str 0 src
  str ← store copied len 0
  ok (record d { str = str })

unfoldable pub user_set_string_callback : UartData → Option ℕ → ℕ → UartData
user_set_string_callback d callback user_data = record d {
  string_callback = callback;
  user_data = user_data;
}

-- The bytes that go to `uart_poll_out`.
unfoldable pub transmit_string : UartData → Result (List ℕ)
transmit_string d = do text ← c_string d.str; ok (text ++ 0 ∷ [])

abbrev pub call_if : Option ℕ → List ℕ → ℕ → Bool → ℕ → List Call
call_if none bytes size is_string context = []
call_if (some f) bytes size is_string context =
    record { callback = f; bytes = bytes; size = size; is_string = is_string; context = context }
    ∷ []

-- The loop's body, for the byte `c`: the new state, and the call that it makes.
pub rx_byte : Config → Option ℕ → UartData → ℕ → Result (UartData × List Call)
rx_byte cfg callback d c = do
  buf ← store d.rx_buf d.rx_data_len c
  let len = add_size d.rx_data_len 1
  let rx_buf_capacity = sub_size cfg.rx_buf_size len
  let reset = record d { rx_buf = cleared buf; rx_data_len = 0 }
  if c == 0
      then ok (reset, call_if callback buf len true d.user_data)
      else if rx_buf_capacity == 0
      then ok (reset, call_if callback buf len false d.user_data)
      else ok (record d { rx_buf = buf; rx_data_len = len }, [])

pub rx_bytes : Config → Option ℕ → UartData → List ℕ → Result (UartData × List Call)
rx_bytes cfg callback d [] = ok (d, [])
rx_bytes cfg callback d (c ∷ cs) = do
  (d', calls) ← rx_byte cfg callback d c
  (d'', more) ← rx_bytes cfg callback d' cs
  ok (d'', calls ++ more)

-- The callback is read before the loop, and its user data at each call. The callbacks of the program
-- do not call the driver.
unfoldable pub uart_int_handler : Config → UartData → Bool → List ℕ → Result (UartData × List Call)
uart_int_handler cfg d rx_ready bytes =
    if rx_ready then rx_bytes cfg d.string_callback d bytes else ok (d, [])
