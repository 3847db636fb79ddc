-- ===== src/Mcp9808/App.antt =====
-- src/main_mcp9808.c: a thread that prints the time and the temperature every two seconds.
-- sensor_sample_fetch calls the member of the driver's table on all channels, and sensor_channel_get
-- the member on the channel that it is given.
pub mod Time
pub mod Readings
pub mod Window
pub mod Trigger
pub mod Watch
pub mod Boot
use echo_bot.Prelude.{
  ℕ, zero, suc, ◌+◌, ◌-◌, ◌*◌, ◌/◌, ◌%◌, Bool, true, List, [], ◌∷◌, ◌++◌, length, replicate, take,
  ltb, if◌then◌else◌, not, Result, ok, ◌>>=◌, c_string,
}
use echo_bot.Prelude.Int.{ℤ, pos, ◌+ℤ◌, ◌-ℤ◌, ◌*ℤ◌, quot, rem, int}
use echo_bot.Zephyr.Errno.{is_error}
use echo_bot.Zephyr.I2c.{I2cBus, ByteOrder}
use echo_bot.Mcp9808.Api.{api_funcs}
use echo_bot.Mcp9808.{SensorValue, ambient_temp, all_channels, sample_fetch, channel_get}

abbrev pub digit : ℕ → ℕ
digit d = b'0' + d

-- `%u`; ten digits are enough for 32 bits.
abbrev pub decimal_upto : ℕ → ℕ → List ℕ
decimal_upto zero n = []
decimal_upto (suc digits) n =
    if ltb n 10 then digit n ∷ [] else decimal_upto digits (n / 10) ++ digit (n % 10) ∷ []

unfoldable pub decimal : ℕ → List ℕ
decimal n = decimal_upto 10 n

-- `%02u` and `%03u`
unfoldable pub padded : ℕ → ℕ → List ℕ
padded width n = replicate (width - length (decimal n)) b'0' ++ decimal n

-- `snprintf` of a text: what a buffer of `size` bytes holds.
abbrev pub snprintf : ℕ → List ℕ → List ℕ
snprintf size text = take (size - 1) text ++ 0 ∷ []

-- The text in `buf`, at an uptime.
unfoldable pub now_str : ℕ → List ℕ
now_str now =
    let ms = now % 1000 in
    let secs = now / 1000 in
    let s = secs % 60 in
    let mins = secs / 60 in
    let min = mins % 60 in
    let h = mins / 60 in
    snprintf 16 (decimal h ++ b':' ∷ (padded 2 min ++ b':' ∷ (padded 2 s ++ b'.' ∷ padded 3 ms)))

-- What the thread prints: the error codes, and at each reading the time and the value.
pub data Out : Type 0 where
  not_ready : Out
  fetch_error get_error : ℤ → Out
  printed : List ℕ → SensorValue → Out

module _ (bus : I2cBus) (order : ByteOrder) (asserts : Bool) where
  open bus use {State}

  -- The loop, for one turn at each uptime; then it is asleep.
  unfoldable pub reading_loop : List ℕ → State → Result (List Out)
  reading_loop [] s = ok []
  reading_loop (now ∷ later) s = do
    (rc, (reg_val, s')) ← (api_funcs bus order asserts).sample_fetch s all_channels
    if is_error rc then ok (fetch_error rc ∷ []) else (do
      value ← (api_funcs bus order asserts).channel_get reg_val ambient_temp
      time ← c_string (now_str now)
      rest ← reading_loop later s'
      ok (printed time value ∷ rest))

  unfoldable pub thread_mcp9808 : Bool → List ℕ → State → Result (List Out)
  thread_mcp9808 ready uptimes s = if not ready then ok (not_ready ∷ []) else reading_loop uptimes s
