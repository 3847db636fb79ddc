-- ===== src/UartPeripheral/App/Handler.antt =====
-- The driver and the application together: an interrupt with the application's callback.
use echo_bot.Prelude.{
  ℕ, ◌+◌, ◌≤◌, ◌<◌, ◌^◌, ◌≡◌, ap, Bool, true, false, some, List, [], ◌∷◌, ◌++◌, arith, ok, length,
  All, length-append, nuls, nuls-append, nuls_of_IsText,
}
use echo_bot.UartPeripheral.{Config, UartData, Call, uart_int_handler}
use echo_bot.UartPeripheral.Receive.{uart_int_handler_lem}
use echo_bot.UartPeripheral.Receive.Pieces.{
  held, payload, payloads, IsValid, Shape, IsFrame, Handled,
}
use echo_bot.UartPeripheral.App.{Counter, Report, take_calls}
use echo_bot.UartPeripheral.App.Counts.{Counted, take_calls-Counted}

Shape-nonempty :
    (cfg : Config) (b : Bool) (p : List ℕ) → 0 < cfg.rx_buf_size → Shape cfg b p → 0 < length p
Shape-nonempty cfg true p h (t, _, e) = omega (arith, ap length e, length-append t (0 ∷ []))
Shape-nonempty cfg false p h (_, full) = omega arith

-- Each call takes at least one byte.
length-calls-le-payloads :
    (cfg : Config) (f u : ℕ) (calls : List Call)
    → 0 < cfg.rx_buf_size
    → All (IsFrame cfg f u) calls
    → length calls ≤ length (payloads calls)
length-calls-le-payloads cfg f u [] h frames = omega arith
length-calls-le-payloads cfg f u (call ∷ calls) h frames = omega (
  arith,
  length-append (payload call) (payloads calls),
  Shape-nonempty cfg call.is_string (payload call) h frames.0.shape,
  length-calls-le-payloads cfg f u calls h frames.1,
)

-- An interrupt of the driver with the application's callback registered. If the counts stay below
-- 2 ^ 31 with one more for each byte in hand, nothing faults, in particular no `%s` leaves the
-- buffer, and there is room for as many calls as there are bytes that stay.
pub handler_with_callback :
    {cfg : Config} (f : ℕ) (bs : List ℕ) {d : UartData} (c : Counter)
    → IsValid cfg d
    → d.string_callback ≡ some f
    → c.strings + c.overflows + length (held d ++ bs) < 2 ^ 31
    → (d' : UartData) × (calls : List Call) × (c' : Counter) × (rs : List Report)
      × (uart_int_handler cfg d true bs ≡ ok (d', calls))
      × (take_calls d.user_data c calls ≡ ok (c', rs))
      × Handled cfg f d d' calls bs
      × Counted c c' calls rs
      × (c'.strings + c'.overflows + length (held d')
          ≤ c.strings + c.overflows + length (held d ++ bs))
handler_with_callback {cfg} f bs {d} c v cb room =
    let (d', calls, e, h) = uart_int_handler_lem f bs v cb in
    let few = length-calls-le-payloads cfg f d.user_data calls (omega (arith, v.within)) h.frames in
    let total = ap length h.stream in
    let split = length-append (payloads calls) (held d') in
    let (c', rs, e', k) =
      take_calls-Counted cfg f d.user_data calls c h.frames (omega (arith, few, total, split)) in
    (d', calls, c', rs, e, e', h, k, omega (arith, few, total, split, k.all))

-- The NULs of the bytes handed over are those of the bytes read.
pub nuls-payloads :
    {cfg : Config} {f : ℕ} {d d' : UartData} {calls : List Call} {bs : List ℕ}
    → IsValid cfg d
    → Handled cfg f d d' calls bs
    → nuls (payloads calls) ≡ nuls bs
nuls-payloads {d} {d'} {calls} {bs} v h = omega (
  arith,
  ap nuls h.stream,
  nuls-append (payloads calls) (held d'),
  nuls-append (held d) bs,
  nuls_of_IsText (held d) v.text,
  nuls_of_IsText (held d') h.valid.text,
)
