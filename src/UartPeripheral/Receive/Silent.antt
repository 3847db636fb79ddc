-- ===== src/UartPeripheral/Receive/Silent.antt =====
-- Before a callback is registered: the same pieces are cut, and none is handed over.
use echo_bot.Prelude.{
  ℕ, ◌≡◌, refl, ap, ◌∙◌, true, none, some, List, [], ◌∷◌, ◌++◌, arith, ok, ◌>>=◌,
}
use echo_bot.UartPeripheral.{Config, UartData, Call, rx_byte, rx_bytes, uart_int_handler}
use echo_bot.UartPeripheral.Receive.{Handled-append, Handled-none}
use echo_bot.UartPeripheral.Receive.Byte.{rx_byte-Handled}
use echo_bot.UartPeripheral.Receive.Pieces.{IsValid, Handled}

rx_byte-none :
    (cfg : Config) (f : ℕ) (d : UartData) (c : ℕ)
    → rx_byte cfg none d c ≡ (rx_byte cfg (some f) d c >>= λ r. ok (r.0, []))
unfolding rx_byte
rx_byte-none cfg f d c = ground arith

rx_bytes-silent :
    {cfg : Config} (f : ℕ) (bs : List ℕ) {d : UartData}
    → IsValid cfg d
    → (d' : UartData) × (calls : List Call) × (rx_bytes cfg none d bs ≡ ok (d', []))
      × Handled cfg f d d' calls bs
unfolding rx_bytes
rx_bytes-silent f [] {d} v = (d, [], refl, Handled-none f v)
rx_bytes-silent {cfg} f (b ∷ bs) {d} v =
    let (d', calls, e, h) = rx_byte-Handled f v b in
    let first = rx_byte-none cfg f d b ∙ ap (λ m. m >>= λ r. ok (r.0, [])) e in
    let (d'', more, e', k) = rx_bytes-silent f bs h.valid in
    (d'', calls ++ more, rw (first, e') refl, Handled-append h k)

-- As with a callback, but that no call is made.
pub uart_int_handler-silent :
    {cfg : Config} (f : ℕ) (bs : List ℕ) {d : UartData}
    → IsValid cfg d
    → d.string_callback ≡ none
    → (d' : UartData) × (calls : List Call) × (uart_int_handler cfg d true bs ≡ ok (d', []))
      × Handled cfg f d d' calls bs
unfolding uart_int_handler
uart_int_handler-silent {cfg} f bs {d} v e =
    let (d', calls, run, h) = rx_bytes-silent f bs v in
    (d', calls, ap (λ cb. rx_bytes cfg cb d bs) e ∙ run, h)
