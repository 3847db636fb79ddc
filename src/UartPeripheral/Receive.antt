-- ===== src/UartPeripheral/Receive.antt =====
-- What `uart_int_handler` makes of the bytes that it receives.
pub mod Split
pub mod Pieces
pub mod Byte
pub mod Silent
use echo_bot.Prelude.{
  map-append, ap₂, false, ℕ, ◌≤◌, ◌<◌, ◌^◌, ◌≡◌, ◌≢◌, refl, sym, ap, ◌∙◌, inl, inr, Bool, true,
  some, List, [], ◌∷◌, ◌++◌, append_assoc, append-nil, arith, ◌==◌, Bool-cases, ok, fault,
  out_of_bounds, length, set, take, All, All-append, length-set, length-take, length-append,
  length-replicate, store_ok, store_fault, take-set, IsText, IsText-append, add_size, sub_size,
  subst,
}
use echo_bot.UartPeripheral.{
  Config, UartData, Call, cleared, call_if, rx_byte, rx_bytes, uart_int_handler,
}
use echo_bot.UartPeripheral.Receive.Pieces.{
  piece, held, payload, payloads, payloads-append, IsValid, Shape, IsFrame, Handled,
}
use echo_bot.UartPeripheral.Receive.Split.{
  split, rest, split-append, rest-append, split_string, split_full, split_more,
}
use echo_bot.UartPeripheral.Receive.Byte.{rx_byte-Handled}

pub Handled-append :
    {cfg : Config} {f : ℕ} {d d' d'' : UartData} {calls more : List Call} {bs cs : List ℕ}
    → Handled cfg f d d' calls bs
    → Handled cfg f d' d'' more cs
    → Handled cfg f d d'' (calls ++ more) (bs ++ cs)
Handled-append {cfg} {f} {d} {d'} {d''} {calls} {more} {bs} {cs} h k = record {
  valid = k.valid;
  same_str = k.same_str ∙ h.same_str;
  same_callback = k.same_callback ∙ h.same_callback;
  same_data = k.same_data ∙ h.same_data;
  frames =
      All-append (IsFrame cfg f d.user_data) calls more h.frames
        (subst (λ u. All (IsFrame cfg f u) more) h.same_data k.frames);
  stream =
      ap (λ l. l ++ held d'') (payloads-append calls more)
      ∙ append_assoc (payloads calls) (payloads more) (held d'')
      ∙ ap (λ l. payloads calls ++ l) k.stream
      ∙ sym (append_assoc (payloads calls) (held d') cs)
      ∙ ap (λ l. l ++ cs) h.stream
      ∙ append_assoc (held d) bs cs;
  pieces =
      map-append piece calls more
      ∙ ap₂ (λ ps qs. ps ++ qs) h.pieces (k.pieces ∙ ap (λ l. split cfg.rx_buf_size l cs) h.left)
      ∙ sym (split-append cfg.rx_buf_size (held d) bs cs);
  left =
      k.left
      ∙ ap (λ l. rest cfg.rx_buf_size l cs) h.left
      ∙ sym (rest-append cfg.rx_buf_size (held d) bs cs);
}

pub Handled-none : {cfg : Config} (f : ℕ) {d : UartData} → IsValid cfg d → Handled cfg f d d [] []
Handled-none f {d} v = record {
  valid = v;
  same_str = refl;
  same_callback = refl;
  same_data = refl;
  frames = tt;
  stream = sym (append-nil (held d));
  pieces = refl;
  left = refl;
}

pub rx_bytes-Handled :
    {cfg : Config} (f : ℕ) (bs : List ℕ) {d : UartData}
    → IsValid cfg d
    → (d' : UartData) × (calls : List Call) × (rx_bytes cfg (some f) d bs ≡ ok (d', calls))
      × Handled cfg f d d' calls bs
unfolding rx_bytes
rx_bytes-Handled f [] {d} v = (d, [], refl, Handled-none f v)
rx_bytes-Handled f (b ∷ bs) {d} v =
    let (d', calls, e, h) = rx_byte-Handled f v b in
    let (d'', more, e', k) = rx_bytes-Handled f bs h.valid in
    (d'', calls ++ more, rw (e, e') refl, Handled-append h k)

-- In a valid state, with a callback, an interrupt that has bytes to read never faults and leaves a
-- valid state. It calls the callback, with its user data, on pieces that lie in the buffer: a text
-- with its NUL as a string, a full buffer without a NUL as a fragment. They are the pieces that the
-- stream of the bytes held and read has when it is cut behind each NUL and where the buffer is full,
-- and what is left over stays in the buffer: no byte is lost, doubled or moved. The string to send
-- and the callback stay as they were.
pub uart_int_handler_lem :
    {cfg : Config} (f : ℕ) (bs : List ℕ) {d : UartData}
    → IsValid cfg d
    → d.string_callback ≡ some f
    → (d' : UartData) × (calls : List Call) × (uart_int_handler cfg d true bs ≡ ok (d', calls))
      × Handled cfg f d d' calls bs
unfolding uart_int_handler
uart_int_handler_lem {cfg} f bs {d} v e =
    let (d', calls, run, h) = rx_bytes-Handled f bs v in
    (d', calls, ap (λ cb. rx_bytes cfg cb d bs) e ∙ run, h)

-- With a buffer of size 0, which the configuration admits, the first byte received is written
-- outside the buffer, whatever the callback.
pub uart_int_handler_no_buffer :
    (cfg : Config) (d : UartData) (b : ℕ) (bs : List ℕ)
    → cfg.rx_buf_size ≡ 0
    → length d.rx_buf ≡ cfg.rx_buf_size
    → uart_int_handler cfg d true (b ∷ bs) ≡ fault out_of_bounds
unfolding uart_int_handler rx_bytes rx_byte
uart_int_handler_no_buffer cfg d b bs z e = rw (store_fault d.rx_buf d.rx_data_len b (omega arith))
