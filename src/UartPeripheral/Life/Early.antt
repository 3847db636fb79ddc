-- ===== src/UartPeripheral/Life/Early.antt =====
-- Bytes that come before the application has registered its callback.
use echo_bot.UartPeripheral.Receive.Silent.{uart_int_handler-silent}
use echo_bot.UartPeripheral.Receive.Split.{rest, rest-append}
use echo_bot.Prelude.{
  ℕ, ◌+◌, ◌≤◌, ◌≡◌, refl, List, ◌++◌, arith, ok, length, length-append, [], sym, ap, ◌∙◌, ◌∷◌, none,
}
use echo_bot.UartPeripheral.{Config}
use echo_bot.UartPeripheral.Receive.Pieces.{held, IsValid, payloads}
use echo_bot.UartPeripheral.Api.{Device}
use echo_bot.UartPeripheral.Life.{before}

-- Bytes received in pieces, as one stream.
abbrev pub joined : List (List ℕ) → List ℕ
joined [] = []
joined (bs ∷ early) = bs ++ joined early

-- A device that has received bytes with no callback.
pub record Waits (cfg : Config) (dev dev' : Device) (bs : List ℕ) : Type 0 where
  pub valid : IsValid cfg dev'.data_of
  pub same_str : dev'.data_of.str ≡ dev.data_of.str
  pub same_api : dev'.api ≡ dev.api
  pub ready : dev'.is_ready ≡ dev.is_ready
  pub left : held dev'.data_of ≡ rest cfg.rx_buf_size (held dev.data_of) bs
  pub few : length (held dev'.data_of) ≤ length (held dev.data_of) + length bs

pub before-Waits :
    (cfg : Config) (early : List (List ℕ)) {dev : Device}
    → IsValid cfg dev.data_of
    → dev.data_of.string_callback ≡ none
    → (dev' : Device) × (before cfg dev early ≡ ok (dev', [])) × Waits cfg dev dev' (joined early)
unfolding before
before-Waits cfg [] {dev} v silent = (
  dev,
  refl,
  record {
    valid = v;
    same_str = refl;
    same_api = refl;
    ready = refl;
    left = refl;
    few = omega arith;
  },
)
before-Waits cfg (bs ∷ early) {dev} v silent =
    let (d, calls, e, h) = uart_int_handler-silent 0 bs v silent in
    let (dev', e', w) =
      before-Waits cfg early {dev = record dev { data_of = d }} h.valid
        (h.same_callback ∙ silent) in
    (
      dev',
      rw (e, e') refl,
      record {
        valid = w.valid;
        same_str = w.same_str ∙ h.same_str;
        same_api = w.same_api;
        ready = w.ready;
        left =
            w.left
            ∙ ap (λ l. rest cfg.rx_buf_size l (joined early)) h.left
            ∙ sym (rest-append cfg.rx_buf_size (held dev.data_of) bs (joined early));
        few = omega (
          arith,
          w.few,
          ap length h.stream,
          length-append (payloads calls) (held d),
          length-append (held dev.data_of) bs,
          length-append bs (joined early),
        );
      },
    )
