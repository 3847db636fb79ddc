-- ===== src/UartPeripheral/Life/Service.antt =====
-- What the device and its application do over their life, beside a device that only knows its text
-- and the bytes received.
use echo_bot.UartPeripheral.Receive.Split.{split, rest}
use echo_bot.UartPeripheral.App.Reports.{reports_of, tally, spoken_all}
use echo_bot.Prelude.{
  ℕ, ◌+◌, ◌≤◌, ◌≡◌, Bool, true, some, List, [], ◌∷◌, ◌++◌, ok, length, take, until_nul, nuls,
  c_string, map, ap, refl,
}
use echo_bot.UartPeripheral.{Config}
use echo_bot.UartPeripheral.Receive.Pieces.{held, IsValid}
use echo_bot.UartPeripheral.Api.{api_of_driver}
use echo_bot.UartPeripheral.App.{Report}
use echo_bot.UartPeripheral.Life.{
  World, Event, interrupt, pin_rises, set_string, Output, prints, sends,
}

-- The bytes read.
abbrev pub received : List Event → List ℕ
received [] = []
received (interrupt true bs ∷ es) = bs ++ received es
received (_ ∷ es) = received es

-- What a device sends that keeps its text as a value.
abbrev pub texts_sent : List Event → List ℕ → List (List ℕ)
texts_sent [] text = []
texts_sent (interrupt _ _ ∷ es) text = texts_sent es text
texts_sent (pin_rises ∷ es) text = (text ++ 0 ∷ []) ∷ texts_sent es text
texts_sent (set_string string len ∷ es) text = texts_sent es (until_nul (take len string))

abbrev pub printed : List Output → List Report
printed [] = []
printed (prints r ∷ outs) = r ∷ printed outs
printed (sends _ ∷ outs) = printed outs

abbrev pub sent : List Output → List (List ℕ)
sent [] = []
sent (prints _ ∷ outs) = sent outs
sent (sends text ∷ outs) = text ∷ sent outs

-- A string that is set lies in its object and fits.
abbrev pub IsAllowed : Config → Event → Type 0
IsAllowed cfg (interrupt _ _) = Unit {0}
IsAllowed cfg pin_rises = Unit {0}
IsAllowed cfg (set_string string len) = (len ≤ cfg.max_str_len) × (len ≤ length string)

-- The world between events, with `text` to send.
pub record IsServing (asserts : Bool) (cfg : Config) (f : ℕ) (text : List ℕ) (w : World)
    : Type 0 where
  pub valid : IsValid cfg w.dev.data_of
  pub registered : w.dev.data_of.string_callback ≡ some f
  pub pointed : w.dev.data_of.user_data ≡ w.tracker_at
  pub table : w.dev.api ≡ api_of_driver asserts cfg
  pub size : length w.dev.data_of.str ≡ cfg.max_str_len + 1
  pub string : c_string w.dev.data_of.str ≡ ok text

abbrev pub total : World → ℕ
total w = w.tracker.strings + w.tracker.overflows

-- The events took `w` to `w'` with these outputs.
pub record Served (cfg : Config) (text : List ℕ) (w w' : World) (outs : List Output)
    (es : List Event) : Type 0 where
  pub valid : IsValid cfg w'.dev.data_of
  pub strings : w'.tracker.strings ≡ w.tracker.strings + nuls (received es)
  pub reports :
      printed outs ≡ reports_of (split cfg.rx_buf_size (held w.dev.data_of) (received es)) w.tracker
  pub counts :
      w'.tracker ≡ tally (split cfg.rx_buf_size (held w.dev.data_of) (received es)) w.tracker
  pub left : held w'.dev.data_of ≡ rest cfg.rx_buf_size (held w.dev.data_of) (received es)
  pub words : spoken_all (printed outs) ++ held w'.dev.data_of ≡ held w.dev.data_of ++ received es
  pub texts : sent outs ≡ texts_sent es text

pub printed-prints :
    (rs : List Report) (outs : List Output) → printed (map prints rs ++ outs) ≡ rs ++ printed outs
printed-prints [] outs = refl
printed-prints (r ∷ rs) outs = ap (λ l. r ∷ l) (printed-prints rs outs)

pub sent-prints : (rs : List Report) (outs : List Output) → sent (map prints rs ++ outs) ≡ sent outs
sent-prints [] outs = refl
sent-prints (r ∷ rs) outs = sent-prints rs outs
