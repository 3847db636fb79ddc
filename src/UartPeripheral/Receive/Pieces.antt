-- ===== src/UartPeripheral/Receive/Pieces.antt =====
-- The buffer between interrupts, and the pieces of it that are handed to the callback.
use echo_bot.Prelude.{
  map, ℕ, ◌≤◌, ◌<◌, ◌^◌, ◌≡◌, refl, sym, ap, ◌∙◌, Bool, true, false, List, [], ◌∷◌, ◌++◌,
  append_assoc, length, take, All, IsText,
}
use echo_bot.UartPeripheral.Receive.Split.{split, rest}
use echo_bot.UartPeripheral.{Config, UartData, Call}

-- The bytes since the last call.
abbrev pub held : UartData → List ℕ
held d = take d.rx_data_len d.rx_buf

-- What a call hands over.
abbrev pub payload : Call → List ℕ
payload c = take c.size c.bytes

abbrev pub payloads : List Call → List ℕ
payloads [] = []
payloads (c ∷ cs) = payload c ++ payloads cs

-- A call as a piece of the stream.
abbrev pub piece : Call → Bool × List ℕ
piece c = (c.is_string, payload c)

pub payloads-append : (cs ds : List Call) → payloads (cs ++ ds) ≡ payloads cs ++ payloads ds
payloads-append [] ds = refl
payloads-append (c ∷ cs) ds =
    ap (λ l. payload c ++ l) (payloads-append cs ds)
    ∙ sym (append_assoc (payload c) (payloads cs) (payloads ds))

pub record IsValid (cfg : Config) (d : UartData) : Type 0 where
  pub size : length d.rx_buf ≡ cfg.rx_buf_size
  pub within : d.rx_data_len < cfg.rx_buf_size
  pub fits : cfg.rx_buf_size < 2 ^ 32
  pub text : IsText (held d)

-- A string is a text with its NUL, a fragment a full buffer without one.
abbrev pub Shape : Config → Bool → List ℕ → Type 0
Shape cfg true p = (t : List ℕ) × IsText t × (p ≡ t ++ 0 ∷ [])
Shape cfg false p = IsText p × (length p ≡ cfg.rx_buf_size)

pub record IsFrame (cfg : Config) (f user_data : ℕ) (c : Call) : Type 0 where
  pub to : c.callback ≡ f
  pub with_data : c.context ≡ user_data
  pub inside : c.size ≤ length c.bytes
  pub shape : Shape cfg c.is_string (payload c)

-- The bytes `bs` took the state `d` to `d'`, with these calls of the callback `f`.
pub record Handled (cfg : Config) (f : ℕ) (d d' : UartData) (calls : List Call) (bs : List ℕ)
    : Type 0 where
  pub valid : IsValid cfg d'
  pub same_str : d'.str ≡ d.str
  pub same_callback : d'.string_callback ≡ d.string_callback
  pub same_data : d'.user_data ≡ d.user_data
  pub frames : All (IsFrame cfg f d.user_data) calls
  pub stream : payloads calls ++ held d' ≡ held d ++ bs
  pub pieces : map piece calls ≡ split cfg.rx_buf_size (held d) bs
  pub left : held d' ≡ rest cfg.rx_buf_size (held d) bs
