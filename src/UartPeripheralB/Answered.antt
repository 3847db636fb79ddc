-- ===== src/UartPeripheralB/Answered.antt =====
-- Driver and application in front of a peer that answers each message.
use echo_bot.Prelude.{ℕ, ◌≡◌, true, false, List, [], ◌∷◌}
use echo_bot.Zephyr.ItemRing.{ItemRing}
use echo_bot.UartPeripheralB.{Config, UartData, Out}
use echo_bot.UartPeripheralB.App.{Event, interrupt}
use echo_bot.UartPeripheralB.Lines.{lines, unfinished}
use echo_bot.UartPeripheralB.Moves.{fills, IsSized, queue, Fits}
use echo_bot.UartPeripheralB.Receive.{reply, held, IsValid}

-- These bytes are one line, which ends with them.
pub record IsWhole (cfg : Config) (line : List ℕ) : Type 0 where
  pub one : lines cfg.rx_buf_size [] line ≡ line ∷ []
  pub ends : unfinished cfg.rx_buf_size [] line ≡ []
  pub fits : Fits cfg line

-- The bytes of a line come, and then there is room to send.
abbrev pub turn : List ℕ → Event
turn line = interrupt (record { bytes = line; tx_ready = true } ∷ [])

module _ (ring : ItemRing) (cfg : Config) (stack : List ℕ) (sized : IsSized cfg stack) where
  open ring use {Rb, items}

  -- No message waits, and no line is unfinished.
  record AtRest (d : UartData Rb) : Type 0 where
    valid : IsValid ring cfg stack sized d
    empty : items d.tx_rb ≡ []
    fresh : held ring cfg stack sized d ≡ []

  -- One message waits behind the bytes of a line, with the guard down.
  record Offered (d d' : UartData Rb) (outs : List Out) (line : List ℕ) : Type 0 where
    valid : IsValid ring cfg stack sized d'
    fresh : held ring cfg stack sized d' ≡ []
    silent : fills outs ≡ []
    waits : queue ring cfg d' ≡ reply line ∷ []
    down : d'.sending_guard ≡ false
