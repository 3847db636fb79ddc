-- ===== src/UartPeripheralB/Overrun.antt =====
-- What a line does that is too long for a message, where the configuration lets it in.
use echo_bot.Prelude.{ℕ, ◌+◌, ◌*◌, ◌<◌, ◌≡◌, ◌⊎◌}
use echo_bot.Zephyr.ItemRing.{ItemRing}

-- With `n` bytes and the header, a message does not fit the local array, or fills it to the last byte while
-- the ring has room for an item of one word more.
abbrev pub IsTooLong : (words n space : ℕ) → Type 0
IsTooLong words n space = (words * 4 < n + 5) ⊎ ((words * 4 ≡ n + 5) × (words + 1 < space))
