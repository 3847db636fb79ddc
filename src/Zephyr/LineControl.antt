-- ===== src/Zephyr/LineControl.antt =====
-- What a host sets on a serial port over USB, as uart_line_ctrl_get reads it time after time.
use echo_bot.Prelude.{ℕ, Bool, false, ◌||◌, not, ◌==◌, List, [], ◌∷◌}

-- Whether the host ever sets DTR.
abbrev pub any_set : List ℕ → Bool
any_set [] = false
any_set (dtr ∷ dtrs) = not (dtr == 0) || any_set dtrs
