-- ===== src/Zephyr/Errno.antt =====
-- Return codes: 0, or a negative number of errno.h.
use echo_bot.Prelude.{Bool, true, not, ◌==◌}
use echo_bot.Prelude.Int.{ℤ, pos, negsuc}

-- `if (ret)`
abbrev pub is_error : ℤ → Bool
is_error (pos n) = not (n == 0)
is_error (negsuc n) = true

-- -ENODEV
abbrev pub no_device : ℤ
no_device = negsuc 18
