-- ===== src/UartPeripheralB/Cost.antt =====
-- How many words of the ring buffer messages take.
use echo_bot.Prelude.{ℕ, ◌+◌, ◌/◌, ◌≡◌, refl, List, [], ◌∷◌, ◌++◌, map, arith, length, All}
use echo_bot.Zephyr.ItemRing.{Item, used}
use echo_bot.UartPeripheralB.{Config}
use echo_bot.UartPeripheralB.Message.{payload, GoodItem}

-- For each message its words with a spare byte, and one.
abbrev pub cost : List (List ℕ) → ℕ
cost [] = 0
cost (m ∷ ms) = length m / 4 + 2 + cost ms

pub cost-append : (ms ns : List (List ℕ)) → cost (ms ++ ns) ≡ cost ms + cost ns
cost-append [] ns = omega arith
cost-append (m ∷ ms) ns = omega (arith, cost-append ms ns)

pub used-cost :
    (cfg : Config) (its : List Item) → All (GoodItem cfg) its → used its ≡ cost (map payload its)
used-cost cfg [] h = refl
used-cost cfg (it ∷ its) h = omega (arith, h.0.tight, used-cost cfg its h.1)
