-- ===== src/Zephyr/NetAddr.antt =====
-- net_addr_ntop for IPv4 addresses.
use echo_bot.Prelude.{ℕ, ◌≤◌, ◌≡◌, Option, some, List}

-- NET_IPV4_ADDR_LEN, the size of a buffer for the text of any address and its NUL.
abbrev pub net_ipv4_addr_len : ℕ
net_ipv4_addr_len = 16

-- An address as text in a buffer of a size, or NULL.
pub record AddrText : Type 0 where
  pub net_addr_ntop : ℕ → (size : ℕ) → Option (List ℕ)
  pub text : ℕ → List ℕ
  pub fits : (addr size : ℕ) → net_ipv4_addr_len ≤ size → net_addr_ntop addr size ≡ some (text addr)
