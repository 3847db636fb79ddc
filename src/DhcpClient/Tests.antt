-- ===== src/DhcpClient/Tests.antt =====
-- An interface with one address of DHCP, and the theorem at it.
use echo_bot.Prelude.{
  ℕ, ◌*◌, ◌≡◌, refl, true, false, none, some, List, [], ◌∷◌, ok, length, if◌then◌else◌, leb, arith,
  ◌≤◌,
}
use echo_bot.Zephyr.NetAddr.{AddrText, net_ipv4_addr_len}
use echo_bot.DhcpClient.{
  Ipv4, NetIf, Line, your_address, subnet, router, lease_time, address_loop, handler, report,
}
use echo_bot.DhcpClient.Addresses.{addresses, leases, handler_lem}

one_byte_fits :
    (addr size : ℕ)
    → net_ipv4_addr_len ≤ size
    → (if leb net_ipv4_addr_len size then some (addr ∷ []) else none) ≡ some (addr ∷ [])
one_byte_fits addr size h = ground arith

-- An address as one byte; NULL in a buffer of less than 16.
abbrev one_byte : AddrText
one_byte = record {
  net_addr_ntop = λ addr size. if leb net_ipv4_addr_len size then some (addr ∷ []) else none;
  text = λ addr. addr ∷ [];
  fits = one_byte_fits;
}

abbrev config : Ipv4
config = record {
  unicast = record { is_dhcp = false; in_addr = 1 } ∷ record { is_dhcp = true; in_addr = 2 } ∷ [];
  netmask = 3;
  gw = 4;
}

abbrev iface : NetIf
iface = record { ipv4 = some config; lease_time = 600 }

handler_add :
    handler 7 one_byte 7 iface
    ≡ ok (your_address (2 ∷ []) ∷ lease_time 600 ∷ subnet (3 ∷ []) ∷ router (4 ∷ []) ∷ [])
unfolding handler address_loop report
handler_add = refl

handler_lem_example :
    (lines : List Line) × (handler 7 one_byte 7 iface ≡ ok lines)
    × (addresses lines ≡ (2 ∷ []) ∷ [])
    × (leases lines ≡ 600 ∷ [])
    × (length lines ≡ 4 * 1)
handler_lem_example = handler_lem 7 one_byte 7 600 config
