-- ===== src/DhcpClient.antt =====
-- src/main_dhcpv4_client.c: the client that asks for an address and prints what it gets.
pub mod Addresses
mod Tests
use echo_bot.Zephyr.NetAddr.{AddrText, net_ipv4_addr_len}
use echo_bot.Prelude.{
  ℕ, Bool, true, false, Option, none, some, List, [], ◌∷◌, ◌++◌, ◌==◌, if◌then◌else◌, not, Result,
  ok, fault, null_pointer, ◌>>=◌,
}

-- `struct net_if_addr`: whether its type is NET_ADDR_DHCP, and the address.
pub record IfAddr : Type 0 where
  pub is_dhcp : Bool
  pub in_addr : ℕ

-- `struct net_if_ipv4` with its array of NET_IF_MAX_IPV4_ADDR addresses.
pub record Ipv4 : Type 0 where
  pub unicast : List IfAddr
  pub netmask : ℕ
  pub gw : ℕ

pub record NetIf : Type 0 where
  pub ipv4 : Option Ipv4
  pub lease_time : ℕ

-- The lines of the log.
pub data Line : Type 0 where
  your_address subnet router : List ℕ → Line
  lease_time : ℕ → Line

-- The calls of `main_dhcpv4_client`.
pub data Call : Type 0 where
  init_event_callback : ℕ → Call
  add_event_callback net_if_get_default net_dhcpv4_start : Call

-- `%s`
abbrev pub string : Option (List ℕ) → Result (List ℕ)
string none = fault null_pointer
string (some text) = ok text

-- `event_add` is NET_EVENT_IPV4_ADDR_ADD.
module _ (event_add : ℕ) (addr_text : AddrText) where
  open addr_text use {net_addr_ntop}

  -- The four lines of an address, through `buf`.
  unfoldable pub report : NetIf → Ipv4 → IfAddr → Result (List Line)
  report iface config addr = do
    address ← string (net_addr_ntop addr.in_addr net_ipv4_addr_len)
    netmask ← string (net_addr_ntop config.netmask net_ipv4_addr_len)
    gw ← string (net_addr_ntop config.gw net_ipv4_addr_len)
    ok (your_address address ∷ lease_time iface.lease_time ∷ subnet netmask ∷ router gw ∷ [])

  -- The loop, on the rest of the array.
  unfoldable pub address_loop : NetIf → Ipv4 → List IfAddr → Result (List Line)
  address_loop iface config [] = ok []
  address_loop iface config (addr ∷ addrs) = do
    lines ← if not addr.is_dhcp then ok [] else report iface config addr
    rest ← address_loop iface config addrs
    ok (lines ++ rest)

  unfoldable pub handler : ℕ → NetIf → Result (List Line)
  handler mgmt_event iface =
      if not (mgmt_event == event_add) then ok [] else addresses iface iface.ipv4
    where
      addresses : NetIf → Option Ipv4 → Result (List Line)
      addresses iface none = fault null_pointer
      addresses iface (some config) = address_loop iface config config.unicast

unfoldable pub main_dhcpv4_client : (event_add : ℕ) → List Call
main_dhcpv4_client event_add =
    init_event_callback event_add ∷ add_event_callback ∷ net_if_get_default ∷ net_dhcpv4_start ∷ []
