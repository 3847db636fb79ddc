-- ===== src/DhcpClient/Addresses.antt =====
-- Which addresses the client prints.
use echo_bot.Prelude.{
  ◌≤◌, ℕ, ◌*◌, ◌≡◌, refl, ap, inl, inr, Bool-cases, some, List, [], ◌∷◌, arith, ◌==◌, if◌then◌else◌,
  ok, length, map,
}
use echo_bot.Zephyr.NetAddr.{AddrText, net_ipv4_addr_len}
use echo_bot.DhcpClient.{
  IfAddr, Ipv4, NetIf, Line, your_address, lease_time, address_loop, handler, report, subnet,
  router,
}

-- The texts of the lines of each kind.
abbrev pub addresses : List Line → List (List ℕ)
addresses [] = []
addresses (your_address a ∷ ls) = a ∷ addresses ls
addresses (_ ∷ ls) = addresses ls

abbrev pub leases : List Line → List ℕ
leases [] = []
leases (lease_time n ∷ ls) = n ∷ leases ls
leases (_ ∷ ls) = leases ls

-- The addresses that DHCP gave.
abbrev pub given : List IfAddr → List ℕ
given [] = []
given (addr ∷ addrs) = if addr.is_dhcp then addr.in_addr ∷ given addrs else given addrs

module _ (event_add : ℕ) (addr_text : AddrText) where
  open addr_text use {net_addr_ntop, text, fits}

  -- What the lines say of these addresses.
  record Tells (iface : NetIf) (addrs : List ℕ) (lines : List Line) : Type 0 where
    told : addresses lines ≡ map text addrs
    leased : leases lines ≡ map (λ a. iface.lease_time) addrs
    four : length lines ≡ 4 * length addrs

  report_four :
      (iface : NetIf) (config : Ipv4) (addr : IfAddr)
      → report event_add addr_text iface config addr
        ≡ ok (
            your_address (text addr.in_addr)
            ∷ lease_time iface.lease_time
            ∷ subnet (text config.netmask)
            ∷ router (text config.gw)
            ∷ [])
  unfolding report
  report_four iface config addr =
      let enough : net_ipv4_addr_len ≤ net_ipv4_addr_len = omega arith in
      rw (fits addr.in_addr _ enough, fits config.netmask _ enough, fits config.gw _ enough) refl

  address_loop-Tells :
      (iface : NetIf) (config : Ipv4) (addrs : List IfAddr)
      → (lines : List Line) × (address_loop event_add addr_text iface config addrs ≡ ok lines)
        × Tells iface (given addrs) lines
  unfolding address_loop report
  address_loop-Tells iface config [] =
      ([], refl, record { told = refl; leased = refl; four = refl })
  address_loop-Tells iface config (addr ∷ addrs) =
      let (lines, run, rest) = address_loop-Tells iface config addrs in
      elim (Bool-cases addr.is_dhcp) [
        | inl e ↦ (
          your_address (text addr.in_addr)
              ∷ lease_time iface.lease_time
              ∷ subnet (text config.netmask)
              ∷ router (text config.gw)
              ∷ lines,
          rw (e, report_four iface config addr, run) refl,
          rw e (record {
            told = ap (λ t. text addr.in_addr ∷ t) rest.told;
            leased = ap (λ t. iface.lease_time ∷ t) rest.leased;
            four = omega (arith, rest.four);
          }),
        )
        | inr e ↦ (lines, rw (e, run) refl, rw e rest)
      ]

  -- On an interface with IPv4 nothing faults: no NULL is printed. At the event that an address is added,
  -- the text of each address that DHCP gave is printed once, in the order of the array, on four lines
  -- with the lease time; no other address is printed, and at other events nothing is.
  pub handler_lem :
      (mgmt_event lease : ℕ) (config : Ipv4)
      → let iface : NetIf = record { ipv4 = some config; lease_time = lease } in
        let to_print = if mgmt_event == event_add then given config.unicast else [] in
        (lines : List Line) × (handler event_add addr_text mgmt_event iface ≡ ok lines)
        × (addresses lines ≡ map text to_print)
        × (leases lines ≡ map (λ a. lease) to_print)
        × (length lines ≡ 4 * length to_print)
  unfolding handler
  handler_lem mgmt_event lease config = elim (Bool-cases (mgmt_event == event_add)) [
    | inl same ↦
        let iface : NetIf = record { ipv4 = some config; lease_time = lease } in
        let (lines, run, h) = address_loop-Tells iface config config.unicast in
        (lines, rw same run, rw same h.told, rw same h.leased, rw same h.four)
    | inr other ↦ ([], rw other refl, rw other refl, rw other refl, rw other refl)
  ]
