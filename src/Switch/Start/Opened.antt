-- ===== src/Switch/Start/Opened.antt =====
-- What `init_all_ifaces` of switch_stack has made when it returns.
use net_working_mini_net.Base.{
  ℕ, ◌≡◌, refl, inl, inr, none, some, List, [], ◌∷◌, map, length, if◌then◌else◌, ◌==◌, Bool-cases,
}
use net_working_mini_net.Device.{IfAddr, Os, open_device}
use net_working_mini_net.Device.Available.{available, find_available_ifaces_lem}
use net_working_mini_net.Switch.Start.{read_iface_info, read_ifaces, init_all_ifaces}

read_ifaces_lem :
    (os : Os) (names : List (List ℕ))
    → read_ifaces os names ≡ (map (read_iface_info os) names, map (open_device os) names)
unfolding read_ifaces read_iface_info
read_ifaces_lem os [] = refl
read_ifaces_lem os (name ∷ names) = rw (read_ifaces_lem os names) refl

-- `init_all_ifaces` of the switch exits exactly if no AF_PACKET address has "-eth" in its name.
-- Otherwise the list has one interface for each such address, in order, also where the device did not
-- open; `nifs` counts them, and `fds` has the answer of `open_device` for each, -1 included.
pub init_all_ifaces-available :
    (os : Os) (addrs : List IfAddr)
    → init_all_ifaces os addrs ≡ (
        if length (available addrs) == 0
        then none
        else some (record {
          iface_list = map (read_iface_info os) (available addrs);
          nifs = length (available addrs);
          fds = map (open_device os) (available addrs);
        }))
unfolding init_all_ifaces
init_all_ifaces-available os addrs = elim (Bool-cases (length (available addrs) == 0)) [
  | inl e ↦ rw (find_available_ifaces_lem addrs, e) refl
  | inr e ↦ rw (find_available_ifaces_lem addrs, e, read_ifaces_lem os (available addrs)) refl
]
