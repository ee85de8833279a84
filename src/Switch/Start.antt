-- ===== src/Switch/Start.antt =====
-- switch_stack/main.c: the start, from the interfaces to the empty forwarding table.
pub mod Opened
use mathlib.Core.Option
use net_working_mini_net.Base.{ℕ, Option, none, some, List, [], ◌∷◌, ◌>>=◌}
use net_working_mini_net.Device.{IfAddr, Os, Ustack, or_value}
use net_working_mini_net.Device
use net_working_mini_net.Switch.{Iface, MacPortMap}
use net_working_mini_net.Switch.Mac.{init_mac_port_table}

-- The two functions have the text of those of nat_stack.
abbrev pub open_device : Os → (dname : List ℕ) → ℕ
open_device os dname = Device.open_device os dname

abbrev pub find_available_ifaces : List IfAddr → Option (List (List ℕ) × ℕ)
find_available_ifaces addrs = Device.find_available_ifaces addrs

-- Whatever fails here, the interface stays in the list.
unfoldable pub read_iface_info : Os → (name : List ℕ) → Iface
read_iface_info os name = record {
  fd = open_device os name;
  index = or_value (os.get_index name) os.stale_index;
  mac = or_value (os.get_hwaddr name) os.stale_mac;
  name = name;
}

-- The loop of `init_all_ifaces`: the interfaces, and the descriptors that go into `fds`.
unfoldable pub read_ifaces : Os → List (List ℕ) → List Iface × List ℕ
unfolding read_iface_info
read_ifaces os [] = ([], [])
read_ifaces os (name ∷ names) =
    let iface = read_iface_info os name in
    let rest = read_ifaces os names in (iface ∷ rest.0, iface.fd ∷ rest.1)

-- `none` where the process exits.
unfoldable pub init_all_ifaces : Os → List IfAddr → Option (Ustack Iface)
unfolding read_ifaces
init_all_ifaces os addrs = do
  found ← find_available_ifaces addrs
  let read = read_ifaces os (found.0)
  some (record { iface_list = read.0; nifs = found.1; fds = read.1 })

unfoldable pub init_ustack : Os → List IfAddr → Option (Ustack Iface × MacPortMap)
unfolding init_all_ifaces
init_ustack os addrs = do u ← init_all_ifaces os addrs; some (u, init_mac_port_table)
