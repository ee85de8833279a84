-- ===== src/NatStack/Start.antt =====
-- nat_stack/main.c: the start, from the interfaces to the table of nat.c. `arpcache_init` and
-- `init_rtable` belong to the IP stack's library.
pub mod Opened
use mathlib.Core.Option
use net_working_mini_net.Base.{ℕ, Option, none, some, List, [], ◌∷◌, ◌>>=◌, htonl}
use net_working_mini_net.Device.{IfAddr, Os, Ustack, or_value, find_available_ifaces, open_device}
use net_working_mini_net.NatStack.{Iface, Table}
use net_working_mini_net.NatStack.Linear.{InitResult, nat_table_init}

-- Without an address or a mask the process exits: `none`. The index and the hardware address are read
-- without a test.
unfoldable pub read_iface_info : Os → (name : List ℕ) → Option Iface
read_iface_info os name =
    let fd = open_device os name in
    do
      ip ← os.get_addr fd name
      mask ← os.get_netmask fd name
      some (record {
        fd = fd;
        index = or_value (os.get_index name) os.stale_index;
        mac = or_value (os.get_hwaddr name) os.stale_mac;
        ip = htonl ip;
        mask = htonl mask;
        name = name;
        ip_str = os.inet_ntoa ip;
      })

-- The loop of `init_all_ifaces`: the interfaces, and the descriptors that go into `fds`.
unfoldable pub read_ifaces : Os → List (List ℕ) → Option (List Iface × List ℕ)
read_ifaces os [] = some ([], [])
read_ifaces os (name ∷ names) = do
  iface ← read_iface_info os name
  rest ← read_ifaces os names
  some (iface ∷ rest.0, iface.fd ∷ rest.1)

unfoldable pub init_all_ifaces : Os → List IfAddr → Option (Ustack Iface)
init_all_ifaces os addrs = do
  found ← find_available_ifaces addrs
  read ← read_ifaces os (found.0)
  some (record { iface_list = read.0; nifs = found.1; fds = read.1 })

-- How `init_ustack` ends.
pub data StartResult : Type 0 where
  exited : StartResult
  null_dereference : StartResult
  started : Ustack Iface → Table → StartResult

unfoldable pub start_table : Ustack Iface → InitResult Table → StartResult
start_table u InitResult.exit_failure = exited
start_table u InitResult.null_dereference = null_dereference
start_table u (InitResult.ready t) = started u t

unfoldable pub start_stack : Option (Ustack Iface) → StartResult
unfolding start_table
start_stack none = exited
start_stack (some u) = start_table u (nat_table_init u.iface_list)

unfoldable pub init_ustack : Os → List IfAddr → StartResult
unfolding start_stack
init_ustack os addrs = start_stack (init_all_ifaces os addrs)
