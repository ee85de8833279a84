-- ===== src/Switch/Main.antt =====
-- switch_stack/main.c: packets from the sockets to the forwarding table, and `main`.
pub mod Forward
pub mod Run
use mathlib.Core.Option
use net_working_mini_net.Base.{
  ℕ, zero, suc, Bool, not, ◌&&◌, Option, none, some, List, [], ◌∷◌, ◌++◌, ◌==◌, if◌then◌else◌,
  is_some, find, map,
}
use net_working_mini_net.Packet.{Bytes}
use net_working_mini_net.Switch.{
  Iface, MacPortMap, Sent, bytes_at, eth_alen, iface_send_packet, broadcast_packet,
}
use net_working_mini_net.Switch.Mac.{lookup_port, insert_mac_port}
use net_working_mini_net.Switch.Start.{init_ustack}
use net_working_mini_net.Device.{Os, IfAddr, Ustack}

-- `eh->ether_dhost` and `eh->ether_shost`
unfoldable pub ether_dhost : Bytes → List ℕ
unfolding bytes_at
ether_dhost p = bytes_at p 0 eth_alen

unfoldable pub ether_shost : Bytes → List ℕ
unfolding bytes_at
ether_shost p = bytes_at p eth_alen eth_alen

-- The first `if` of `handle_packet`: to the interface of the destination, or to all others.
unfoldable pub forward : List Iface → Option Iface → Iface → Bytes → ℕ → List Sent
unfolding iface_send_packet broadcast_packet
forward ifaces none iface packet len = broadcast_packet ifaces iface packet len
forward ifaces (some tx_iface) iface packet len = iface_send_packet tx_iface packet len ∷ []

unfoldable pub handle_packet :
    (now : ℕ) → List Iface → MacPortMap → Iface → Bytes → (len : ℕ) → MacPortMap × List Sent
unfolding forward ether_dhost ether_shost
handle_packet now ifaces t iface packet len =
    let sent = forward ifaces (lookup_port t (ether_dhost packet)) iface packet len in
    let known = is_some (lookup_port t (ether_shost packet)) in
    (if known then t else insert_mac_port now t (ether_shost packet) iface, sent)

-- The loop over `instance->iface_list`; `none` is NULL.
unfoldable pub fd_to_iface : List Iface → (fd : ℕ) → Option Iface
fd_to_iface ifaces fd = find (λ iface. iface.fd == fd) ifaces

-- What `recvfrom` gives for a descriptor that is ready.
pub data Receive : Type 0 where
  failed : Receive
  outgoing : Receive
  frame : Bytes → (len : ℕ) → Receive

-- One call of `poll` that does not fail: no event, or what each descriptor in turn delivers (`none` where
-- its `POLLIN` is not set), with the time of the round.
pub data Poll : Type 0 where
  nothing : Poll
  ready : (now : ℕ) → List (Option Receive) → Poll

-- The body of the loop over the descriptors. A NULL interface would be dereferenced: `none`.
unfoldable pub handle_receive :
    (now : ℕ)
    → List Iface
    → (fd : ℕ) → Option Receive
    → MacPortMap
    → Option (MacPortMap × List Sent)
unfolding handle_packet fd_to_iface
handle_receive now ifaces fd none t = some (t, [])
handle_receive now ifaces fd (some failed) t = some (t, [])
handle_receive now ifaces fd (some outgoing) t = some (t, [])
handle_receive now ifaces fd (some (frame packet len)) t =
    Option.map (λ iface. handle_packet now ifaces t iface packet len) (fd_to_iface ifaces fd)

-- The loop over `instance->fds`, whose descriptors are those of the interfaces in order.
unfoldable pub handle_ready :
    (now : ℕ)
    → List Iface
    → (fds : List ℕ) → List (Option Receive)
    → MacPortMap
    → Option (MacPortMap × List Sent)
unfolding handle_receive
handle_ready now ifaces [] rs t = some (t, [])
handle_ready now ifaces (fd ∷ fds) [] t = some (t, [])
handle_ready now ifaces (fd ∷ fds) (r ∷ rs) t = Option.bind (handle_receive now ifaces fd r t) λ s.
    Option.map (λ (u : MacPortMap × List Sent). (u.0, s.1 ++ u.1))
      (handle_ready now ifaces fds rs s.0)

-- `ustack_run`: the list holds the calls of `poll` before the one that fails, at which the loop ends. A run
-- in which `poll` never fails does not return, and has no such list.
unfoldable pub ustack_run : List Iface → List Poll → MacPortMap → Option (MacPortMap × List Sent)
unfolding handle_ready
ustack_run ifaces [] t = some (t, [])
ustack_run ifaces (nothing ∷ polls) t = ustack_run ifaces polls t
ustack_run ifaces (ready now rs ∷ polls) t =
    Option.bind (handle_ready now ifaces (map (λ iface. iface.fd) ifaces) rs t) λ s.
      Option.map (λ (u : MacPortMap × List Sent). (u.0, s.1 ++ u.1)) (ustack_run ifaces polls s.0)

-- How `main` ends: it exits before the loop, dereferences NULL, or returns once `poll` has failed.
pub data Outcome : Type 0 where
  gave_up : Outcome
  crashed : Outcome
  returned : MacPortMap → List Sent → Outcome

unfoldable pub run_outcome : Option (MacPortMap × List Sent) → Outcome
run_outcome none = crashed
run_outcome (some (t, sent)) = returned t sent

unfoldable pub run_started : Option (Ustack Iface × MacPortMap) → List Poll → Outcome
unfolding run_outcome ustack_run
run_started none polls = gave_up
run_started (some (u, t)) polls = run_outcome (ustack_run u.iface_list polls t)

-- `main` in its own thread: the rounds of the sweeping thread that `init_mac_port_table` starts are left out
-- here, as are failures of `getifaddrs` and `malloc`. 0 is the superuser's identity, and any other number is a
-- true condition.
unfoldable pub main : Os → (uid euid : ℕ) → List IfAddr → List Poll → Outcome
unfolding run_started
main os uid euid addrs polls =
    if not (uid == 0) && not (euid == 0) then gave_up else run_started (init_ustack os addrs) polls
