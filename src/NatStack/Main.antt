-- ===== src/NatStack/Main.antt =====
-- nat_stack/main.c: packets from the sockets to the translation, and `main`.
pub mod Run
pub mod Whole
use mathlib.Core.Option
use net_working_mini_net.Base.{
  ℕ, Bool, not, true, false, ◌||◌, ◌&&◌, Option, none, some, List, [], ◌∷◌, ◌++◌, ◌==◌, ◌+◌, leb,
  if◌then◌else◌, find, keep, map, htons, htonl,
}
use net_working_mini_net.Packet.{
  ip_hdr, ip_hdr_size, tcp_hdr, ipproto_tcp, ether_hdr_size, Bytes, ether_type, eth_p_ip, eth_p_arp,
  protocol, ipproto_icmp, daddr, icmp_type, icmp_echorequest, icmp_echoreply,
}
use net_working_mini_net.Packet.Checksum.{tcp_len, tcp_checksum_off}
use net_working_mini_net.Switch.Main.{Receive, Poll, failed, outgoing, frame, nothing, ready}
use net_working_mini_net.NatStack.{Iface, Table, Action, icmp_send_packet, handle_arp_packet, free}
use net_working_mini_net.NatStack.Linear.{nat_translate_packet}
use net_working_mini_net.NatStack.Start.{
  StartResult, exited, null_dereference, started, init_ustack,
}
use net_working_mini_net.Device.{Os, IfAddr}

-- `fd_to_iface`; `none` is NULL.
unfoldable pub fd_to_iface : List Iface → (fd : ℕ) → Option Iface
fd_to_iface ifaces fd = find (λ iface. iface.fd == fd) ifaces

-- Whether what `handle_ip_packet` and the functions behind it read and write of the frame lies in its first
-- `len` bytes: the IP header up to `daddr`; for an echo request the ICMP type; for a TCP segment the
-- fields of its header up to `checksum`, and the bytes that `tcp_checksum` adds up. What libipstack reads is
-- not among them.
unfoldable pub inside_ip : Iface → Bytes → (len : ℕ) → Bool
inside_ip iface packet len =
    leb (ip_hdr + 20) len
    && (if protocol packet == ipproto_icmp && htonl (daddr packet) == iface.ip
        then leb (tcp_hdr packet + 1) len
        else if protocol packet == ipproto_tcp
        then leb (ip_hdr + ip_hdr_size packet) len
          && leb (tcp_hdr packet + tcp_checksum_off + 2) len
          && leb (tcp_hdr packet + tcp_len packet) len
        else true)

-- The same for `handle_packet`, which reads the Ethernet header.
unfoldable pub inside_frame : Iface → Bytes → (len : ℕ) → Bool
unfolding inside_ip
inside_frame iface packet len =
    leb ether_hdr_size len
    && (if htons (ether_type packet) == eth_p_ip then inside_ip iface packet len else true)

-- How `main` ends: it exits before the loop, dereferences NULL or touches memory outside the copy of a
-- frame, or returns once `poll` has failed.
pub data Outcome : Type 0 where
  gave_up : Outcome
  crashed : Outcome
  returned : Table → List Action → Outcome

unfoldable pub run_outcome : Option (Table × List Action) → Outcome
run_outcome none = crashed
run_outcome (some (t, sent)) = returned t sent

-- `inet_addr` and the address that `malloc` gives to a new mapping are parameters.
module _ (inet_addr : List ℕ → ℕ) (malloc : Table → ℕ) where
  unfoldable pub handle_ip_packet :
      (now : ℕ) → Table → Iface → Bytes → (len : ℕ) → Table × List Action
  handle_ip_packet now t iface packet len =
      if protocol packet == ipproto_icmp && htonl (daddr packet) == iface.ip
      then (
        t,
        if icmp_type packet == icmp_echorequest
            then icmp_send_packet packet len icmp_echoreply 0 ∷ free packet ∷ []
            else (free packet ∷ []),
      )
      else nat_translate_packet inet_addr now (malloc t) t packet len

  -- A packet of another type is neither handled nor freed.
  unfoldable pub handle_packet : (now : ℕ) → Table → Iface → Bytes → (len : ℕ) → Table × List Action
  unfolding handle_ip_packet
  handle_packet now t iface packet len =
      if htons (ether_type packet) == eth_p_ip
      then handle_ip_packet now t iface packet len
      else if htons (ether_type packet) == eth_p_arp
      then (t, handle_arp_packet iface packet len ∷ [])
      else (t, [])

  -- The body of the loop over the descriptors. A NULL interface ends the run, and so does an access
  -- outside the `len` bytes that `malloc` gave to the copy of the frame: `none`. Where `malloc` fails for
  -- the copy, the loop goes on as after `failed`.
  unfoldable pub handle_receive :
      (now : ℕ) → List Iface → (fd : ℕ) → Option Receive → Table → Option (Table × List Action)
  unfolding handle_packet fd_to_iface inside_frame
  handle_receive now ifaces fd none t = some (t, [])
  handle_receive now ifaces fd (some failed) t = some (t, [])
  handle_receive now ifaces fd (some outgoing) t = some (t, [])
  handle_receive now ifaces fd (some (frame packet len)) t =
      Option.bind (fd_to_iface ifaces fd) λ iface.
        if inside_frame iface packet len then some (handle_packet now t iface packet len) else none

  -- The loop over `instance->fds`, whose descriptors are those of the interfaces in order.
  unfoldable pub handle_ready :
      (now : ℕ)
      → List Iface
      → (fds : List ℕ) → List (Option Receive)
      → Table
      → Option (Table × List Action)
  unfolding handle_receive
  handle_ready now ifaces [] rs t = some (t, [])
  handle_ready now ifaces (fd ∷ fds) [] t = some (t, [])
  handle_ready now ifaces (fd ∷ fds) (r ∷ rs) t =
      Option.bind (handle_receive now ifaces fd r t) λ s.
        Option.map (λ (u : Table × List Action). (u.0, s.1 ++ u.1))
          (handle_ready now ifaces fds rs s.0)

  -- `ustack_run`: the list holds the calls of `poll` before the one that fails, at which the loop ends. A
  -- run in which `poll` never fails does not return, and has no such list.
  unfoldable pub ustack_run : List Iface → List Poll → Table → Option (Table × List Action)
  unfolding handle_ready
  ustack_run ifaces [] t = some (t, [])
  ustack_run ifaces (nothing ∷ polls) t = ustack_run ifaces polls t
  ustack_run ifaces (ready now rs ∷ polls) t =
      Option.bind (handle_ready now ifaces (map (λ iface. iface.fd) ifaces) rs t) λ s.
        Option.map (λ (u : Table × List Action). (u.0, s.1 ++ u.1)) (ustack_run ifaces polls s.0)

  unfoldable pub run_started : StartResult → List Poll → Outcome
  unfolding run_outcome ustack_run
  run_started exited polls = gave_up
  run_started null_dereference polls = crashed
  run_started (started u t) polls = run_outcome (ustack_run u.iface_list polls t)

  -- `main`; 0 is the superuser's identity. Any other number is a true condition. `getifaddrs` and the calls of
  -- `malloc` before the loop succeed.
  unfoldable pub main : Os → (uid euid : ℕ) → List IfAddr → List Poll → Outcome
  unfolding run_started
  main os uid euid addrs polls =
      if not (uid == 0) && not (euid == 0)
      then gave_up
      else run_started (init_ustack os addrs) polls
