-- ===== src/Switch/Main/Run.antt =====
-- Runs of the switch: the poll loop, and its packets interleaved with the sweeping thread.
use mathlib.Core.Option
use net_working_mini_net.Base.{ℕ, ◌≡◌, refl, Option, none, some, List, [], ◌∷◌, ◌++◌, map, All}
use net_working_mini_net.Device.Descriptors.{Known, fds-Known}
use net_working_mini_net.Packet.{Bytes}
use net_working_mini_net.Switch.{Iface, MacPortMap, Sent}
use net_working_mini_net.Switch.Mac.{sweep_aged_mac_port_entry}
use net_working_mini_net.Switch.Mac.Lookup.{IsUnique}
use net_working_mini_net.Switch.Mac.Aging.{sweep-IsUnique}
use net_working_mini_net.Switch.Main.{
  Receive, Poll, failed, outgoing, frame, nothing, ready, handle_packet, fd_to_iface,
  handle_receive, handle_ready, ustack_run,
}
use net_working_mini_net.Switch.Main.Forward.{handle_packet-IsUnique}

-- A run that met no NULL interface and left the addresses of the table unique.
abbrev pub EndsUnique : Option (MacPortMap × List Sent) → Type 0
EndsUnique r = (t : MacPortMap) × (sent : List Sent) × (r ≡ some (t, sent)) × IsUnique t

module _ (now : ℕ) (ifaces : List Iface) where
  handle_receive_total :
      (fd : ℕ) (r : Option Receive) (t : MacPortMap)
      → Known (λ (i : Iface). i.fd) ifaces fd
      → IsUnique t
      → EndsUnique (handle_receive now ifaces fd r t)
  unfolding handle_receive fd_to_iface
  handle_receive_total fd none t k u = (t, [], refl, u)
  handle_receive_total fd (some failed) t k u = (t, [], refl, u)
  handle_receive_total fd (some outgoing) t k u = (t, [], refl, u)
  handle_receive_total fd (some (frame packet len)) t (iface, e) u =
      let (t', sent) = handle_packet now ifaces t iface packet len in
      (t', sent, rw e, handle_packet-IsUnique now ifaces t iface packet len u)

  handle_ready_total :
      (fds : List ℕ) (rs : List (Option Receive)) (t : MacPortMap)
      → All (Known (λ (i : Iface). i.fd) ifaces) fds
      → IsUnique t
      → EndsUnique (handle_ready now ifaces fds rs t)
  unfolding handle_ready Option.bind
  handle_ready_total [] rs t k u = (t, [], refl, u)
  handle_ready_total (fd ∷ fds) [] t k u = (t, [], refl, u)
  handle_ready_total (fd ∷ fds) (r ∷ rs) t k u =
      let (t₁, sent₁, e₁, u₁) = handle_receive_total fd r t k.0 u in
      let (t₂, sent₂, e₂, u₂) = handle_ready_total fds rs t₁ k.1 u₁ in
      (t₂, sent₁ ++ sent₂, rw (e₁, e₂), u₂)

-- If no address has two entries at the start, then whatever the sockets deliver, the poll loop of
-- the switch never meets a NULL interface, and no address has two entries at the end.
pub ustack_run_total :
    (ifaces : List Iface) (polls : List Poll) (t : MacPortMap)
    → IsUnique t
    → EndsUnique (ustack_run ifaces polls t)
unfolding ustack_run Option.bind
ustack_run_total ifaces [] t u = (t, [], refl, u)
ustack_run_total ifaces (nothing ∷ polls) t u = ustack_run_total ifaces polls t u
ustack_run_total ifaces (ready now rs ∷ polls) t u =
    let (t₁, sent₁, e₁, u₁) =
      handle_ready_total now ifaces (map (λ i. i.fd) ifaces) rs t
        (fds-Known (λ (i : Iface). i.fd) ifaces) u in
    let (t₂, sent₂, e₂, u₂) = ustack_run_total ifaces polls t₁ u₁ in
    (t₂, sent₁ ++ sent₂, rw (e₁, e₂), u₂)

-- One packet handled, or one round of the sweeping thread, each as a whole.
pub data Step (ifaces : List Iface) : MacPortMap → MacPortMap → Type 0 where
  packet_in :
      (now : ℕ) (t : MacPortMap) (iface : Iface) (packet : Bytes) (len : ℕ)
      → Step ifaces t (handle_packet now ifaces t iface packet len).0
  sweep : (now : ℕ) (t : MacPortMap) → Step ifaces t (sweep_aged_mac_port_entry now t).1

pub data Reach (ifaces : List Iface) (s : MacPortMap) : MacPortMap → Type 0 where
  here : Reach ifaces s s
  next : {t u : MacPortMap} → Reach ifaces s t → Step ifaces t u → Reach ifaces s u

Step-IsUnique : {ifaces : List Iface} {t u : MacPortMap} → Step ifaces t u → IsUnique t → IsUnique u
Step-IsUnique {ifaces} (packet_in now t iface packet len) u =
    handle_packet-IsUnique now ifaces t iface packet len u
Step-IsUnique (sweep now t) u = sweep-IsUnique now t u

-- From a table with unique addresses, every interleaving of packets and sweeps leads to such a table.
pub Reach-IsUnique :
    {ifaces : List Iface} {s t : MacPortMap} → Reach ifaces s t → IsUnique s → IsUnique t
Reach-IsUnique here u = u
Reach-IsUnique (next r st) u = Step-IsUnique st (Reach-IsUnique r u)
