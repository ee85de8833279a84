-- ===== src/Switch/Main/Forward.antt =====
-- `handle_packet` against the contract of a learning switch.
use net_working_mini_net.Base.{
  ℕ, ◌≡◌, refl, ◌∙◌, inl, inr, not, true, none, some, List, [], ◌∷◌, ◌==◌, if◌then◌else◌, or_else,
  keep, map, Option-cases, Bool-cases,
}
use net_working_mini_net.Packet.{Bytes}
use net_working_mini_net.Switch.{
  Iface, MacPortMap, iface_send_packet, broadcast_packet, eq_bytes, eq_bytes_iff,
}
use net_working_mini_net.Switch.Mac.{lookup_port}
use net_working_mini_net.Switch.Mac.Lookup.{
  IsUnique, lookup_port-insert_mac_port, insert_mac_port-IsUnique,
}
use net_working_mini_net.Switch.Main.{ether_dhost, ether_shost, forward, handle_packet}

-- A broadcast sends the frame once out of every interface with another index, in order.
pub broadcast_packet-keep :
    (ifaces : List Iface) (iface : Iface) (packet : Bytes) (len : ℕ)
    → broadcast_packet ifaces iface packet len
      ≡ map (λ i. iface_send_packet i packet len) (keep (λ i. not (i.index == iface.index)) ifaces)
unfolding broadcast_packet
broadcast_packet-keep [] iface packet len = refl
broadcast_packet-keep (i ∷ ifaces) iface packet len = elim (Bool-cases (i.index == iface.index)) [
  | inl e ↦ rw (e, broadcast_packet-keep ifaces iface packet len)
  | inr e ↦ rw (e, broadcast_packet-keep ifaces iface packet len)
]

module _ (now : ℕ) (ifaces : List Iface) (t : MacPortMap) (iface : Iface) (packet : Bytes)
    (len : ℕ) where
  -- What the table holds after a frame: every address keeps its interface, and the source address
  -- gets the receiving interface if it had none.
  pub handle_packet-learns :
      (m : List ℕ)
      → lookup_port (handle_packet now ifaces t iface packet len).0 m
        ≡ or_else (lookup_port t m) (if eq_bytes (ether_shost packet) m then some iface else none)
  unfolding handle_packet
  handle_packet-learns m = elim (Option-cases (lookup_port t (ether_shost packet))) [
    | inl out ↦
        rw (out, lookup_port-insert_mac_port now t (ether_shost packet) iface m out)
          (elim (Bool-cases (eq_bytes (ether_shost packet) m)) [
            | inl e ↦
                let same = (eq_bytes_iff (ether_shost packet) m).0 e in
                let out' : lookup_port t m ≡ none = rw same at out in rw (e, out')
            | inr e ↦
                rw e (elim (Option-cases (lookup_port t m)) [ inl o ↦ rw o | inr (_, o) ↦ rw o ])
          ])
    | inr (a, known) ↦ rw known (elim (Bool-cases (eq_bytes (ether_shost packet) m)) [
      | inl e ↦
          let same = (eq_bytes_iff (ether_shost packet) m).0 e in
          let known' : lookup_port t m ≡ some a = rw same at known in rw known'
      | inr e ↦ rw e (elim (Option-cases (lookup_port t m)) [ inl o ↦ rw o | inr (_, o) ↦ rw o ])
    ])
  ]

  pub handle_packet-IsUnique : IsUnique t → IsUnique (handle_packet now ifaces t iface packet len).0
  unfolding handle_packet
  handle_packet-IsUnique u = elim (Option-cases (lookup_port t (ether_shost packet))) [
    | inl out ↦ rw out (insert_mac_port-IsUnique now t (ether_shost packet) iface out u)
    | inr (_, known) ↦ rw known u
  ]

  -- A frame for an address that the table does not hold goes out of every other interface once.
  pub handle_packet-floods :
      lookup_port t (ether_dhost packet) ≡ none
      → (handle_packet now ifaces t iface packet len).1
        ≡ map
            (λ i. iface_send_packet i packet len)
            (keep (λ i. not (i.index == iface.index)) ifaces)
  unfolding handle_packet forward
  handle_packet-floods out = rw out (broadcast_packet-keep ifaces iface packet len)

  -- A frame from a known source changes nothing in the table, neither its time nor its interface.
  pub handle_packet_known :
      (old : Iface)
      → lookup_port t (ether_shost packet) ≡ some old
      → (handle_packet now ifaces t iface packet len).0 ≡ t
  unfolding handle_packet
  handle_packet_known old known = rw known

-- Once a host whose address was not in the table has sent a frame, the next frame for that address
-- goes to the host's interface alone.
pub handle_packet_reply :
    (now later : ℕ) (ifaces : List Iface) (t : MacPortMap) (host other : Iface)
    (packet reply : Bytes) (len len' : ℕ)
    → lookup_port t (ether_shost packet) ≡ none
    → ether_dhost reply ≡ ether_shost packet
    → (handle_packet later ifaces (handle_packet now ifaces t host packet len).0 other reply len').1
      ≡ iface_send_packet host reply len' ∷ []
handle_packet_reply now later ifaces t host other packet reply len len' new to =
    let t' = (handle_packet now ifaces t host packet len).0 in
    let same : eq_bytes (ether_shost packet) (ether_shost packet) ≡ true =
      (eq_bytes_iff (ether_shost packet) (ether_shost packet)).1 refl in
    let learnt : lookup_port t' (ether_shost packet) ≡ some host =
      handle_packet-learns now ifaces t host packet len (ether_shost packet)
      ∙ rw (new, same) refl in
    let found : lookup_port t' (ether_dhost reply) ≡ some host = rw to learnt in
    unfold handle_packet forward in rw found refl
