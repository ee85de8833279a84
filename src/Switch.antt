-- ===== src/Switch.antt =====
-- switch_stack: the data of base.h and mac.h, and the network interface of packet.c.
pub mod Mac
pub mod Start
pub mod Main
use net_working_mini_net.Base.{
  ℕ, zero, suc, ◌+◌, ◌≡◌, ◌↔◌, refl, Bool, true, false, ◌&&◌, List, [], ◌∷◌, ◌==◌, if◌then◌else◌,
  htons, arith,
}
use net_working_mini_net.Packet.{Bytes, eth_p_arp}

-- `iface_info_t`. A pointer to one stands for the structure: after start-up no field changes.
pub record Iface : Type 0 where
  pub fd : ℕ
  pub index : ℕ
  pub mac : List ℕ
  pub name : List ℕ

-- `mac_port_entry_t`
pub record MacPortEntry : Type 0 where
  pub mac : List ℕ
  pub iface : Iface
  pub visited : ℕ

-- `mac_port_map_t`: the 256 lists of the hash table. Each list is a ring of list.h.
abbrev pub MacPortMap : Type 0
MacPortMap = ℕ → List MacPortEntry

abbrev pub eth_alen : ℕ
eth_alen = 6

-- `n` bytes of a packet from an offset on.
unfoldable pub bytes_at : Bytes → (off n : ℕ) → List ℕ
bytes_at p off zero = []
bytes_at p off (suc n) = p off ∷ bytes_at p (off + 1) n

-- `memcmp(a, b, n) == 0` on two blocks of n bytes.
unfoldable pub eq_bytes : List ℕ → List ℕ → Bool
eq_bytes [] [] = true
eq_bytes [] (_ ∷ _) = false
eq_bytes (_ ∷ _) [] = false
eq_bytes (a ∷ as') (b ∷ bs) = (a == b) && eq_bytes as' bs

-- What `sendto` is given: the socket, the fields of `struct sockaddr_ll`, and the frame.
pub record Sent : Type 0 where
  pub fd : ℕ
  pub sll_ifindex : ℕ
  pub sll_halen : ℕ
  pub sll_protocol : ℕ
  pub sll_addr : List ℕ
  pub packet : Bytes
  pub len : ℕ

unfoldable pub iface_send_packet : Iface → Bytes → ℕ → Sent
unfolding bytes_at
iface_send_packet iface packet len = record {
  fd = iface.fd;
  sll_ifindex = iface.index;
  sll_halen = eth_alen;
  sll_protocol = htons eth_p_arp;
  sll_addr = bytes_at packet 0 eth_alen;
  packet = packet;
  len = len;
}

-- `broadcast_packet`: the loop over `instance->iface_list`, which passes over the receiving interface.
unfoldable pub broadcast_packet : List Iface → Iface → Bytes → ℕ → List Sent
unfolding iface_send_packet
broadcast_packet [] iface packet len = []
broadcast_packet (tx_iface ∷ rest) iface packet len =
    let sent = broadcast_packet rest iface packet len in
    if tx_iface.index == iface.index then sent else iface_send_packet tx_iface packet len ∷ sent

pub eq_bytes_iff : (a b : List ℕ) → (eq_bytes a b ≡ true) ↔ (a ≡ b)
unfolding eq_bytes
eq_bytes_iff [] [] = ground arith
eq_bytes_iff [] (_ ∷ _) = ground arith
eq_bytes_iff (_ ∷ _) [] = ground arith
eq_bytes_iff (a ∷ as') (b ∷ bs) = ground (arith, eq_bytes_iff as' bs)
