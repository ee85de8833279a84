-- ===== src/NatStack/Linear/Portless.antt =====
-- nat.c: no mapping goes without a port while a port is free.
use net_working_mini_net.Base.{
  ℕ, ◌≡◌, ◌<◌, ◌≤◌, ◌^◌, ◌⊎◌, ap, sym, ◌∙◌, refl, inl, inr, false, Bool, Option, none, some, List,
  [], ◌∷◌, ◌++◌, ◌==◌, keep, Bool-cases, htons, arith,
}
use net_working_mini_net.Hash.{hash_8bits}
use net_working_mini_net.Buckets.Search.{entries-add_tail}
use net_working_mini_net.Packet.{Bytes, ip_hdr_size, saddr, sport, protocol, ipproto_tcp, tcp_hdr}
use net_working_mini_net.Packet.Fields.{IsBytes}
use net_working_mini_net.NatStack.{
  Mapping, Table, Dir, dir_in, dir_out, dir_invalid, has_external_port,
}
use net_working_mini_net.NatStack.Ports.{assign_external_port}
use net_working_mini_net.NatStack.Ports.Assign.{assigned, exhausted, assign_external_port-Assigned}
use net_working_mini_net.NatStack.Linear.{
  nat_get_mapping_from_packet, nat_insert_mapping, translate, do_translation, translate_packet,
  nat_translate_packet, get_packet_direction,
}
use net_working_mini_net.NatStack.Linear.Invariant.{mappings, no_port, WellFormed}
use net_working_mini_net.NatStack.Linear.Insert.{mapping_with}
use net_working_mini_net.NatStack.Linear.Exhausted.{AllTaken}
use net_working_mini_net.NatStack.Linear.Translate.{nat_translate_packet-WellFormed}

-- The mappings without a port.
abbrev pub without_ports : Table → List Mapping
without_ports t = keep (has_external_port no_port) (mappings t)

keep-insert :
    {A : Type 0} (p : A → Bool) (xs : List A) (a : A) (ys : List A)
    → p a ≡ false
    → keep p (xs ++ a ∷ ys) ≡ keep p (xs ++ ys)
keep-insert p [] a ys h = rw h refl
keep-insert p (x ∷ xs) a ys h = rw (keep-insert p xs a ys h) refl

-- A port that the loop tries is not 65535, in either order of its bytes.
has_port :
    (m : Mapping) (port : ℕ)
    → port < 23456
    → m.external_port ≡ htons port
    → has_external_port no_port m ≡ false
unfolding has_external_port htons
has_port m port h e = ground arith

module _ (inet_addr : List ℕ → ℕ) (now addr : ℕ) (t : Table) where
  -- Either every port was taken before, or no mapping without a port has come.
  abbrev Portless : Table → Type 0
  Portless t' = AllTaken t.assigned_ports ⊎ (without_ports t' ≡ without_ports t)

  insert-Portless : (ip port : ℕ) → Portless (nat_insert_mapping inet_addr now addr t 0 ip port).1
  unfolding nat_insert_mapping
  insert-Portless ip port = elim (assign_external_port-Assigned t.assigned_ports) [
    | assigned free_port lo hi free before e ↦
        let m =
          mapping_with inet_addr now addr t ip port (assign_external_port t.assigned_ports).0 in
        let (xs, ys, old, new) = entries-add_tail hash_8bits 0 t.nat_mapping_list m (omega arith) in
        inr (
          ap (keep (has_external_port no_port)) new
          ∙ keep-insert (has_external_port no_port) xs m ys
              (has_port m free_port (omega arith) (ap (λ (r : ℕ × (ℕ → ℕ)). htons r.0) e))
          ∙ sym (ap (keep (has_external_port no_port)) old))
    | exhausted all e ↦ inl all
  ]

  module _ (p : Bytes) (len : ℕ) where
    translate-Portless :
        (dir : Dir) (o : Option Mapping)
        → Portless (translate inet_addr now addr t p (tcp_hdr p) dir o).0
    unfolding translate
    translate-Portless dir_in (some m) = inr refl
    translate-Portless dir_out (some m) = inr refl
    translate-Portless dir_invalid (some m) = inr refl
    translate-Portless dir_in none = insert-Portless (saddr p) (sport p)
    translate-Portless dir_out none = insert-Portless (saddr p) (sport p)
    translate-Portless dir_invalid none = insert-Portless (saddr p) (sport p)

    do_translation-Portless :
        (dir : Dir) → Portless (do_translation inet_addr now addr t p len dir).0
    unfolding do_translation
    do_translation-Portless dir = translate-Portless dir (nat_get_mapping_from_packet t p dir)

    translate_packet-Portless :
        (dir : Dir) → Portless (translate_packet inet_addr now addr t p len dir).0
    unfolding translate_packet
    translate_packet-Portless dir_invalid = inr refl
    translate_packet-Portless dir_in = elim (Bool-cases (protocol p == ipproto_tcp)) [
      | inl e ↦ rw e (do_translation-Portless dir_in)
      | inr e ↦ rw e (inr refl)
    ]
    translate_packet-Portless dir_out = elim (Bool-cases (protocol p == ipproto_tcp)) [
      | inl e ↦ rw e (do_translation-Portless dir_out)
      | inr e ↦ rw e (inr refl)
    ]

-- If the addresses of `inet_addr` have 32 bits and the packet is made of bytes with a legal IP header
-- length, `nat_translate_packet` of nat.c keeps a well-formed table so, on every branch: each mapping's port is
-- taken in the pool, or is 65535, and no two mappings share a port but 65535. A mapping with 65535 is added only
-- when every port that can be assigned is taken; else those with 65535 are the ones before.
pub nat_translate_packet_ports :
    (inet_addr : List ℕ → ℕ) (now addr : ℕ) (t : Table) (p : Bytes) (len : ℕ)
    → ((s : List ℕ) → inet_addr s < 2 ^ 32)
    → WellFormed t
    → IsBytes p
    → 20 ≤ ip_hdr_size p
    → let t' = (nat_translate_packet inet_addr now addr t p len).0 in
      WellFormed t' × (AllTaken t.assigned_ports ⊎ (without_ports t' ≡ without_ports t))
nat_translate_packet_ports inet_addr now addr t p len is_u32 w bytes long = (
  nat_translate_packet-WellFormed inet_addr is_u32 now addr t w p len bytes long,
  unfold nat_translate_packet in
      translate_packet-Portless inet_addr now addr t p len (get_packet_direction inet_addr t p),
)
