-- ===== src/NatStack/Linear/Translate.antt =====
-- `do_translation` of nat.c: what is sent, and what the table becomes.
use net_working_mini_net.Base.{
  ℕ, suc, ◌^◌, ◌≤◌, ◌<◌, ◌≡◌, refl, sym, ◌∙◌, inl, inr, none, some, List, [], ◌∷◌, ◌==◌, All-find,
  htons, length, Bool-cases, Option,
}
use net_working_mini_net.Packet.{
  Bytes, ip_hdr_size, saddr, daddr, sport, dport, tcp_hdr, protocol, ipproto_tcp,
}
use net_working_mini_net.Packet.Fields.{IsBytes, get16-lt, get32-lt}
use net_working_mini_net.NatStack.{
  Mapping, Table, Dir, dir_in, dir_out, dir_invalid, Action, ip_send_packet, has_internal,
  has_external_port,
}
use net_working_mini_net.NatStack.Ports.{assign_external_port}
use net_working_mini_net.NatStack.Rewrite.{update_checksums, rewrite_source, rewrite_destination}
use net_working_mini_net.NatStack.Rewrite.Endpoints.{
  Endpoints, rewrite_source-Endpoints, rewrite_destination-Endpoints, rewrite_source_size,
  rewrite_destination_size, rewrite_source-IsBytes, rewrite_destination-IsBytes, tcp_hdr-le,
}
use net_working_mini_net.NatStack.Rewrite.Sums.{update_checksums-Endpoints, finish-Endpoints}
use net_working_mini_net.NatStack.Linear.{
  nat_get_mapping_from_packet, nat_insert_mapping, translate, do_translation, translate_packet,
  nat_translate_packet, get_packet_direction,
}
use net_working_mini_net.NatStack.Linear.Invariant.{
  mappings, IsMapping, WellFormed, search_external-find, search_internal-find,
}
use net_working_mini_net.NatStack.Linear.Insert.{
  nat_insert_mapping-WellFormed, nat_insert_mapping-length, nat_insert_mapping-found, mapping_with,
}

-- The one packet that is sent with the endpoints given, and the table left behind.
abbrev pub Sends : Table × List Action → Table → (len source sport' destination dport' : ℕ) → Type 0
Sends r t' len s sp d dp =
    (q : Bytes) × (r ≡ (t', ip_send_packet q len ∷ [])) × Endpoints q s sp d dp

module _ (inet_addr : List ℕ → ℕ) (is_u32 : (s : List ℕ) → inet_addr s < 2 ^ 32) (now addr : ℕ)
    (t : Table) (w : WellFormed t) (p : Bytes) (len : ℕ) (bytes : IsBytes p)
    (long : 20 ≤ ip_hdr_size p) where
  found_internal-IsMapping :
      (m : Mapping) → nat_get_mapping_from_packet t p dir_out ≡ some m → IsMapping m
  unfolding nat_get_mapping_from_packet
  found_internal-IsMapping m e =
      All-find IsMapping (has_internal (saddr p) (sport p)) (mappings t) m w.fit
        (sym (search_internal-find t (saddr p) (sport p)) ∙ e)

  found_external-IsMapping :
      (m : Mapping) → nat_get_mapping_from_packet t p dir_in ≡ some m → IsMapping m
  unfolding nat_get_mapping_from_packet
  found_external-IsMapping m e =
      All-find IsMapping (has_external_port (dport p)) (mappings t) m w.fit
        (sym (search_external-find t (dport p)) ∙ e)

  -- An outgoing packet with a mapping leaves with the address of the external interface and the
  -- mapping's port as its source; its destination and the table stay.
  pub do_translation_out :
      (m : Mapping)
      → nat_get_mapping_from_packet t p dir_out ≡ some m
      → Sends
          (do_translation inet_addr now addr t p len dir_out)
          t
          len
          (inet_addr t.external_iface.ip_str)
          m.external_port
          (daddr p)
          (dport p)
  unfolding do_translation
  do_translation_out m e =
      let nat_ip = inet_addr t.external_iface.ip_str in
      let is = found_internal-IsMapping m e in
      let q = rewrite_source p (tcp_hdr p) nat_ip m in
      (
        update_checksums q (tcp_hdr p),
        rw e refl,
        finish-Endpoints p q (rewrite_source-IsBytes p (tcp_hdr p) nat_ip m bytes) long
            (rewrite_source_size p (tcp_hdr p) m nat_ip (tcp_hdr-le p long))
            (rewrite_source-Endpoints p m long nat_ip (is_u32 t.external_iface.ip_str)
              is.external_port),
      )

  -- An incoming packet with a mapping leaves with the internal address and port as its destination;
  -- its source and the table stay.
  pub do_translation_in :
      (m : Mapping)
      → nat_get_mapping_from_packet t p dir_in ≡ some m
      → Sends
          (do_translation inet_addr now addr t p len dir_in)
          t
          len
          (saddr p)
          (sport p)
          m.internal_ip
          m.internal_port
  unfolding do_translation
  do_translation_in m e =
      let is = found_external-IsMapping m e in
      let q = rewrite_destination p (tcp_hdr p) m in
      (
        update_checksums q (tcp_hdr p),
        rw e refl,
        finish-Endpoints p q (rewrite_destination-IsBytes p (tcp_hdr p) m bytes) long
            (rewrite_destination_size p (tcp_hdr p) m (tcp_hdr-le p long))
            (rewrite_destination-Endpoints p m long is.internal_ip is.internal_port),
      )

  -- If the addresses of `inet_addr` have 32 bits, the table of nat.c is well-formed, and the packet
  -- is made of bytes with a legal IP header length, then without a mapping, in either direction,
  -- the packet leaves with its own addresses and ports, and the table has one mapping more, for the
  -- packet's source.
  pub do_translation_unmapped :
      (dir : Dir)
      → nat_get_mapping_from_packet t p dir ≡ none
      → Sends
          (do_translation inet_addr now addr t p len dir)
          (nat_insert_mapping inet_addr now addr t 0 (saddr p) (sport p)).1
          len
          (saddr p)
          (sport p)
          (daddr p)
          (dport p)
        × (length (mappings (do_translation inet_addr now addr t p len dir).0)
            ≡ suc (length (mappings t)))
  unfolding do_translation
  do_translation_unmapped dir_in e = (
    (update_checksums p (tcp_hdr p), rw e refl, update_checksums-Endpoints p bytes long),
    rw e (nat_insert_mapping-length inet_addr now addr t (saddr p) (sport p)),
  )
  do_translation_unmapped dir_out e = (
    (update_checksums p (tcp_hdr p), rw e refl, update_checksums-Endpoints p bytes long),
    rw e (nat_insert_mapping-length inet_addr now addr t (saddr p) (sport p)),
  )
  do_translation_unmapped dir_invalid e = (
    (update_checksums p (tcp_hdr p), rw e refl, update_checksums-Endpoints p bytes long),
    rw e (nat_insert_mapping-length inet_addr now addr t (saddr p) (sport p)),
  )

  -- If the addresses of `inet_addr` have 32 bits, the table of nat.c is well-formed, and the packet
  -- is made of bytes with a legal IP header length, then the first outgoing packet of a flow makes
  -- the mapping that the later ones find: for the packet's source, with the port that the pool
  -- gives.
  pub do_translation_first :
      nat_get_mapping_from_packet t p dir_out ≡ none
      → (m : Mapping) × (nat_get_mapping_from_packet
            (do_translation inet_addr now addr t p len dir_out).0
            p
            dir_out
          ≡ some m)
        × (m.internal_ip ≡ saddr p)
        × (m.internal_port ≡ sport p)
        × (m.external_port ≡ htons (assign_external_port t.assigned_ports).0)
  unfolding do_translation nat_get_mapping_from_packet
  do_translation_first e =
      let out = sym (search_internal-find t (saddr p) (sport p)) ∙ e in
      let t' = (nat_insert_mapping inet_addr now addr t 0 (saddr p) (sport p)).1 in
      let found = nat_insert_mapping-found inet_addr now addr t (saddr p) (sport p) out in
      (
        mapping_with inet_addr now addr t (saddr p) (sport p)
            (assign_external_port t.assigned_ports).0,
        rw e (search_internal-find t' (saddr p) (sport p) ∙ found),
        refl,
        refl,
        refl,
      )

  source-WellFormed : WellFormed (nat_insert_mapping inet_addr now addr t 0 (saddr p) (sport p)).1
  source-WellFormed =
      nat_insert_mapping-WellFormed inet_addr now addr t (saddr p) (sport p)
        (unfold saddr in get32-lt p 26 bytes) (unfold sport in get16-lt p (tcp_hdr p) bytes) w

  translate-WellFormed :
      (dir : Dir) (o : Option Mapping)
      → WellFormed (translate inet_addr now addr t p (tcp_hdr p) dir o).0
  unfolding translate
  translate-WellFormed dir_in (some m) = w
  translate-WellFormed dir_out (some m) = w
  translate-WellFormed dir_invalid (some m) = w
  translate-WellFormed dir_in none = source-WellFormed
  translate-WellFormed dir_out none = source-WellFormed
  translate-WellFormed dir_invalid none = source-WellFormed

  -- Whatever the direction and the mapping, the table stays well-formed.
  pub do_translation-WellFormed :
      (dir : Dir) → WellFormed (do_translation inet_addr now addr t p len dir).0
  unfolding do_translation
  do_translation-WellFormed dir = translate-WellFormed dir (nat_get_mapping_from_packet t p dir)

  -- `nat_translate_packet` keeps a well-formed table so, on every branch.
  pub nat_translate_packet-WellFormed :
      WellFormed (nat_translate_packet inet_addr now addr t p len).0
  unfolding nat_translate_packet
  nat_translate_packet-WellFormed = keeps (get_packet_direction inet_addr t p)
    where
      keeps : (dir : Dir) → WellFormed (translate_packet inet_addr now addr t p len dir).0
      keeps dir_invalid = w
      keeps dir_in = elim (Bool-cases (protocol p == ipproto_tcp)) [
        | inl e ↦ rw e (do_translation-WellFormed dir_in)
        | inr e ↦ rw e w
      ]
      keeps dir_out = elim (Bool-cases (protocol p == ipproto_tcp)) [
        | inl e ↦ rw e (do_translation-WellFormed dir_out)
        | inr e ↦ rw e w
      ]
