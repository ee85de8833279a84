-- ===== src/NatStack/Hashed/Twins/RoundTrip.antt =====
-- `do_translation` of nat_new_2.c: a flow from inside, its replies, and packets of no flow.
use net_working_mini_net.Base.{
  ℕ, ◌^◌, ◌≤◌, ◌<◌, ◌≡◌, ◌≢◌, refl, ap, sym, ◌∙◌, Option, none, some, List, [], ◌∷◌, arith,
  All-find, find-passes, htons-lt,
}
use net_working_mini_net.Packet.{Bytes, ip_hdr_size, saddr, daddr, sport, dport, tcp_hdr}
use net_working_mini_net.Packet.Fields.{IsBytes, get16-lt, get32-lt}
use net_working_mini_net.NatStack.{
  Mapping, Table, dir_in, dir_out, Action, ip_send_packet, has_internal,
}
use net_working_mini_net.NatStack.Rewrite.{update_checksums, rewrite_source, rewrite_destination}
use net_working_mini_net.NatStack.Rewrite.Endpoints.{
  Endpoints, Endpoints-to, rewrite_source-Endpoints, rewrite_destination-Endpoints,
  rewrite_source_size, rewrite_destination_size, rewrite_source-IsBytes,
  rewrite_destination-IsBytes, tcp_hdr-le,
}
use net_working_mini_net.NatStack.Rewrite.Sums.{finish-Endpoints}
use net_working_mini_net.NatStack.Hashed.{
  bucket, nat_lookup_external, nat_lookup_internal, nat_insert_mapping, found_or_inserted, touch,
  translate_in, translate_out, do_translation,
}
use net_working_mini_net.NatStack.Hashed.Twins.{IsStored, HasTwin, WellFormed}
use net_working_mini_net.NatStack.Hashed.Twins.Insert.{
  nat_insert_mapping-WellFormed, nat_insert_mapping-found,
}
use net_working_mini_net.NatStack.Hashed.Twins.Touch.{touch-Twin, touch-WellFormed}

-- A run that sends one packet, with the endpoints given.
abbrev pub Sends : List Action → (len source sport' destination dport' : ℕ) → Type 0
Sends r len s sp d dp = (q : Bytes) × (r ≡ ip_send_packet q len ∷ []) × Endpoints q s sp d dp

-- What the search for the mapping of a source gives, found or inserted.
record Source (t : Table) (ip iport : ℕ) (r : Mapping × Table) : Type 0 where
  same_ip : r.0.internal_ip ≡ ip
  same_port : r.0.internal_port ≡ iport
  fits : r.0.external_port < 2 ^ 16
  well : WellFormed r.1
  twin : HasTwin r.1 r.0
  same_iface : r.1.external_iface ≡ t.external_iface

source_of :
    (now addr addr' : ℕ) (t : Table) (ip iport : ℕ) (o : Option Mapping)
    → WellFormed t
    → ip < 2 ^ 32
    → iport < 2 ^ 16
    → nat_lookup_internal t ip iport ≡ o
    → Source t ip iport (found_or_inserted o now addr addr' t ip iport)
unfolding found_or_inserted
source_of now addr addr' t ip iport (some m) w hi hp e =
    let l = t.nat_mapping_list (bucket ip iport) in
    let is =
      All-find (IsStored t.assigned_ports) (has_internal ip iport) l m (w.stored (bucket ip iport))
        (unfold nat_lookup_internal in e) in
    let passes = find-passes (has_internal ip iport) l m (unfold nat_lookup_internal in e) in
    let same : (m.internal_ip ≡ ip) × (m.internal_port ≡ iport) =
      unfold has_internal in ground arith in
    record {
      same_ip = same.0;
      same_port = same.1;
      fits = is.external_port;
      well = w;
      twin =
          All-find (HasTwin t) (has_internal ip iport) l m (w.twins (bucket ip iport))
            (unfold nat_lookup_internal in e);
      same_iface = refl;
    }
source_of now addr addr' t ip iport none w hi hp e =
    let (a, b, c, tw) = nat_insert_mapping-found t w now addr addr' ip iport in
    record {
      same_ip = a;
      same_port = b;
      fits = rw c (htons-lt _);
      well = nat_insert_mapping-WellFormed t w now addr addr' ip iport hi hp;
      twin = tw;
      same_iface = unfold nat_insert_mapping in refl;
    }

-- The mapping that an outgoing packet gets, and the table with it.
abbrev pub source_mapping : (now addr addr' : ℕ) → Table → Bytes → Mapping × Table
source_mapping now addr addr' t p =
    found_or_inserted (nat_lookup_internal t (saddr p) (sport p)) now addr addr' t (saddr p)
      (sport p)

-- The table after an outgoing packet was sent.
abbrev pub sent_table : (now addr addr' : ℕ) → Table → Bytes → Table
sent_table now addr addr' t p =
    let (m, t') = source_mapping now addr addr' t p in touch m.addr now t'

module _ (inet_addr : List ℕ → ℕ) (is_u32 : (s : List ℕ) → inet_addr s < 2 ^ 32) where
  module _ (now addr addr' : ℕ) (t : Table) (w : WellFormed t) (p : Bytes) (len : ℕ)
      (bytes : IsBytes p) (long : 20 ≤ ip_hdr_size p) where
    source : Source t (saddr p) (sport p) (source_mapping now addr addr' t p)
    source =
        source_of now addr addr' t (saddr p) (sport p) (nat_lookup_internal t (saddr p) (sport p)) w
          (unfold saddr in get32-lt p 26 bytes) (unfold sport in get16-lt p (tcp_hdr p) bytes) refl

    -- If the addresses of `inet_addr` have 32 bits, the table is well-formed, and the packet is made of bytes
    -- with a legal IP header length, then every outgoing packet of nat_new_2.c, also the first of its flow,
    -- leaves with the address of the external interface and its mapping's port as its source and
    -- with its own destination; the table stays well-formed.
    pub do_translation_leaves :
        (sent : List Action) × (do_translation inet_addr now addr addr' t p len dir_out
          ≡ some (sent_table now addr addr' t p, sent))
        × Sends sent len
            (inet_addr t.external_iface.ip_str)
            (source_mapping now addr addr' t p).0.external_port
            (daddr p)
            (dport p)
        × WellFormed (sent_table now addr addr' t p)
    unfolding do_translation translate_out
    do_translation_leaves =
        let (m, t') = source_mapping now addr addr' t p in
        let s = source in
        let nat_ip = inet_addr t'.external_iface.ip_str in
        let q = rewrite_source p (tcp_hdr p) nat_ip m in
        let ends =
          finish-Endpoints p q (rewrite_source-IsBytes p (tcp_hdr p) nat_ip m bytes) long
            (rewrite_source_size p (tcp_hdr p) m nat_ip (tcp_hdr-le p long))
            (rewrite_source-Endpoints p m long nat_ip (is_u32 t'.external_iface.ip_str) s.fits) in
        let sent = ip_send_packet (update_checksums q (tcp_hdr p)) len ∷ [] in
        (
          sent,
          refl,
          (
            update_checksums q (tcp_hdr p),
            refl,
            rw (ap (λ i. inet_addr i.ip_str) (sym s.same_iface)) ends,
          ),
          touch-WellFormed m.addr now t' s.well,
        )

  -- If the addresses of `inet_addr` have 32 bits, the table of nat_new_2.c is well-formed, both packets are
  -- made of bytes with legal IP header lengths, and the pool had a port for the outgoing packet's mapping
  -- (0 stands for none), then the reply to the outgoing packet, sent to the port that the packet left from, is
  -- led to the packet's source; the reply's own source stays, and so does well-formedness.
  pub do_translation_reply :
      (now addr addr' later : ℕ) (t : Table) (p r : Bytes) (len : ℕ)
      → WellFormed t
      → IsBytes p
      → 20 ≤ ip_hdr_size p
      → IsBytes r
      → 20 ≤ ip_hdr_size r
      → (source_mapping now addr addr' t p).0.external_port ≢ 0
      → dport r ≡ (source_mapping now addr addr' t p).0.external_port
      → (t' : Table) × (sent : List Action) × (do_translation inet_addr later addr addr'
            (sent_table now addr addr' t p)
            r
            len
            dir_in
          ≡ some (t', sent))
        × Sends sent len (saddr r) (sport r) (saddr p) (sport p)
        × WellFormed t'
  unfolding do_translation translate_in
  do_translation_reply now addr addr' later t p r len w bp lp br lr ne to =
      let (m, t₁) = source_mapping now addr addr' t p in
      let s = source now addr addr' t w p len bp lp in
      let b = touch-Twin m.addr now t₁ m (s.twin ne) in
      let t₂ = touch m.addr now t₁ in
      let w₂ = touch-WellFormed m.addr now t₁ s.well in
      let found : nat_lookup_external t₂ (dport r) ≡ some b.copy = rw to b.found in
      let ip : b.copy.internal_ip ≡ saddr p = b.same_ip ∙ s.same_ip in
      let port : b.copy.internal_port ≡ sport p = b.same_port ∙ s.same_port in
      let q = rewrite_destination r (tcp_hdr r) b.copy in
      let ends =
        finish-Endpoints r q (rewrite_destination-IsBytes r (tcp_hdr r) b.copy br) lr
          (rewrite_destination_size r (tcp_hdr r) b.copy (tcp_hdr-le r lr))
          (rewrite_destination-Endpoints r b.copy lr (rw ip (unfold saddr in get32-lt p 26 bp))
            (rw port (unfold sport in get16-lt p (tcp_hdr p) bp))) in
      (
        touch b.copy.addr later t₂,
        ip_send_packet (update_checksums q (tcp_hdr r)) len ∷ [],
        rw found refl,
        (update_checksums q (tcp_hdr r), refl, Endpoints-to ip port ends),
        touch-WellFormed b.copy.addr later t₂ w₂,
      )
