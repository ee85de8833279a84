-- ===== src/NatStack/Linear/Exhausted.antt =====
-- nat.c with an exhausted pool of ports.
use mathlib.Core.Option
use net_working_mini_net.Base.{
  ℕ, suc, ◌≤◌, ◌<◌, ◌≡◌, ◌≢◌, ap, ◌^◌, refl, sym, ◌∙◌, ◌&&◌, true, false, Bool, none, some, List,
  [], ◌∷◌, ◌==◌, ==_refl, find, find-append, find-append_some, Option-cases, inl, inr, htons, arith,
}
use net_working_mini_net.Hash.{hash_8bits}
use net_working_mini_net.Buckets.{first_in, add_tail, set_bucket}
use net_working_mini_net.Buckets.Search.{first_in-add_tail_self, first_in-add_tail_ne}
use net_working_mini_net.Packet.{Bytes, ip_hdr_size, saddr, daddr, sport, dport}
use net_working_mini_net.Packet.Fields.{IsBytes}
use net_working_mini_net.NatStack.{
  Iface, Action, Mapping, Table, dir_in, dir_out, has_external_port, has_internal,
}
use net_working_mini_net.NatStack.Ports.{Pool, nat_port_min, nat_port_max, assign_external_port}
use net_working_mini_net.NatStack.Ports.Assign.{assigned, exhausted, assign_external_port-Assigned}
use net_working_mini_net.NatStack.Linear.{
  nat_get_mapping_from_packet, nat_insert_mapping, translate, do_translation,
}
use net_working_mini_net.NatStack.Linear.Invariant.{
  WellFormed, search_external-first_in, search_internal-first_in,
}
use net_working_mini_net.NatStack.Linear.Insert.{mapping_with}
use net_working_mini_net.NatStack.Linear.Translate.{
  Sends, do_translation_out, do_translation_in, do_translation-WellFormed,
}

-- Every port that the loop tries is taken.
abbrev pub AllTaken : Pool → Type 0
AllTaken pool = (k : ℕ) → nat_port_min ≤ k → k < nat_port_max → pool k ≢ 0

assign-AllTaken : (pool : Pool) → AllTaken pool → assign_external_port pool ≡ (65535, pool)
assign-AllTaken pool taken = elim (assign_external_port-Assigned pool) [
  | assigned port lo hi free before e ↦ absurd (taken port lo hi free)
  | exhausted all e ↦ e
]

-- A search that has found an entry finds it again behind an insertion in the list 0, if the entry stands
-- in that list.
first_in-add_tail_again :
    {A : Type 0} (p : A → Bool) (left : ℕ) (t : ℕ → List A) (a e : A)
    → find p (t 0) ≡ some a
    → first_in p (suc left) 0 (add_tail t 0 e) ≡ some a
unfolding first_in add_tail set_bucket
first_in-add_tail_again p left t a e h = rw (find-append_some p (t 0) (e ∷ []) a h) refl

first_list-none :
    {A : Type 0} (p : A → Bool) (left : ℕ) (t : ℕ → List A)
    → first_in p (suc left) 0 t ≡ none
    → find p (t 0) ≡ none
unfolding first_in
first_list-none p left t h = elim (Option-cases (find p (t 0))) [
  | inl e ↦ e
  | inr (a, e) ↦ absurd (Option.none-ne-some a (sym (rw e at h)))
]

-- An outgoing packet and a reply, looked up.
outgoing :
    (t : Table) (p : Bytes)
    → nat_get_mapping_from_packet t p dir_out
      ≡ first_in (has_internal (saddr p) (sport p)) hash_8bits 0 t.nat_mapping_list
unfolding nat_get_mapping_from_packet
outgoing t p = search_internal-first_in hash_8bits 0 t.nat_mapping_list (saddr p) (sport p)

incoming :
    (t : Table) (p : Bytes)
    → nat_get_mapping_from_packet t p dir_in
      ≡ first_in (has_external_port (dport p)) hash_8bits 0 t.nat_mapping_list
unfolding nat_get_mapping_from_packet
incoming t p = search_external-first_in hash_8bits 0 t.nat_mapping_list (dport p)

module _ (inet_addr : List ℕ → ℕ) where
  -- The mapping of a flow that got no port, and the table with it.
  portless : (now addr : ℕ) → Table → Bytes → Mapping
  portless now addr t p = mapping_with inet_addr now addr t (saddr p) (sport p) 65535

  with_portless : (now addr : ℕ) → Table → Bytes → Table
  with_portless now addr t p = record t {
    nat_mapping_list = add_tail t.nat_mapping_list 0 (portless now addr t p);
  }

  inserted :
      (now addr : ℕ) (t : Table) (p : Bytes) (len : ℕ)
      → AllTaken t.assigned_ports
      → nat_get_mapping_from_packet t p dir_out ≡ none
      → (do_translation inet_addr now addr t p len dir_out).0 ≡ with_portless now addr t p
  unfolding do_translation translate nat_insert_mapping portless with_portless
  inserted now addr t p len taken new = rw (new, assign-AllTaken t.assigned_ports taken) refl

  module _ (now addr : ℕ) (t : Table) (p : Bytes) where
    still_new :
        (q : Bytes)
        → nat_get_mapping_from_packet t q dir_out ≡ none
        → (saddr p == saddr q && sport p == sport q) ≡ false
        → nat_get_mapping_from_packet (with_portless now addr t p) q dir_out ≡ none
    unfolding with_portless portless has_internal
    still_new q new ne =
        outgoing (with_portless now addr t p) q
        ∙ first_in-add_tail_ne (has_internal (saddr q) (sport q)) hash_8bits 0 t.nat_mapping_list
            (portless now addr t p) (omega arith) ne
        ∙ sym (outgoing t q)
        ∙ new

    found_after :
        nat_get_mapping_from_packet t p dir_out ≡ none
        → nat_get_mapping_from_packet (with_portless now addr t p) p dir_out
          ≡ some (portless now addr t p)
    unfolding with_portless portless has_internal
    found_after new =
        outgoing (with_portless now addr t p) p
        ∙ first_in-add_tail_self (has_internal (saddr p) (sport p)) hash_8bits 0 t.nat_mapping_list
            (portless now addr t p) (omega arith) (rw (==_refl (saddr p), ==_refl (sport p)) refl)
            (sym (outgoing t p) ∙ new)

    reply_after :
        (now' addr' : ℕ) (q r : Bytes)
        → dport r ≡ 65535
        → nat_get_mapping_from_packet t r dir_in ≡ none
        → nat_get_mapping_from_packet
            (with_portless now' addr' (with_portless now addr t p) q)
            r
            dir_in
          ≡ some (portless now addr t p)
    unfolding with_portless portless
    reply_after now' addr' q r port none_yet =
        let t₁ = with_portless now addr t p in
        let test = has_external_port (dport r) in
        let passes : test (portless now addr t p) ≡ true =
          unfold has_external_port htons in rw port refl in
        let before = first_list-none test 255 t.nat_mapping_list (sym (incoming t r) ∙ none_yet) in
        incoming (with_portless now' addr' t₁ q) r
        ∙ first_in-add_tail_again test 255 (add_tail t.nat_mapping_list 0 (portless now addr t p))
            (portless now addr t p) (portless now' addr' t₁ q)
            (unfold add_tail set_bucket in
              find-append test (t.nat_mapping_list 0) (portless now addr t p ∷ []) before
              ∙ rw passes refl)

  -- What the lookups answer behind the first packets of both flows.
  exhausted_lookups :
      (now addr now' addr' : ℕ) (t : Table) (p q r : Bytes) (len len' : ℕ)
      → AllTaken t.assigned_ports
      → nat_get_mapping_from_packet t p dir_out ≡ none
      → nat_get_mapping_from_packet t q dir_out ≡ none
      → (saddr p == saddr q && sport p == sport q) ≡ false
      → nat_get_mapping_from_packet t r dir_in ≡ none
      → dport r ≡ 65535
      → let t₁ = (do_translation inet_addr now addr t p len dir_out).0 in
        let t₂ = (do_translation inet_addr now' addr' t₁ q len' dir_out).0 in
        (first : Mapping) × (second : Mapping) × (nat_get_mapping_from_packet t₂ q dir_out
          ≡ some second)
        × (second.external_port ≡ 65535)
        × (second.internal_ip ≡ saddr q)
        × (nat_get_mapping_from_packet t₂ r dir_in ≡ some first)
        × (first.internal_ip ≡ saddr p)
        × (first.internal_port ≡ sport p)
        × (t₂.assigned_ports ≡ t.assigned_ports)
        × (t₂.external_iface ≡ t.external_iface)
  unfolding portless
  exhausted_lookups now addr now' addr' t p q r len len' taken new new' ne none_yet port =
      let t₁ = with_portless now addr t p in
      let new_still = still_new now addr t p q new' ne in
      rw
        (
          inserted now addr t p len taken new,
          inserted now' addr' t₁ q len' (unfold with_portless in taken) new_still,
        )
        (
          portless now addr t p,
          portless now' addr' t₁ q,
          found_after now' addr' t₁ q new_still,
          unfold htons in refl,
          refl,
          reply_after now addr t p now' addr' q r port none_yet,
          refl,
          refl,
          unfold with_portless in refl,
          unfold with_portless in refl,
        )

Sends-as :
    {r : Table × List Action} {t : Table} {len s sp d dp s' sp' d' dp' : ℕ}
    → Sends r t len s sp d dp
    → s ≡ s'
    → sp ≡ sp'
    → d ≡ d'
    → dp ≡ dp'
    → Sends r t len s' sp' d' dp'
Sends-as h e₁ e₂ e₃ e₄ = rw (← e₁, ← e₂, ← e₃, ← e₄) h

-- The addresses of `inet_addr` have 32 bits, the table of nat.c is well-formed, and the packets are made of
-- bytes with a legal IP header length. All ports are taken, and no mapping has port 65535. When packets `p`
-- and `q` of two different flows without a mapping have left the inner network, a later packet of the
-- second flow leaves with the port 65535 of the external address as its source, and a packet that comes
-- back to this port is sent on to the source of the first flow. The pool stays as it is.
pub do_translation_exhausted :
    (inet_addr : List ℕ → ℕ) (now addr now' addr' later fresh : ℕ) (t : Table) (p q r : Bytes)
    (len len' back : ℕ)
    → ((s : List ℕ) → inet_addr s < 2 ^ 32)
    → WellFormed t
    → IsBytes p × (20 ≤ ip_hdr_size p)
    → IsBytes q × (20 ≤ ip_hdr_size q)
    → IsBytes r × (20 ≤ ip_hdr_size r)
    → AllTaken t.assigned_ports
    → nat_get_mapping_from_packet t p dir_out ≡ none
    → nat_get_mapping_from_packet t q dir_out ≡ none
    → (saddr p == saddr q && sport p == sport q) ≡ false
    → nat_get_mapping_from_packet t r dir_in ≡ none
    → dport r ≡ 65535
    → let t₁ = (do_translation inet_addr now addr t p len dir_out).0 in
      let t₂ = (do_translation inet_addr now' addr' t₁ q len' dir_out).0 in
      Sends
        (do_translation inet_addr later fresh t₂ q len' dir_out)
        t₂
        len'
        (inet_addr t.external_iface.ip_str)
        65535
        (daddr q)
        (dport q)
      × Sends
          (do_translation inet_addr later fresh t₂ r back dir_in)
          t₂
          back
          (saddr r)
          (sport r)
          (saddr p)
          (sport p)
      × (t₂.assigned_ports ≡ t.assigned_ports)
do_translation_exhausted inet_addr now addr now' addr' later fresh t p q r len len' back is_u32 w bp
      bq br taken new new' ne none_yet port =
    let t₁ = (do_translation inet_addr now addr t p len dir_out).0 in
    let t₂ = (do_translation inet_addr now' addr' t₁ q len' dir_out).0 in
    let w₁ = do_translation-WellFormed inet_addr is_u32 now addr t w p len bp.0 bp.1 dir_out in
    let w₂ = do_translation-WellFormed inet_addr is_u32 now' addr' t₁ w₁ q len' bq.0 bq.1 dir_out in
    let (first, second, found, port_of, _, answered, ip, ip_port, pool, iface) =
      exhausted_lookups inet_addr now addr now' addr' t p q r len len' taken new new' ne none_yet
        port in
    (
      Sends-as (do_translation_out inet_addr is_u32 later fresh t₂ w₂ q len' bq.0 bq.1 second found)
          (ap (λ (i : Iface). inet_addr i.ip_str) iface) port_of refl refl,
      Sends-as
          (do_translation_in inet_addr is_u32 later fresh t₂ w₂ r back br.0 br.1 first answered)
          refl refl ip ip_port,
      pool,
    )
