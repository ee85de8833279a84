-- ===== src/NatStack/Rewrite/Endpoints.antt =====
-- The addresses and ports of a rewritten packet.
use net_working_mini_net.Base.{ℕ, ◌+◌, ◌*◌, ◌%◌, ◌^◌, ◌≤◌, ◌<◌, ◌≡◌, ap, ◌∙◌, arith}
use net_working_mini_net.Packet.{
  Bytes, set16, set32, ip_hdr_size, tcp_hdr, saddr, daddr, sport, dport,
}
use net_working_mini_net.Packet.Fields.{
  IsBytes, set16_at, set32_at, get16-set16_self, get16-set16_ne, get16-set32_ne, get32-set32_self,
  get32-set16_ne, get32-set32_ne, set16-IsBytes, set32-IsBytes,
}
use net_working_mini_net.NatStack.{Mapping}
use net_working_mini_net.NatStack.Rewrite.{rewrite_destination, rewrite_source}

-- The source and the destination of a packet.
pub record Endpoints (q : Bytes) (source sport' destination dport' : ℕ) : Type 0 where
  pub from_ip : saddr q ≡ source
  pub from_port : sport q ≡ sport'
  pub to_ip : daddr q ≡ destination
  pub to_port : dport q ≡ dport'

-- Endpoints with an equal destination.
pub Endpoints-to :
    {q : Bytes} {s sp d dp d' dp' : ℕ}
    → d ≡ d'
    → dp ≡ dp'
    → Endpoints q s sp d dp
    → Endpoints q s sp d' dp'
Endpoints-to a b e = record {
  from_ip = e.from_ip;
  from_port = e.from_port;
  to_ip = e.to_ip ∙ a;
  to_port = e.to_port ∙ b;
}

-- The sizes that the first byte of the IP header gives do not change with later bytes.
pub ip_hdr_size-set16 : (p : Bytes) (o v : ℕ) → 15 ≤ o → ip_hdr_size (set16 p o v) ≡ ip_hdr_size p
unfolding ip_hdr_size
ip_hdr_size-set16 p o v h = ap (λ (b : ℕ). b % 16 * 4) (set16_at p o v 14 (omega arith))

pub ip_hdr_size-set32 : (p : Bytes) (o v : ℕ) → 15 ≤ o → ip_hdr_size (set32 p o v) ≡ ip_hdr_size p
unfolding ip_hdr_size
ip_hdr_size-set32 p o v h = ap (λ (b : ℕ). b % 16 * 4) (set32_at p o v 14 (omega arith))

module _ (p : Bytes) (tcp : ℕ) (m : Mapping) where
  pub rewrite_source_size :
      (nat_ip : ℕ) → 34 ≤ tcp → ip_hdr_size (rewrite_source p tcp nat_ip m) ≡ ip_hdr_size p
  unfolding rewrite_source
  rewrite_source_size nat_ip h =
      ip_hdr_size-set16 (set32 p 26 nat_ip) tcp m.external_port (omega arith)
      ∙ ip_hdr_size-set32 p 26 nat_ip (omega arith)

  pub rewrite_destination_size :
      34 ≤ tcp → ip_hdr_size (rewrite_destination p tcp m) ≡ ip_hdr_size p
  unfolding rewrite_destination
  rewrite_destination_size h =
      ip_hdr_size-set16 (set32 p 30 m.internal_ip) (tcp + 2) m.internal_port (omega arith)
      ∙ ip_hdr_size-set32 p 30 m.internal_ip (omega arith)

-- The fields of `q` read at a TCP header that stands where that of `p` does.
pub tcp_hdr_size : (p q : Bytes) → ip_hdr_size q ≡ ip_hdr_size p → tcp_hdr q ≡ tcp_hdr p
unfolding tcp_hdr
tcp_hdr_size p q e = ap (λ (n : ℕ). 14 + n) e

pub tcp_hdr-le : (p : Bytes) → 20 ≤ ip_hdr_size p → 34 ≤ tcp_hdr p
unfolding tcp_hdr
tcp_hdr-le p h = omega arith

module _ (p : Bytes) (m : Mapping) (long : 20 ≤ ip_hdr_size p) where
  pub rewrite_source-Endpoints :
      (nat_ip : ℕ)
      → nat_ip < 2 ^ 32
      → m.external_port < 2 ^ 16
      → Endpoints (rewrite_source p (tcp_hdr p) nat_ip m) nat_ip m.external_port (daddr p) (dport p)
  rewrite_source-Endpoints nat_ip hi hp =
      let tcp = tcp_hdr p in
      let b = tcp_hdr-le p long in
      let same =
        tcp_hdr_size p (rewrite_source p tcp nat_ip m) (rewrite_source_size p tcp m nat_ip b) in
      let p' = set32 p 26 nat_ip in
      unfold rewrite_source saddr daddr sport dport in
      record {
        from_ip =
            get32-set16_ne p' tcp m.external_port 26 (omega arith)
            ∙ get32-set32_self p 26 nat_ip hi;
        from_port = rw same (get16-set16_self p' tcp m.external_port hp);
        to_ip =
            get32-set16_ne p' tcp m.external_port 30 (omega arith)
            ∙ get32-set32_ne p 26 nat_ip 30 (omega arith);
        to_port = rw same (
            get16-set16_ne p' tcp m.external_port (tcp + 2) (omega arith)
            ∙ get16-set32_ne p 26 nat_ip (tcp + 2) (omega arith));
      }

  pub rewrite_destination-Endpoints :
      m.internal_ip < 2 ^ 32
      → m.internal_port < 2 ^ 16
      → Endpoints
          (rewrite_destination p (tcp_hdr p) m)
          (saddr p)
          (sport p)
          m.internal_ip
          m.internal_port
  rewrite_destination-Endpoints hi hp =
      let tcp = tcp_hdr p in
      let b = tcp_hdr-le p long in
      let same =
        tcp_hdr_size p (rewrite_destination p tcp m) (rewrite_destination_size p tcp m b) in
      let p' = set32 p 30 m.internal_ip in
      unfold rewrite_destination saddr daddr sport dport in
      record {
        from_ip =
            get32-set16_ne p' (tcp + 2) m.internal_port 26 (omega arith)
            ∙ get32-set32_ne p 30 m.internal_ip 26 (omega arith);
        from_port = rw same (
            get16-set16_ne p' (tcp + 2) m.internal_port tcp (omega arith)
            ∙ get16-set32_ne p 30 m.internal_ip tcp (omega arith));
        to_ip =
            get32-set16_ne p' (tcp + 2) m.internal_port 30 (omega arith)
            ∙ get32-set32_self p 30 m.internal_ip hi;
        to_port = rw same (get16-set16_self p' (tcp + 2) m.internal_port hp);
      }

pub rewrite_source-IsBytes :
    (p : Bytes) (tcp nat_ip : ℕ) (m : Mapping) → IsBytes p → IsBytes (rewrite_source p tcp nat_ip m)
unfolding rewrite_source
rewrite_source-IsBytes p tcp nat_ip m b =
    set16-IsBytes (set32 p 26 nat_ip) tcp m.external_port (set32-IsBytes p 26 nat_ip b)

pub rewrite_destination-IsBytes :
    (p : Bytes) (tcp : ℕ) (m : Mapping) → IsBytes p → IsBytes (rewrite_destination p tcp m)
unfolding rewrite_destination
rewrite_destination-IsBytes p tcp m b =
    set16-IsBytes (set32 p 30 m.internal_ip) (tcp + 2) m.internal_port
      (set32-IsBytes p 30 m.internal_ip b)
