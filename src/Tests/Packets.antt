-- ===== src/Tests/Packets.antt =====
-- The theorems on hashes and checksums at concrete buffers.
use net_working_mini_net.Base.{
  ◌+◌, ◌-◌, ◌/◌, ◌%◌, ◌^◌, ◌≤◌, ◌<◌, ◌≡◌, refl, if◌then◌else◌, leb, ◌&&◌, htons, arith,
}
use net_working_mini_net.Packet.{
  Bytes, get16, get32, set8, set16, ip_hdr, ip_hdr_size, ip_checksum_off, saddr, daddr, protocol,
  tot_len,
}
use net_working_mini_net.Packet.Checksum.{
  checksum, ip_checksum, tcp_checksum, tcp_checksum_off, tcp_len, pseudo_sum, fold_once, fold_again,
}
use net_working_mini_net.Packet.Checksum.Sum.{total, folded}
use net_working_mini_net.Packet.Checksum.Verify.{
  pseudo_total, ip_checksum-verifies, tcp_checksum-verifies,
}
use net_working_mini_net.Packet.Checksum.Carry.{checksum_odd_carry}
use net_working_mini_net.Tests.Frames.{segment, segment-IsBytes, segment-long}

ip_checksum-verifies_example :
    checksum (set16 segment ip_checksum_off (ip_checksum segment).0) ip_hdr (ip_hdr_size segment) 0
    ≡ 0
ip_checksum-verifies_example = ip_checksum-verifies segment segment-IsBytes segment-long

even : tcp_len segment % 2 ≡ 0
unfolding tcp_len tot_len htons ip_hdr_size
even = refl

full : 20 ≤ tcp_len segment
unfolding tcp_len tot_len htons ip_hdr_size
full = omega arith

small :
    pseudo_sum segment + total (tcp_len segment / 2) (set16 segment (34 + tcp_checksum_off) 0) 34
    < 2 ^ 32
unfolding pseudo_sum tcp_len tot_len htons ip_hdr_size saddr daddr protocol set16 set8 get16 get32
    total
small = omega arith

tcp_checksum-verifies_example :
    (pseudo_total segment
        + total (tcp_len segment / 2) (set16 segment 50 (tcp_checksum segment 34).0) 34)
      % 65535
    ≡ (pseudo_total segment / 2 ^ 32) % 65535
tcp_checksum-verifies_example = tcp_checksum-verifies segment 34 (omega arith) even full small

-- The segment between two addresses 200.200.200.200, whose sum loses a carry.
abbrev wrapping : Bytes
wrapping k = if leb 26 k && leb k 33 then 200 else segment k

carry_of_wrapping : (pseudo_total wrapping / 2 ^ 32) % 65535 ≡ 1
unfolding saddr daddr protocol tcp_len tot_len htons ip_hdr_size get32
carry_of_wrapping = omega arith

-- Three bytes whose word is 65535.
abbrev carrying : Bytes
carrying k = 255

carries : 65536 ≤ folded (0 + total 1 carrying 0) + 255
unfolding total folded fold_once fold_again get16
carries = omega arith

fits : 0 + total 1 carrying 0 < 2 ^ 32
unfolding total get16
fits = omega arith

checksum_odd_carry_example :
    (0 + total (3 / 2) carrying 0 + carrying (0 + 3 - 1) + checksum carrying 0 3 0) % 65535 ≡ 1
checksum_odd_carry_example = checksum_odd_carry carrying 0 3 0 (omega arith) refl fits carries
