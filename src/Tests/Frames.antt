-- ===== src/Tests/Frames.antt =====
-- Data of the tests: frames, interfaces and tables.
use net_working_mini_net.Base.{ℕ, ◌%◌, ◌≤◌, ◌<◌, ◌^◌, ◌==◌, if◌then◌else◌, List, [], arith}
use net_working_mini_net.Packet.{Bytes, ip_hdr_size}
use net_working_mini_net.Packet.Fields.{IsBytes}
use net_working_mini_net.NatStack.{Iface, Table}
use net_working_mini_net.NatStack.Linear.{internal_name, external_name}
use net_working_mini_net.NatStack.Linear.Init.{no_mappings-WellFormed, entries-nil}
use net_working_mini_net.NatStack.Linear.Invariant.{WellFormed}

-- An Ethernet frame with an IP header of 20 bytes and a TCP segment of 20 bytes.
abbrev pub segment : Bytes
segment k =
    if k == 14
    then 0x45
    else if k == 12
    then 8
    else if k == 13
    then 0
    else if k == 16
    then 0
    else if k == 17
    then 40
    else if k == 23
    then 6
    else k % 200

-- The same with the destination port 12345.
abbrev pub reply_segment : Bytes
reply_segment k = if k == 36 then 0x30 else if k == 37 then 0x39 else segment k

pub segment-IsBytes : IsBytes segment
segment-IsBytes k = ground arith

pub reply_segment-IsBytes : IsBytes reply_segment
reply_segment-IsBytes k = ground arith

pub segment-long : 20 ≤ ip_hdr_size segment
unfolding ip_hdr_size
segment-long = omega arith

pub reply_segment-long : 20 ≤ ip_hdr_size reply_segment
unfolding ip_hdr_size
reply_segment-long = omega arith

-- An address converter that gives every string the address 192.168.0.1.
abbrev pub one_address : List ℕ → ℕ
one_address s = 0x0100a8c0

pub one_address-lt : (s : List ℕ) → one_address s < 2 ^ 32
one_address-lt s = omega arith

abbrev pub internal : Iface
internal = record {
  fd = 3;
  index = 1;
  mac = [];
  ip = 1;
  mask = 0;
  name = internal_name;
  ip_str = [];
}

abbrev pub external : Iface
external = record {
  fd = 4;
  index = 2;
  mac = [];
  ip = 0xc0a80001;
  mask = 0;
  name = external_name;
  ip_str = [];
}

abbrev pub no_flows : Table
no_flows = record {
  nat_mapping_list = λ i. [];
  internal_iface = internal;
  external_iface = external;
  assigned_ports = λ k. 0;
}

pub no_flows-WellFormed : WellFormed no_flows
no_flows-WellFormed = no_mappings-WellFormed no_flows (entries-nil 256 0)
