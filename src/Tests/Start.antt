-- ===== src/Tests/Start.antt =====
-- The theorem on the start and the loop of the NAT, at a host with two interfaces.
use net_working_mini_net.Base.{
  htons, arith, ℕ, true, none, some, List, [], ◌∷◌, ◌==◌, if◌then◌else◌,
}
use net_working_mini_net.Device.{IfAddr, Os, no_fd}
use net_working_mini_net.Switch.Main.{Poll, ready, frame, nothing}
use net_working_mini_net.Packet.{ip_hdr_size, tot_len, protocol}
use net_working_mini_net.NatStack.Main.Run.{IsIpFrame}
use net_working_mini_net.NatStack.Linear.{internal_name, external_name}
use net_working_mini_net.NatStack.Main
use net_working_mini_net.NatStack.Main.Whole.{nat_main_sound}
use net_working_mini_net.NatStack.Main.Whole
use net_working_mini_net.Tests.Frames.{
  segment, segment-IsBytes, segment-long, one_address, one_address-lt,
}

last_byte : List ℕ → ℕ
last_byte [] = 0
last_byte (b ∷ []) = b
last_byte (b ∷ c ∷ bs) = last_byte (c ∷ bs)

-- Each device opens, with a descriptor and an index of its own.
abbrev os : Os
os = record {
  socket_raw = λ device. some (last_byte device);
  get_index = λ device. some (last_byte device);
  bind_index = λ index. true;
  get_hwaddr = λ device. some (1 ∷ 2 ∷ 3 ∷ 4 ∷ 5 ∷ 6 ∷ []);
  get_addr = λ fd device. if fd == no_fd then none else some fd;
  get_netmask = λ fd device. if fd == no_fd then none else some 0xffffff;
  inet_ntoa = λ ip. [];
  stale_index = 0;
  stale_mac = [];
}

abbrev addrs : List IfAddr
addrs =
    record { ifa_name = internal_name; is_af_packet = true }
    ∷ record { ifa_name = external_name; is_af_packet = true }
    ∷ []

abbrev polls : List Poll
polls = nothing ∷ ready 7 (some (frame segment 54) ∷ none ∷ []) ∷ []

segment-IsIpFrame : IsIpFrame segment 54
unfolding ip_hdr_size tot_len htons protocol
segment-IsIpFrame = record {
  header = segment-long;
  total = omega arith;
  whole = omega arith;
  icmp = λ e. absurd (omega (arith, e));
  tcp = λ e. omega arith;
}

nat_main_sound_example :
    Whole.Explains os 0 0 addrs (Main.main one_address (λ t. 1) os 0 0 addrs polls)
nat_main_sound_example =
    nat_main_sound one_address (λ t. 1) os 0 0 addrs polls one_address-lt
      (tt, (((segment-IsBytes, omega arith, λ e. segment-IsIpFrame), (tt, tt)), tt))
