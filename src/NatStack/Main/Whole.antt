-- ===== src/NatStack/Main/Whole.antt =====
-- `main` of nat_stack: how the start and the poll loop compose.
use net_working_mini_net.Base.{
  ℕ, ◌<◌, ◌^◌, ◌≡◌, ◌≢◌, ◌⊎◌, inl, inr, not, ◌&&◌, Option, none, some, List, ◌==◌, All, Bool-cases,
  Option-cases, arith,
}
use net_working_mini_net.Device.{IfAddr, Os, Ustack}
use net_working_mini_net.Switch.Main.{Poll}
use net_working_mini_net.NatStack.{Iface, Table, Action, if_name_to_iface}
use net_working_mini_net.NatStack.Linear.{
  InitResult, exit_failure, ready, external_name, internal_name, nat_table_init,
}
use net_working_mini_net.NatStack.Linear.Init.{Ends, nat_table_init-Ends}
use net_working_mini_net.NatStack.Start.{init_all_ifaces, start_table, start_stack, init_ustack}
use net_working_mini_net.NatStack.Main.{
  Outcome, gave_up, crashed, returned, run_outcome, run_started, main,
}
use net_working_mini_net.NatStack.Main.Run.{IsRound, IsSound, EndsSound, nat_ustack_run_sound}

-- The start opened interfaces, and none of them has the name.
abbrev pub Lacks : Os → List IfAddr → (name : List ℕ) → Type 0
Lacks os addrs name =
    (u : Ustack Iface) × (init_all_ifaces os addrs ≡ some u)
    × (if_name_to_iface u.iface_list name ≡ none)

-- Why `main` ends in a way.
abbrev pub Explains : Os → (uid euid : ℕ) → List IfAddr → Outcome → Type 0
Explains os uid euid addrs gave_up =
    ((uid ≢ 0) × (euid ≢ 0)) ⊎ (init_all_ifaces os addrs ≡ none) ⊎ Lacks os addrs internal_name
Explains os uid euid addrs crashed = Lacks os addrs external_name
Explains os uid euid addrs (returned t sent) = IsSound (t, sent)

module _ (inet_addr : List ℕ → ℕ) (malloc : Table → ℕ) (os : Os) (uid euid : ℕ)
    (addrs : List IfAddr) (polls : List Poll) (is_u32 : (s : List ℕ) → inet_addr s < 2 ^ 32)
    (rounds : All IsRound polls) where
  ran :
      (r : Option (Table × List Action)) → EndsSound r → Explains os uid euid addrs (run_outcome r)
  unfolding run_outcome
  ran r (t, sent, e, s) = rw e s

  started_table :
      (u : Ustack Iface) (r : InitResult Table)
      → init_all_ifaces os addrs ≡ some u
      → Ends u.iface_list r
      → Explains os uid euid addrs (run_started inet_addr malloc (start_table u r) polls)
  unfolding start_table run_started
  started_table u exit_failure e h = inr (inr (u, e, h))
  started_table u InitResult.null_dereference e h = (u, e, h)
  started_table u (ready t) e (i, x, empty, w) =
      ran _ (nat_ustack_run_sound inet_addr malloc u.iface_list polls t is_u32 rounds w)

  started_stack :
      Explains os uid euid addrs (run_started inet_addr malloc (init_ustack os addrs) polls)
  unfolding init_ustack start_stack run_started
  started_stack = elim (Option-cases (init_all_ifaces os addrs)) [
    | inl e ↦ rw e (inr (inl e))
    | inr (u, e) ↦
        rw e (started_table u (nat_table_init u.iface_list) e (nat_table_init-Ends u.iface_list))
  ]

-- The addresses that `inet_addr` gives have 32 bits. Every frame that the sockets deliver is made of bytes and
-- holds an Ethernet header; a frame of type IP holds a whole packet with legal header and total lengths and, if
-- it is ICMP or TCP, with the header of that protocol. `poll` fails in the end. Then `main` of nat_stack
-- ends in one of three ways: it exits before the loop, and neither identity is the superuser's, or
-- `init_all_ifaces` exits, or none of the interfaces has the name "n1-eth0"; it dereferences NULL, and none of
-- the opened interfaces has the name "n1-eth1"; or it returns when `poll` has failed, no handler of
-- main.c and nat.c has touched memory outside its copy of a frame, its table is well-formed, and each packet
-- handed to `ip_send_packet` has a valid IP checksum.
pub nat_main_sound :
    (inet_addr : List ℕ → ℕ) (malloc : Table → ℕ) (os : Os) (uid euid : ℕ) (addrs : List IfAddr)
    (polls : List Poll)
    → ((s : List ℕ) → inet_addr s < 2 ^ 32)
    → All IsRound polls
    → Explains os uid euid addrs (main inet_addr malloc os uid euid addrs polls)
unfolding main
nat_main_sound inet_addr malloc os uid euid addrs polls is_u32 rounds =
    elim (Bool-cases (not (uid == 0) && not (euid == 0))) [
      | inl e ↦ rw e (inl (ground arith, ground arith))
      | inr e ↦ rw e (started_stack inet_addr malloc os uid euid addrs polls is_u32 rounds)
    ]
