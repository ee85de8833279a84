-- ===== src/NatStack/Ports.antt =====
-- The port pool of nat.h: `assign_external_port` and `free_port` of nat.c, and the variant of
-- nat_new_2.c. `assigned_ports[port]` is 0 for a port that is free.
pub mod Assign
use net_working_mini_net.Base.{ℕ, zero, suc, ◌+◌, ◌-◌, ◌^◌, ◌&&◌, ◌==◌, leb, if◌then◌else◌, u16}

abbrev pub nat_port_min : ℕ
nat_port_min = 12345

abbrev pub nat_port_max : ℕ
nat_port_max = 23456

abbrev pub Pool : Type 0
Pool = ℕ → ℕ

unfoldable pub set_port : Pool → ℕ → ℕ → Pool
set_port pool port v k = if k == port then v else pool k

-- The first `i` of `left` candidates with `pool[i] == 0`, or the first number behind them.
unfoldable pub scan_ports : Pool → (left i : ℕ) → ℕ
scan_ports pool zero i = i
scan_ports pool (suc left) i =
    let rest = scan_ports pool left (suc i) in if pool i == 0 then i else rest

-- nat.c: `for (i = NAT_PORT_MIN; i < NAT_PORT_MAX; ++i)`; `(u16)-1` if no port is free.
unfoldable pub assign_external_port : Pool → ℕ × Pool
assign_external_port pool =
    let i = scan_ports pool (nat_port_max - nat_port_min) nat_port_min in
    if i == nat_port_max then (u16 (2 ^ 16 - 1), pool) else (u16 i, set_port pool i 1)

-- nat_new_2.c: the last port is a candidate too, and the answer is 0 if no port is free.
unfoldable pub assign_external_port_incl : Pool → ℕ × Pool
assign_external_port_incl pool =
    let i = scan_ports pool (nat_port_max + 1 - nat_port_min) nat_port_min in
    if i == nat_port_max + 1 then (0, pool) else (i, set_port pool i 1)

unfoldable pub free_port : Pool → ℕ → Pool
unfolding set_port
free_port pool port =
    if leb nat_port_min port && leb port nat_port_max then set_port pool port 0 else pool
