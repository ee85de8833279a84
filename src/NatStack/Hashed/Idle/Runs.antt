-- ===== src/NatStack/Hashed/Idle/Runs.antt =====
-- `nat_timeout` of nat_new_2.c along runs: packets and passes of the thread, as time goes on.
use mathlib.Core.Path.{subst}
use net_working_mini_net.Base.{ℕ, ◌≤◌, ◌≡◌, sym, some, List, arith, All-map}
use net_working_mini_net.Packet.{Bytes}
use net_working_mini_net.NatStack.{Table, Action}
use net_working_mini_net.NatStack.Hashed.{nat_translate_packet, get_packet_direction, nat_timeout}
use net_working_mini_net.NatStack.Hashed.Idle.{
  IsQuiet, AllQuiet, EndsQuiet, nat_timeout-quiet, translate_packet-EndsQuiet,
}

-- A packet translated, a pass of `nat_timeout`, or time that goes on.
pub data Step (inet_addr : List ℕ → ℕ) : ℕ × Table → ℕ × Table → Type 0 where
  packet_in :
      (now addr addr' : ℕ) (t : Table) (packet : Bytes) (len : ℕ) (t' : Table) (sent : List Action)
      → nat_translate_packet inet_addr now addr addr' t packet len ≡ some (t', sent)
      → Step inet_addr (now, t) (now, t')
  expire : (now : ℕ) (t : Table) → Step inet_addr (now, t) (now, nat_timeout now t)
  wait : (now later : ℕ) (t : Table) → now ≤ later → Step inet_addr (now, t) (later, t)

pub data Reach (inet_addr : List ℕ → ℕ) (s : ℕ × Table) : ℕ × Table → Type 0 where
  here : Reach inet_addr s s
  next : {u v : ℕ × Table} → Reach inet_addr s u → Step inet_addr u v → Reach inet_addr s v

Step-AllQuiet :
    {inet_addr : List ℕ → ℕ} {s s' : ℕ × Table}
    → Step inet_addr s s'
    → AllQuiet s.0 s.1
    → AllQuiet s'.0 s'.1
unfolding nat_translate_packet
Step-AllQuiet {inet_addr} (packet_in now addr addr' t packet len t' sent e) q =
    subst (EndsQuiet now) e (
      translate_packet-EndsQuiet inet_addr now addr addr' t packet len q
        (get_packet_direction t packet))
Step-AllQuiet (expire now t) q = subst (AllQuiet now) (sym (nat_timeout-quiet now t q)) q
Step-AllQuiet (wait now later t b) q = λ i.
    All-map (IsQuiet now) (IsQuiet later) (t.nat_mapping_list i) (λ m h. (h.0, omega (arith, h.1)))
      (q i)

Reach-AllQuiet :
    {inet_addr : List ℕ → ℕ} {s s' : ℕ × Table}
    → Reach inet_addr s s'
    → AllQuiet s.0 s.1
    → AllQuiet s'.0 s'.1
Reach-AllQuiet here q = q
Reach-AllQuiet (next r st) q = Step-AllQuiet st (Reach-AllQuiet r q)

-- From a table whose mappings have zero connections and no later time of update, as the empty one, every
-- run of nat_new_2.c, of packets, passes of `nat_timeout` and time that goes on, leads to a table that
-- `nat_timeout` does not change: no mapping is ever deleted, finished or idle as it may be, and no port
-- is freed.
pub Reach-nat_timeout :
    (inet_addr : List ℕ → ℕ) (s s' : ℕ × Table)
    → Reach inet_addr s s'
    → AllQuiet s.0 s.1
    → nat_timeout s'.0 s'.1 ≡ s'.1
Reach-nat_timeout inet_addr s s' r q = nat_timeout-quiet s'.0 s'.1 (Reach-AllQuiet r q)
