-- ===== src/Switch/Mac/Dump.antt =====
-- `dump_mac_port_table` of mac.c: the lines that it prints. The age is an `int`, which stands for its 32
-- bits.
use mathlib.Core.Option
use net_working_mini_net.Base.{
  ℕ, zero, suc, ◌+◌, ◌-◌, ◌%◌, ◌^◌, ◌≡◌, refl, ap, ◌∙◌, sym, inl, inr, Option, none, some, List, [],
  ◌∷◌, ◌++◌, find, Bool-cases,
}
use net_working_mini_net.Hash.{hash_8bits}
use net_working_mini_net.Buckets.{entries, first_in}
use net_working_mini_net.Buckets.Search.{first_in-find}
use net_working_mini_net.Switch.{Iface, MacPortEntry, MacPortMap, eq_bytes}
use net_working_mini_net.Switch.Mac.{entry_has, lookup_port}

-- What `fprintf` is given for an entry.
pub record Line : Type 0 where
  pub mac : List ℕ
  pub iface_name : List ℕ
  pub age : ℕ

unfoldable pub dump_entry : (now : ℕ) → MacPortEntry → Line
dump_entry now e = record {
  mac = e.mac;
  iface_name = e.iface.name;
  age = (now % 2 ^ 32 + 2 ^ 32 - e.visited % 2 ^ 32) % 2 ^ 32;
}

-- The loop over one list, and the loop over the lists.
unfoldable pub dump_list : (now : ℕ) → List MacPortEntry → List Line
dump_list now [] = []
dump_list now (e ∷ es) = dump_entry now e ∷ dump_list now es

unfoldable pub dump_from : (now left i : ℕ) → MacPortMap → List Line
unfolding dump_list
dump_from now zero i t = []
dump_from now (suc left) i t = dump_list now (t i) ++ dump_from now left (suc i) t

unfoldable pub dump_mac_port_table : (now : ℕ) → MacPortMap → List Line
unfolding dump_from
dump_mac_port_table now t = dump_from now hash_8bits 0 t

module _ (now : ℕ) where
  dump_list-append :
      (xs ys : List MacPortEntry) → dump_list now (xs ++ ys) ≡ dump_list now xs ++ dump_list now ys
  unfolding dump_list
  dump_list-append [] ys = refl
  dump_list-append (x ∷ xs) ys = ap (λ l. dump_entry now x ∷ l) (dump_list-append xs ys)

  dump_from-entries :
      (left i : ℕ) (t : MacPortMap) → dump_from now left i t ≡ dump_list now (entries left i t)
  unfolding dump_from entries
  dump_from-entries zero i t = unfold dump_list in refl
  dump_from-entries (suc left) i t =
      rw (dump_from-entries left (suc i) t) (sym (dump_list-append (t i) (entries left (suc i) t)))

  find-dump_list :
      (m : List ℕ) (l : List MacPortEntry)
      → Option.map (λ (e : MacPortEntry). e.iface.name) (find (entry_has m) l)
        ≡ Option.map (λ (d : Line). d.iface_name) (find (λ d. eq_bytes d.mac m) (dump_list now l))
  unfolding dump_list dump_entry entry_has
  find-dump_list m [] = refl
  find-dump_list m (e ∷ l) = elim (Bool-cases (eq_bytes e.mac m)) [
    | inl h ↦ rw h refl
    | inr h ↦ rw h (find-dump_list m l)
  ]

map-then :
    (o : Option MacPortEntry)
    → Option.map (λ (i : Iface). i.name) (Option.map (λ (e : MacPortEntry). e.iface) o)
      ≡ Option.map (λ (e : MacPortEntry). e.iface.name) o
map-then none = refl
map-then (some e) = refl

-- `lookup_port` answers an interface with the name in the first line of `dump_mac_port_table` that has
-- the address, at whatever time the table is dumped, and NULL if no line has the address.
pub lookup_port-dump :
    (now : ℕ) (t : MacPortMap) (m : List ℕ)
    → Option.map (λ (i : Iface). i.name) (lookup_port t m)
      ≡ Option.map
          (λ (d : Line). d.iface_name)
          (find (λ d. eq_bytes d.mac m) (dump_mac_port_table now t))
unfolding lookup_port dump_mac_port_table
lookup_port-dump now t m =
    map-then (first_in (entry_has m) hash_8bits 0 t)
    ∙ ap (Option.map (λ (e : MacPortEntry). e.iface.name))
        (first_in-find (entry_has m) hash_8bits 0 t)
    ∙ find-dump_list now m (entries hash_8bits 0 t)
    ∙ ap (λ l. Option.map (λ (d : Line). d.iface_name) (find (λ (d : Line). eq_bytes d.mac m) l))
        (sym (dump_from-entries now hash_8bits 0 t))
