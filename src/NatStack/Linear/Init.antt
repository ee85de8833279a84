-- ===== src/NatStack/Linear/Init.antt =====
-- `nat_table_init` and `nat_table_destroy` of nat.c.
use net_working_mini_net.Base.{
  ℕ, zero, suc, ◌≡◌, refl, ◌∙◌, not, true, Option, none, some, List, [], ◌∷◌, keep,
}
use net_working_mini_net.Hash.{hash_8bits}
use net_working_mini_net.Buckets.{entries}
use net_working_mini_net.Buckets.Removal.{entries-delete_in}
use net_working_mini_net.NatStack.{Iface, Mapping, Table, if_name_to_iface}
use net_working_mini_net.NatStack.Linear.{
  InitResult, ready, exit_failure, null_dereference, table_of_ifaces, external_name, internal_name,
  nat_table_init, nat_table_destroy,
}
use net_working_mini_net.NatStack.Linear.Invariant.{mappings, WellFormed}

pub entries-nil : (left i : ℕ) → entries {A = Mapping} left i (λ j. []) ≡ []
unfolding entries
entries-nil zero i = refl
entries-nil (suc left) i = entries-nil left (suc i)

pub no_mappings-WellFormed : (t : Table) → mappings t ≡ [] → WellFormed t
no_mappings-WellFormed t e = record { fit = rw e tt; hold = rw e tt; unique = rw e tt }

-- How the start of the table ends, as what holds of the interfaces.
abbrev pub Ends : List Iface → InitResult Table → Type 0
Ends ifaces (ready t) =
    (if_name_to_iface ifaces internal_name ≡ some t.internal_iface)
    × (if_name_to_iface ifaces external_name ≡ some t.external_iface)
    × (mappings t ≡ [])
    × WellFormed t
Ends ifaces exit_failure = if_name_to_iface ifaces internal_name ≡ none
Ends ifaces null_dereference = if_name_to_iface ifaces external_name ≡ none

table_of_ifaces-Ends :
    (ifaces : List Iface) (internal external : Option Iface)
    → if_name_to_iface ifaces internal_name ≡ internal
    → if_name_to_iface ifaces external_name ≡ external
    → Ends ifaces (table_of_ifaces internal external)
unfolding table_of_ifaces
table_of_ifaces-Ends ifaces internal none i e = e
table_of_ifaces-Ends ifaces none (some b) i e = i
table_of_ifaces-Ends ifaces (some a) (some b) i e =
    let t : Table = record {
      nat_mapping_list = λ j. [];
      internal_iface = a;
      external_iface = b;
      assigned_ports = λ k. 0;
    } in
    let empty : mappings t ≡ [] = entries-nil hash_8bits 0 in
    (i, e, empty, no_mappings-WellFormed t empty)

-- `nat_table_init` either ends with a well-formed table without mappings, whose interfaces are the first ones
-- named "n1-eth0" and "n1-eth1", or it exits and there is no interface "n1-eth0", or it dereferences
-- NULL and there is no interface "n1-eth1".
pub nat_table_init-Ends : (ifaces : List Iface) → Ends ifaces (nat_table_init ifaces)
unfolding nat_table_init
nat_table_init-Ends ifaces =
    table_of_ifaces-Ends ifaces (if_name_to_iface ifaces internal_name)
      (if_name_to_iface ifaces external_name) refl refl

keep-none : (l : List Mapping) → keep (λ m. not true) l ≡ []
keep-none [] = refl
keep-none (m ∷ l) = keep-none l

-- `nat_table_destroy` leaves no mapping in any of the lists, and every port as it was.
pub nat_table_destroy-empty :
    (t : Table)
    → (mappings (nat_table_destroy t) ≡ [])
      × ((nat_table_destroy t).assigned_ports ≡ t.assigned_ports)
unfolding nat_table_destroy
nat_table_destroy-empty t =
    (entries-delete_in (λ m. true) hash_8bits 0 t.nat_mapping_list ∙ keep-none (mappings t), refl)
