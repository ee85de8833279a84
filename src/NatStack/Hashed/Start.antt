-- ===== src/NatStack/Hashed/Start.antt =====
-- `nat_table_init` and `nat_table_destroy` of nat_new_2.c.
use net_working_mini_net.Base.{◌≡◌, ◌⊎◌, inl, inr, refl, true, Option, none, some, List, []}
use net_working_mini_net.Hash.{hash_8bits}
use net_working_mini_net.Buckets.{delete_in}
use net_working_mini_net.NatStack.{Iface, Table, if_name_to_iface}
use net_working_mini_net.NatStack.Linear.{
  InitResult, ready, exit_failure, null_dereference, internal_name, external_name,
}
use net_working_mini_net.NatStack.Hashed.Twins.{WellFormed}

-- The test on the two interfaces.
unfoldable pub table_of_ifaces : (internal external : Option Iface) → InitResult Table
table_of_ifaces none _ = exit_failure
table_of_ifaces (some _) none = exit_failure
table_of_ifaces (some internal) (some external) = ready (record {
  nat_mapping_list = λ i. [];
  internal_iface = internal;
  external_iface = external;
  assigned_ports = λ k. 0;
})

unfoldable pub nat_table_init : List Iface → InitResult Table
unfolding table_of_ifaces
nat_table_init ifaces =
    table_of_ifaces (if_name_to_iface ifaces internal_name) (if_name_to_iface ifaces external_name)

-- Every mapping is deleted and freed. The SIGTERM that the function sends to the thread of `nat_timeout`
-- behind the loop is left out.
unfoldable pub nat_table_destroy : Table → Table
nat_table_destroy t = record t {
  nat_mapping_list = delete_in (λ _. true) hash_8bits 0 t.nat_mapping_list;
}

-- How the start ends, as what holds of the interfaces.
abbrev pub Starts : List Iface → InitResult Table → Type 0
Starts ifaces (ready t) =
    (if_name_to_iface ifaces internal_name ≡ some t.internal_iface)
    × (if_name_to_iface ifaces external_name ≡ some t.external_iface)
    × WellFormed t
Starts ifaces exit_failure =
    (if_name_to_iface ifaces internal_name ≡ none) ⊎ (if_name_to_iface ifaces external_name ≡ none)
Starts ifaces null_dereference = ⊥

table_of_ifaces-Starts :
    (ifaces : List Iface) (internal external : Option Iface)
    → if_name_to_iface ifaces internal_name ≡ internal
    → if_name_to_iface ifaces external_name ≡ external
    → Starts ifaces (table_of_ifaces internal external)
unfolding table_of_ifaces
table_of_ifaces-Starts ifaces none external i e = inl i
table_of_ifaces-Starts ifaces (some a) none i e = inr e
table_of_ifaces-Starts ifaces (some a) (some b) i e =
    (i, e, record { stored = λ j. tt; twins = λ j. tt })

-- `nat_table_init` of nat_new_2.c dereferences no NULL: it ends with a well-formed table whose interfaces
-- are the first ones named "n1-eth0" and "n1-eth1", or it exits and one of the two does not exist.
pub nat_table_init-Starts : (ifaces : List Iface) → Starts ifaces (nat_table_init ifaces)
unfolding nat_table_init
nat_table_init-Starts ifaces =
    table_of_ifaces-Starts ifaces (if_name_to_iface ifaces internal_name)
      (if_name_to_iface ifaces external_name) refl refl
