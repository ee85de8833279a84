-- ===== src/NatStack/Linear/Timeout.antt =====
-- `nat_timeout` of nat.c: which mappings go, and which ports are freed.
use net_working_mini_net.Base.{
  ℕ, ◌≤◌, ◌≡◌, ◌≢◌, refl, ap, ◌∙◌, not, true, false, List, [], ◌∷◌, arith, keep, All, htons,
}
use net_working_mini_net.Hash.{hash_8bits}
use net_working_mini_net.Buckets.{entries}
use net_working_mini_net.Buckets.Removal.{entries-delete_in}
use net_working_mini_net.NatStack.{Mapping, Table, is_expired}
use net_working_mini_net.NatStack.Ports.{Pool, free_port, set_port}
use net_working_mini_net.NatStack.Expiry.{expire_list}
use net_working_mini_net.NatStack.Expiry.Lists.{free_all, expire_from_lists, expire_from_pool}
use net_working_mini_net.NatStack.Linear.{nat_timeout}
use net_working_mini_net.NatStack.Linear.Invariant.{mappings}

module _ (now : ℕ) where
  -- `nat_timeout` of nat.c deletes exactly the mappings whose time of update lies at least 60
  -- seconds in the future, keeps the others in order, and passes the deleted ports to `free_port`
  -- as they are stored.
  pub nat_timeout_lem :
      (t : Table)
      → (mappings (nat_timeout now t) ≡ keep (λ m. not (is_expired now m)) (mappings t))
        × ((nat_timeout now t).assigned_ports
            ≡ free_all t.assigned_ports (keep (is_expired now) (mappings t)))
  unfolding nat_timeout
  nat_timeout_lem t = (
    ap (entries hash_8bits 0) (expire_from_lists (is_expired now) hash_8bits 0 t)
        ∙ entries-delete_in (is_expired now) hash_8bits 0 t.nat_mapping_list,
    expire_from_pool (is_expired now) hash_8bits 0 t,
  )

  keep_unexpired :
      (l : List Mapping)
      → All (λ m. m.update_time ≤ now) l
      → (keep (λ m. not (is_expired now m)) l ≡ l) × (keep (is_expired now) l ≡ [])
  keep_unexpired [] h = (refl, refl)
  keep_unexpired (m ∷ l) h =
      let e : is_expired now m ≡ false = let le = h.0 in unfold is_expired in ground arith in
      let (a, b) = keep_unexpired l h.1 in (rw (e, a), rw (e, b))

  -- However old its mappings are, if no time of update is later than now, `nat_timeout` of nat.c
  -- deletes nothing and keeps the pool.
  pub nat_timeout-never :
      (t : Table)
      → All (λ m. m.update_time ≤ now) (mappings t)
      → (mappings (nat_timeout now t) ≡ mappings t)
        × ((nat_timeout now t).assigned_ports ≡ t.assigned_ports)
  nat_timeout-never t h =
      let (a, b) = keep_unexpired (mappings t) h in
      let (c, d) = nat_timeout_lem t in (c ∙ a, d ∙ unfold free_all in rw b refl)

-- The deletion of an expired mapping that stores its port in network byte order leaves the port as
-- it stands in the pool, if the two bytes of the port differ: `free_port` is given the stored
-- number.
pub expire_list-keeps_port :
    (now : ℕ) (pool : Pool) (m : Mapping) (port : ℕ)
    → is_expired now m ≡ true
    → m.external_port ≡ htons port
    → htons port ≢ port
    → ((expire_list (is_expired now) pool (m ∷ [])).0 ≡ [])
      × ((expire_list (is_expired now) pool (m ∷ [])).1 port ≡ pool port)
unfolding expire_list free_port set_port
expire_list-keeps_port now pool m port expired stored ne =
    (rw expired refl, rw (expired, stored) (ground arith))
