-- ===== src/Device.antt =====
-- The start of both stacks: how main.c of nat_stack finds and opens the interfaces. The answers of the
-- system calls are a parameter. An `int` stands for its 32 bits.
pub mod Available
pub mod Descriptors
use mathlib.Core.Option
use net_working_mini_net.Base.{
  ℕ, suc, ◌-◌, ◌^◌, Bool, true, false, ◌||◌, ◌&&◌, Option, none, some, List, [], ◌∷◌, ◌++◌, ◌==◌,
  ◌>>=◌, if◌then◌else◌,
}

-- An address of `getifaddrs`: the name, and whether its family is AF_PACKET.
pub record IfAddr : Type 0 where
  pub ifa_name : List ℕ
  pub is_af_packet : Bool

-- What the system calls answer, each as long as the start lasts; `none` is a failure. The raw socket
-- is the one that is made for the device with the name.
pub record Os : Type 0 where
  pub socket_raw : (device : List ℕ) → Option ℕ
  pub get_index : (device : List ℕ) → Option ℕ
  pub bind_index : (index : ℕ) → Bool
  pub get_hwaddr : (device : List ℕ) → Option (List ℕ)
  pub get_addr : (fd : ℕ) → (device : List ℕ) → Option ℕ
  pub get_netmask : (fd : ℕ) → (device : List ℕ) → Option ℕ
  pub inet_ntoa : ℕ → List ℕ
  -- what stands in `struct ifreq` where a call that is not tested has failed
  pub stale_index : ℕ
  pub stale_mac : List ℕ

-- `ustack_t`: the interfaces, their number, and the descriptors that `poll` is given.
pub record Ustack (I : Type 0) : Type 0 where
  pub iface_list : List I
  pub nifs : ℕ
  pub fds : List ℕ

-- The descriptor -1.
abbrev pub no_fd : ℕ
no_fd = 2 ^ 32 - 1

abbrev pub or_value {ℓ} : {A : Type ℓ} → Option A → A → A
or_value none x = x
or_value (some a) x = a

-- `strstr(s, t) != NULL`
unfoldable pub starts_with : (s t : List ℕ) → Bool
starts_with s [] = true
starts_with [] (y ∷ t) = false
starts_with (x ∷ s) (y ∷ t) = x == y && starts_with s t

unfoldable pub strstr : (s t : List ℕ) → Bool
unfolding starts_with
strstr [] t = starts_with [] t
strstr (x ∷ s) t = starts_with (x ∷ s) t || strstr s t

-- The string "-eth".
abbrev pub eth_part : List ℕ
eth_part = b'-' ∷ b'e' ∷ b't' ∷ b'h' ∷ []

unfoldable pub is_available : IfAddr → Bool
unfolding strstr
is_available a = a.is_af_packet && strstr a.ifa_name eth_part

-- The loop of `find_available_ifaces`, with the names and the count of the interfaces found so far.
unfoldable pub find_from : List IfAddr → (names : List (List ℕ)) → (nifs : ℕ) → List (List ℕ) × ℕ
unfolding is_available
find_from [] names nifs = (names, nifs)
find_from (a ∷ addrs) names nifs =
    find_from addrs (if is_available a then names ++ a.ifa_name ∷ [] else names)
      (if is_available a then suc nifs else nifs)

-- The names and their number; without any the process exits: `none`.
unfoldable pub find_available_ifaces : List IfAddr → Option (List (List ℕ) × ℕ)
unfolding find_from
find_available_ifaces addrs =
    let (names, nifs) = find_from addrs [] 0 in if nifs == 0 then none else some (names, nifs)

-- `open_device`: the steps up to the first that fails; a socket that was made stays open then.
unfoldable pub try_open : Os → (dname : List ℕ) → Option ℕ
try_open os dname = do
  sd ← os.socket_raw dname
  index ← os.get_index dname
  hwaddr ← (if os.bind_index index then os.get_hwaddr dname else none)
  some sd

unfoldable pub open_device : Os → (dname : List ℕ) → ℕ
unfolding try_open
open_device os dname = or_value (try_open os dname) no_fd
