-- ===== src/Device/Discovery.antt =====
-- crates/igris-device/src/discovery.rs: the devices that answered a scan. Probes are the network's: a
-- reply is a parameter. Instants are nanoseconds, and the clock is an argument.
pub mod Registry
pub mod Tests
use igrisv.Base.{
  ℕ, zero, suc, ◌+◌, ◌-◌, ◌*◌, String, Bool, not, ◌&&◌, ◌||◌, Option, none, some, List, [], ◌∷◌,
  ◌++◌, ltb, ◌==◌, if◌then◌else◌, length, keep, nat_key, string_key, Assoc, values, insert, retain,
  same, text_ltb, sort_by,
}
use igrisv.Device.Info.{device_timeout_secs}

pub record DiscoveredDevice : Type 0 where
  pub id : String
  pub name : String
  pub platform : String
  pub ip : String
  pub port : ℕ
  pub last_seen : ℕ

-- The configuration and the client matter to the probes only.
pub record Discovery : Type 0 where
  pub devices : Assoc String DiscoveredDevice

-- The octets of an address.
abbrev pub Ipv4Addr : Type 0
Ipv4Addr = ℕ × ℕ × ℕ × ℕ

abbrev pub same_addr : Ipv4Addr → Ipv4Addr → Bool
same_addr (a, b, c, d) (w, x, y, z) = a == w && b == x && c == y && d == z

-- The candidates from `n` on, `count` of them.
unfoldable pub hosts : Ipv4Addr → ℕ → ℕ → List Ipv4Addr
hosts (a, b, c, d) n zero = []
hosts (a, b, c, d) n (suc count) = (a, b, c, n) ∷ hosts (a, b, c, d) (n + 1) count

unfoldable pub subnet_targets : Ipv4Addr → List Ipv4Addr
subnet_targets ip = keep (λ cand. not (same_addr cand ip)) (hosts ip 1 254)

abbrev is_skipped : Ipv4Addr → Bool
is_skipped (a, b, c, d) = a == 127 || (a == 169 && b == 254)

-- The targets of a scan, from the addresses of the interfaces.
abbrev pub scan_targets : List Ipv4Addr → List Ipv4Addr
scan_targets [] = []
scan_targets (ip ∷ ips) =
    let rest = scan_targets ips in if is_skipped ip then rest else subnet_targets ip ++ rest

-- A reply without an id is none.
abbrev pub accepted : DiscoveredDevice → Option DiscoveredDevice
accepted d = if same d.id "" then none else some d

unfoldable pub merge : Discovery → DiscoveredDevice → Discovery
merge r d = record r { devices = insert d.id d r.devices }

abbrev pub merge_all : Discovery → List DiscoveredDevice → Discovery
merge_all r [] = r
merge_all r (d ∷ ds) = merge_all (merge r d) ds

abbrev pub by_id : DiscoveredDevice → DiscoveredDevice → Bool
by_id a b = text_ltb a.id b.id

abbrev pub is_live : ℕ → DiscoveredDevice → Bool
is_live now d = ltb (now - d.last_seen) (device_timeout_secs * 1000000000)

unfoldable pub known : Discovery → List DiscoveredDevice
known r = sort_by by_id (values r.devices)

unfoldable pub prune : Discovery → ℕ → List DiscoveredDevice × Discovery
prune r now = let left = record r { devices = retain (is_live now) r.devices } in (known left, left)

unfoldable pub merge_many : Discovery → ℕ → List DiscoveredDevice → ℕ × Discovery
merge_many r now fresh = let out = prune (merge_all r fresh) now in (length out.0, out.1)

-- The tasks' results, in the order in which they end.
abbrev pub answered : List (Option DiscoveredDevice) → List DiscoveredDevice
answered [] = []
answered (none ∷ ds) = answered ds
answered (some d ∷ ds) = d ∷ answered ds

unfoldable pub scan :
    Discovery → ℕ → List (Option DiscoveredDevice) → List DiscoveredDevice × Discovery
scan r now results = prune (merge_all r (answered results)) now
