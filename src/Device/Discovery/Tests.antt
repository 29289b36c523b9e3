-- ===== src/Device/Discovery/Tests.antt =====
-- Tests of the discovered devices, and instances of their theorems.
use igrisv.Base.{
  ℕ, ◌*◌, ◌≡◌, refl, none, some, [], ◌∷◌, length, nat_key, string_key, insert, retain, sort_by,
}
use igrisv.Device.Discovery.{
  Discovery, scan, hosts, subnet_targets, merge, known, prune, DiscoveredDevice,
}

abbrev phone : ℕ → DiscoveredDevice
phone t = record {
  id = "p";
  name = "Phone";
  platform = "android";
  ip = "10.0.0.2";
  port = 53327;
  last_seen = t;
}

abbrev nobody : Discovery
nobody = record { devices = [] }

long_ago : (scan nobody (121 * 1000000000) (some (phone 0) ∷ none ∷ [])).0 ≡ []
unfolding scan prune merge known sort_by insert retain
long_ago = refl

count_targets : length (subnet_targets (192, 168, 1, 10)) ≡ 253
unfolding subnet_targets hosts
count_targets = refl
