-- ===== src/Device/Info.antt =====
-- crates/igris-device/src/lib.rs: what a device says of itself.
use igrisv.Base.{ℕ, ◌+◌, ◌*◌, ◌/◌, String, Bool, List, if◌then◌else◌}

abbrev pub device_timeout_secs : ℕ
device_timeout_secs = 120

abbrev pub eco_http_port : ℕ
eco_http_port = 53327

pub record DeviceCaps : Type 0 where
  pub cpu_cores : ℕ
  pub ram_mb : ℕ
  pub has_gpu : Bool
  pub storage_mb : ℕ
  pub models : List String

pub record DeviceInfo : Type 0 where
  pub id : String
  pub name : String
  pub platform : String
  pub caps : DeviceCaps
  pub trusted : Bool

-- The terms fit a `u64`, and so does their sum.
unfoldable pub compute_score : DeviceInfo → ℕ
compute_score d = d.caps.cpu_cores * 10 + d.caps.ram_mb / 512 + (if d.caps.has_gpu then 50 else 0)

-- The fields of the JSON object.
unfoldable pub announcement : DeviceInfo → String × String × String × ℕ
announcement d = (d.id, d.name, d.platform, compute_score d)
