-- ===== src/Device/Sync/Order.antt =====
-- igris-device, sync.rs: the order of the stamps.
use igrisv.Base.{
  ◌≡◌, true, false, arith, text_ltb-trans_false, text_ltb-antisym, text_ltb_irrefl, text_ltb-asym,
}
use igrisv.Device.Sync.{SyncRecord, superseded_by}

-- Being at most as new is transitive.
pub superseded_by-trans_false :
    (a b c : SyncRecord)
    → superseded_by a b ≡ false
    → superseded_by b c ≡ false
    → superseded_by a c ≡ false
unfolding superseded_by
superseded_by-trans_false a b c h k =
    ground (arith, text_ltb-trans_false a.device_id b.device_id c.device_id)

pub superseded_by_irrefl : (a : SyncRecord) → superseded_by a a ≡ false
unfolding superseded_by
superseded_by_irrefl a = ground (arith, text_ltb_irrefl a.device_id)

pub superseded_by-asym : (a b : SyncRecord) → superseded_by a b ≡ true → superseded_by b a ≡ false
unfolding superseded_by
superseded_by-asym a b h = ground (arith, text_ltb-asym a.device_id b.device_id)

-- Of two records of which neither supersedes the other, the stamps are the same.
pub superseded_by-antisym :
    (a b : SyncRecord)
    → superseded_by a b ≡ false
    → superseded_by b a ≡ false
    → (a.updated_ms ≡ b.updated_ms) × (a.device_id ≡ b.device_id)
unfolding superseded_by
superseded_by-antisym a b h k =
    (ground arith, ground (arith, text_ltb-antisym a.device_id b.device_id))
