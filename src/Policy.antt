-- ===== src/Policy.antt =====
-- crates/igris-policy/src/lib.rs: the gate that every dangerous action passes. The kill switch is a
-- flag on a store, since clones of a policy share it.
pub mod Approvals
pub mod Audit
pub mod Gate
pub mod Tests
use Prim.Native.String
use igrisv.Base.{
  ℕ, String, ite, Bool, true, false, not, ◌&&◌, ◌++◌, ℕ_discrete, ltb, leb, if◌then◌else◌, Result,
  ok, err,
}

pub data Autonomy : Type 0 where
  assist operate autonomous : Autonomy

pub data PermissionLevel : Type 0 where
  l0_read l1_write l2_exec l3_sensitive l4_destructive : PermissionLevel

-- The derived order compares the discriminants.
abbrev pub rank : PermissionLevel → ℕ
rank l0_read = 0
rank l1_write = 1
rank l2_exec = 2
rank l3_sensitive = 3
rank l4_destructive = 4

-- `{level:?}`
abbrev pub debug : PermissionLevel → String
debug l0_read = "L0Read"
debug l1_write = "L1Write"
debug l2_exec = "L2Exec"
debug l3_sensitive = "L3Sensitive"
debug l4_destructive = "L4Destructive"

abbrev pub debug_bool : Bool → String
debug_bool true = "true"
debug_bool false = "false"

abbrev pub concat : String → String → String
concat = String.◌++◌

pub data PolicyError : Type 0 where
  denied approval_required killed : String → PolicyError

-- `Arc<AtomicBool>`: the address of a flag, and the flags that the process holds.
pub record KillSwitch : Type 0 where
  pub engaged : ℕ

abbrev pub Flags : Type 0
Flags = ℕ → Bool

-- `store` with sequential consistency.
unfoldable pub write_flag : Flags → ℕ → Bool → Flags
write_flag flags a b j = ite (ℕ_discrete a j) b (flags j)

unfoldable pub engage : Flags → KillSwitch → Flags
unfolding write_flag
engage flags k = write_flag flags k.engaged true

unfoldable pub disengage : Flags → KillSwitch → Flags
unfolding write_flag
disengage flags k = write_flag flags k.engaged false

unfoldable pub is_engaged : Flags → KillSwitch → Bool
is_engaged flags k = flags k.engaged

pub record Policy : Type 0 where
  pub autonomy : Autonomy
  pub max_auto_level : PermissionLevel
  pub kill : KillSwitch

-- `Policy::default`, with a new flag at the address `a`.
unfoldable pub default : ℕ → Policy
default a = record { autonomy = assist; max_auto_level = l1_write; kill = record { engaged = a } }

-- The `match` of `check`.
by_autonomy : Policy → PermissionLevel → Bool → Autonomy → Result PolicyError Bool
by_autonomy p level risky assist = err (approval_required (concat "assist mode, L" (debug level)))
by_autonomy p level risky operate =
    if not risky && leb (rank level) (rank p.max_auto_level)
    then ok true
    else err (
        approval_required
          (concat "operate gate, L" (concat (debug level) (concat " risky=" (debug_bool risky)))))
by_autonomy p level risky autonomous =
    if leb (rank level) (rank p.max_auto_level)
    then ok true
    else err (approval_required (concat "autonomous cap, L" (debug level)))

unfoldable pub check : Flags → Policy → PermissionLevel → Bool → Result PolicyError Bool
unfolding by_autonomy is_engaged
check flags p level risky =
    if is_engaged flags p.kill
    then err (killed "kill-switch engaged")
    else if ltb (rank l4_destructive) (rank level)
    then err (denied "unknown level")
    else by_autonomy p level risky p.autonomy
