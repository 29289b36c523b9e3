-- ===== src/Tools/Tests.antt =====
-- Tests of the tool runtime, and instances of its theorems.
use igrisv.Base.{
  ℕ, ◌+◌, ◌≤◌, String, ◌≡◌, refl, true, false, none, some, [], ◌∷◌, arith, if◌then◌else◌, length,
  nat_key, string_key, lookup, insert, Result, ok, err, same, contains, path_starts_with,
  String_discrete, remove, parts,
}
use igrisv.Policy.{PermissionLevel}
use igrisv.Tools.{
  RiskLevel, truncate, good, denied, bad_args, returned, new, register, note, execute, ToolDef,
  Tool, Registry, knows,
}
use igrisv.Tools.Catalog.{Catalog, empty_catalog, register_factory, ensure_loaded, execute_loaded}
use igrisv.Tools.Native.{Json, Shell, confine, new_terminal, is_denied, run_filesystem, FileSystem}
use igrisv.Tools.Execution.{
  Mode, last_ten_thousand, call, validated_first, run_all, audit-last_ten_thousand,
}
use igrisv.Tools.Visibility.{WellNamed}
use igrisv.Tools.Confinement.{starts_with_append, run_filesystem_confined, AgreeInside}

-- A tool that counts its runs and refuses empty arguments.
abbrev echo_def : ToolDef
echo_def = record {
  name = "echo";
  description = "echo";
  version = "0.1.0";
  permission = PermissionLevel.l0_read;
  risk = RiskLevel.no_risk;
  requires_network = false;
  timeout_ms = none;
}

abbrev echo : Tool ℕ
echo = record {
  definition = echo_def;
  validate = λ args. if same args "" then err (bad_args "empty") else ok tt;
  run = λ args n. (good args, n + 1);
}

abbrev with_echo : Registry ℕ
with_echo = register new echo

abbrev can_echo : Catalog ℕ
can_echo = register_factory empty_catalog echo_def echo

runs : execute with_echo "echo" "hi" 0 ≡ (
  returned (record { success = true; output = "hi"; error = none }),
  record with_echo { audit = ("echo", true) ∷ [] },
  1,
)
unfolding execute register note truncate lookup insert String_discrete
runs = refl

loads : (execute_loaded can_echo "echo" "hi" 0).1.factories ≡ []
unfolding execute_loaded ensure_loaded execute register register_factory note truncate knows lookup
    insert String_discrete remove
loads = refl

rooted : confine ("srv" ∷ []) "/etc/passwd" ≡ err (denied "absolute paths rejected")
unfolding confine parts
rooted = refl

climbing : confine ("srv" ∷ []) "a/../../etc" ≡ err (denied "path traversal rejected")
unfolding confine parts
climbing = refl

-- The arguments are the path of the call.
abbrev reads : Json
reads = record {
  value = String;
  from_str = λ s. ok s;
  field_str = λ v k. if same k "path" then some v else some "read";
}

-- What a file system says outside the directory `srv`, which is the root.
abbrev disk : Result String String → FileSystem ℕ
disk outside = record {
  metadata = λ w p. ok (false, 5);
  read_to_string = λ w p. if path_starts_with p ("srv" ∷ []) then ok "hello" else outside;
  read_dir = λ w p. ok [];
  create_dir_all = λ w p. (ok tt, w);
  write = λ w p s. (ok tt, w + 1);
}

disks_agree : AgreeInside ("srv" ∷ []) (disk (ok "secret")) (disk (err "not found"))
disks_agree = record {
  metadata = λ w p i. refl;
  read_to_string = λ w p i. ground (arith, i.1, starts_with_append ("srv" ∷ []) i.0);
  read_dir = λ w p i. refl;
  write = λ w p s i. refl;
  create_dir_all = λ w p d i e. refl;
}

abbrev says : String → Shell ℕ
says other cmd dir w = (
  ok (record {
    success = true;
    status = "0";
    stdout = if contains cmd "mkfs" then other else "ok";
    stderr = "";
  }),
  w,
)

abbrev lower_key : Json
lower_key = record { value = String; from_str = λ s. ok s; field_str = λ v k. some v }

echo_found : lookup "echo" with_echo.inner ≡ some echo
unfolding lookup register insert String_discrete
echo_found = refl

echo_audit : with_echo.audit ≡ []
unfolding register
echo_audit = refl

can_echo-WellNamed : WellNamed can_echo
unfolding register_factory lookup insert
can_echo-WellNamed = ((λ k t e. ground arith), λ k f e. (ground arith, ground arith))

says_agree :
    (cmd : String) (w : ℕ)
    → is_denied (λ s. s) new_terminal cmd ≡ false
    → says "formatted" cmd none w ≡ says "refused" cmd none w
unfolding is_denied
says_agree cmd w h = ground arith

validated_first_example : let r = call Mode.inline with_echo "echo" "" 0 in r.2 ≡ 0
validated_first_example =
    ((validated_first Mode.inline with_echo "echo" "" 0).0 echo (bad_args "empty") echo_found
      refl).0

audit-last_ten_thousand_example :
    let out =
      run_all with_echo [] ((Mode.inline, "echo", "hi") ∷ (Mode.inline, "echo", "") ∷ []) 0 in
    (out.0.audit ≡ last_ten_thousand out.1) × (length out.0.audit ≤ 10000)
audit-last_ten_thousand_example =
    audit-last_ten_thousand ((Mode.inline, "echo", "hi") ∷ (Mode.inline, "echo", "") ∷ []) with_echo
      0 echo_audit

run_filesystem_confined_example :
    run_filesystem reads (disk (ok "secret")) ("srv" ∷ []) "a/b.txt" 0
    ≡ run_filesystem reads (disk (err "not found")) ("srv" ∷ []) "a/b.txt" 0
run_filesystem_confined_example =
    run_filesystem_confined ("srv" ∷ []) (disk (ok "secret")) (disk (err "not found")) disks_agree
      reads "a/b.txt" 0
