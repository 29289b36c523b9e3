-- ===== src/Tools/Native.antt =====
-- igris-tools: the three native tools. The file system, the shell, serde_json and the Unicode table of
-- `to_lowercase` are parameters; paths are those of Unix.
use mathlib.Core.Option
use Prim.Native.String.{len}
use text.Mathlib.Text.{starts_with}
use igrisv.Base.{
  ℕ, String, Bool, true, false, ◌||◌, Option, none, some, List, [], ◌∷◌, ltb, if◌then◌else◌, any,
  Result, ok, err, ◌>>=◌, ◌⁀◌, same, has, is_blank, join, decimal, contains, text_ltb, sort_by,
  unwrap_or, PathBuf, is_absolute, join_path, climbs, trim,
}
use igrisv.Policy.{PermissionLevel}
use igrisv.Tools.{
  max_file_read_bytes, good, bad, bad_args, exec, show, RiskLevel, ToolError, ToolResult, Tool,
  denied,
}

-- Parsed arguments: the value of a field, where it is a text.
pub record Json : Type 1 where
  pub value : Type 0
  pub from_str : String → Result String value
  pub field_str : value → String → Option String

pub record FileSystem (W : Type 0) : Type 0 where
  -- Whether a path is a directory, and its size.
  pub metadata : W → PathBuf → Result String (Bool × ℕ)
  pub read_to_string : W → PathBuf → Result String String
  pub read_dir : W → PathBuf → Result String (List String)
  pub create_dir_all : W → PathBuf → Result String (Unit {0}) × W
  pub write : W → PathBuf → String → Result String (Unit {0}) × W

-- What a command leaves: its success, its status, its output and its errors.
pub record Output : Type 0 where
  pub success : Bool
  pub status : String
  pub stdout : String
  pub stderr : String

abbrev pub Shell : Type 0 → Type 0
Shell W = String → Option PathBuf → W → Result String Output × W

-- `parent`
abbrev pub parent : PathBuf → Option PathBuf
parent [] = none
parent (c ∷ []) = some []
parent (c ∷ d ∷ p) = Option.map (λ q. c ∷ q) (parent (d ∷ p))

abbrev pub or_empty : Option String → String
or_empty = unwrap_or ""

unfoldable pub confine : PathBuf → String → Result ToolError PathBuf
confine root rel =
    if is_absolute rel
    then err (denied "absolute paths rejected")
    else if climbs rel
    then err (denied "path traversal rejected")
    else ok (join_path root rel)

abbrev pub denied_patterns : List String
denied_patterns =
    "rm -rf /" ∷ "rm -rf ~" ∷ "mkfs" ∷ "dd if=" ∷ ":(){" ∷ "shutdown" ∷ "reboot" ∷ "halt"
    ∷ "poweroff" ∷ "format c:" ∷ "format d:" ∷ "del /f /s /q" ∷ "rd /s /q c:" ∷ "takeown"
    ∷ "> /dev/sda" ∷ "chmod -r 777 /" ∷ "curl|sh" ∷ "wget|sh" ∷ []

pub record TerminalTool : Type 0 where
  pub work_dir : Option PathBuf
  pub extra_denied : List String

abbrev pub new_terminal : TerminalTool
new_terminal = record { work_dir = none; extra_denied = [] }

unfoldable pub is_denied : (String → String) → TerminalTool → String → Bool
is_denied to_lowercase t cmd =
    any (contains (to_lowercase cmd)) denied_patterns
    || any (λ p. contains (to_lowercase cmd) (to_lowercase p)) t.extra_denied

abbrev pub written : {W : Type 0} → String → Result String (Unit {0}) × W → Option ToolResult × W
written content (ok _, w) = (good ("wrote " ⁀ decimal (len content) ⁀ " bytes"), w)
written content (err e, w) = (bad ("write failed: " ⁀ e), w)

module _ {W : Type 0} (fs : FileSystem W) where
  abbrev pub read_file : W → PathBuf → Option ToolResult
  read_file w target = elim (fs.metadata w target) [
    | err e ↦ bad ("read failed: " ⁀ e)
    | ok (is_dir, size) ↦
        if is_dir
        then bad "path is a directory, use list"
        else if ltb max_file_read_bytes size
        then bad ("file too large (" ⁀ decimal size ⁀ " bytes)")
        else elim (fs.read_to_string w target) [ ok s ↦ good s | err e ↦ bad ("read failed: " ⁀ e) ]
  ]

  abbrev pub list_dir : W → PathBuf → Option ToolResult
  list_dir w target = elim (fs.read_dir w target) [
    | ok entries ↦ good (join "\n" (sort_by text_ltb entries))
    | err e ↦ bad ("list failed: " ⁀ e)
  ]

  abbrev pub put_file : PathBuf → String → Result String (Unit {0}) × W → Option ToolResult × W
  put_file target content (err e, w) = (bad ("mkdir failed: " ⁀ e), w)
  put_file target content (ok _, w) = written content (fs.write w target content)

  abbrev pub write_file : W → PathBuf → String → Option ToolResult × W
  write_file w target content = elim (parent target) [
    | none ↦ put_file target content (ok tt, w)
    | some dir ↦ put_file target content (fs.create_dir_all w dir)
  ]

module _ (json : Json) where
  unfoldable pub parse_json_args : String → Result ToolError json.value
  parse_json_args args = elim (json.from_str args) [
    | ok v ↦ ok v
    | err e ↦ err (bad_args ("want JSON args: " ⁀ e))
  ]

  unfoldable pub arg_str : json.value → String → Result ToolError String
  arg_str v key = elim (json.field_str v key) [
    | some s ↦ ok s
    | none ↦ err (bad_args ("missing string field `" ⁀ key ⁀ "`"))
  ]

  unfoldable pub validate_filesystem : PathBuf → String → Result ToolError (Unit {0})
  validate_filesystem root args = do
    v ← parse_json_args args
    op ← arg_str v "op"
    known ←
        if has op ("read" ∷ "list" ∷ "write" ∷ [])
        then ok tt
        else err (bad_args ("unknown op `" ⁀ op ⁀ "`"))
    path ← arg_str v "path"
    target ← confine root path
    ok tt

  module _ {W : Type 0} (fs : FileSystem W) where
    unfoldable pub run_filesystem : PathBuf → String → W → Option ToolResult × W
    run_filesystem root args w = elim (parse_json_args args) [
      | err e ↦ (bad (show e), w)
      | ok v ↦
          let op = or_empty (json.field_str v "op") in
          elim (confine root (or_empty (json.field_str v "path"))) [
            | err e ↦ (bad (show e), w)
            | ok target ↦
                if same op "read"
                then (read_file fs w target, w)
                else if same op "list"
                then (list_dir fs w target, w)
                else if same op "write"
                then write_file fs w target (or_empty (json.field_str v "content"))
                else (bad ("unknown op `" ⁀ op ⁀ "`"), w)
          ]
    ]

    abbrev pub filesystem : PathBuf → Tool W
    filesystem root = record {
      definition = record {
        name = "filesystem";
        description =
            "Root-confined file read/list/write. JSON: {op: read|list|write, path, content?}";
        version = "0.1.0";
        permission = PermissionLevel.l1_write;
        risk = RiskLevel.low;
        requires_network = false;
        timeout_ms = some 10000;
      };
      validate = validate_filesystem root;
      run = run_filesystem root;
    }

  module _ {W : Type 0} (to_lowercase : String → String) (shell : Shell W) where
    unfoldable pub validate_terminal : TerminalTool → String → Result ToolError (Unit {0})
    validate_terminal t args = do
      v ← parse_json_args args
      cmd ← arg_str v "cmd"
      written ← if is_blank cmd then err (bad_args "empty cmd") else ok tt
      (if is_denied to_lowercase t cmd
          then err (denied ("blocked command pattern: " ⁀ cmd))
          else ok tt)

    abbrev shown : Output → Option ToolResult
    shown out =
        if out.success then good out.stdout else bad ("exit " ⁀ out.status ⁀ ": " ⁀ trim out.stderr)

    unfoldable pub run_terminal : TerminalTool → String → W → Option ToolResult × W
    run_terminal t args w = elim (parse_json_args args) [
      | err e ↦ (bad (show e), w)
      | ok v ↦
          let cmd = or_empty (json.field_str v "cmd") in
          if is_denied to_lowercase t cmd
          then (bad (show (denied "blocked command pattern")), w)
          else (let done = shell cmd t.work_dir w in
              elim done.0 [ ok out ↦ (shown out, done.1) | err e ↦ (bad (show (exec e)), done.1) ])
    ]

    abbrev pub terminal : TerminalTool → Tool W
    terminal t = record {
      definition = record {
        name = "terminal";
        description = "Shell command execution with denylist + timeout. JSON: {cmd}";
        version = "0.1.0";
        permission = PermissionLevel.l2_exec;
        risk = RiskLevel.high;
        requires_network = false;
        timeout_ms = some 30000;
      };
      validate = validate_terminal t;
      run = run_terminal t;
    }

  unfoldable pub validate_browser : String → Result ToolError (Unit {0})
  validate_browser args = do
    v ← parse_json_args args
    url ← arg_str v "url"
    web ←
        if starts_with url "http://" || starts_with url "https://"
        then ok tt
        else err (bad_args "only http(s) URLs allowed")
    if ltb 2048 (len url) then err (bad_args "url too long") else ok tt

  abbrev pub browser : {W : Type 0} → Tool W
  browser = record {
    definition = record {
      name = "browser";
      description = "Web fetch (URL validation now; transport in Phase 9). JSON: {url}";
      version = "0.1.0";
      permission = PermissionLevel.l1_write;
      risk = RiskLevel.low;
      requires_network = true;
      timeout_ms = some 15000;
    };
    validate = validate_browser;
    run = λ args w. (bad "browser fetch transport not wired (Phase 9 networking)", w);
  }
