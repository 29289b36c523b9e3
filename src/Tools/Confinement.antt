-- ===== src/Tools/Confinement.antt =====
-- igris-tools: what the native tools touch.
use text.Mathlib.TextEquality.{eq_iff}
use igrisv.Base.{
  String, ◌≡◌, refl, false, some, List, ◌++◌, arith, any, Result, ok, err, PathBuf, parts,
  is_parent_dir, ap, ◌∙◌, inl, inr, Option-cases, Result-cases, true, [], ◌∷◌, path_starts_with,
}
use igrisv.Tools.Native.{
  Json, FileSystem, confine, parent, run_filesystem, read_file, list_dir, write_file, put_file,
  or_empty, parse_json_args, Shell, TerminalTool, is_denied, run_terminal, written,
}

-- A path below the root that does not climb.
abbrev pub Inside : PathBuf → PathBuf → Type 0
Inside root p = (ps : List String) × (p ≡ root ++ ps) × (any is_parent_dir ps ≡ false)

confine-Inside :
    (root : PathBuf) (rel : String) (p : PathBuf) → confine root rel ≡ ok p → Inside root p
unfolding confine
confine-Inside root rel p h = (parts rel, ground arith, ground arith)

pub starts_with_append : (root ps : PathBuf) → path_starts_with (root ++ ps) root ≡ true
starts_with_append [] [] = refl
starts_with_append [] (p ∷ ps) = refl
starts_with_append (c ∷ root) ps = ground (arith, starts_with_append root ps, eq_iff c c)

module _ {W : Type 0} where
  -- Two file systems that do the same inside the root, and make the same parents of paths there.
  pub record AgreeInside (root : PathBuf) (fs gs : FileSystem W) : Type 0 where
    pub metadata : (w : W) (p : PathBuf) → Inside root p → fs.metadata w p ≡ gs.metadata w p
    pub read_to_string :
        (w : W) (p : PathBuf) → Inside root p → fs.read_to_string w p ≡ gs.read_to_string w p
    pub read_dir : (w : W) (p : PathBuf) → Inside root p → fs.read_dir w p ≡ gs.read_dir w p
    pub write : (w : W) (p : PathBuf) (s : String) → Inside root p → fs.write w p s ≡ gs.write w p s
    pub create_dir_all :
        (w : W) (p d : PathBuf)
        → Inside root p
        → parent p ≡ some d
        → fs.create_dir_all w d ≡ gs.create_dir_all w d

  module _ (root : PathBuf) (fs gs : FileSystem W) (same_inside : AgreeInside root fs gs) where
    read_file_agree : (w : W) (p : PathBuf) → Inside root p → read_file fs w p ≡ read_file gs w p
    read_file_agree w p i =
        ground (arith, same_inside.metadata w p i, same_inside.read_to_string w p i)

    list_dir_agree : (w : W) (p : PathBuf) → Inside root p → list_dir fs w p ≡ list_dir gs w p
    list_dir_agree w p i = rw (same_inside.read_dir w p i, list_dir) refl

    put_file_agree :
        (p : PathBuf) (s : String) (r : Result String (Unit {0}) × W)
        → Inside root p
        → put_file fs p s r ≡ put_file gs p s r
    put_file_agree p s (err e, w) i = refl
    put_file_agree p s (ok _, w) i = ap (written s) (same_inside.write w p s i)

    write_file_agree :
        (w : W) (p : PathBuf) (s : String)
        → Inside root p
        → write_file fs w p s ≡ write_file gs w p s
    write_file_agree w p s i = elim (Option-cases (parent p)) [
      | inl n ↦ rw (n, write_file) (put_file_agree p s (ok tt, w) i)
      | inr d ↦
          rw (d.1, write_file)
            (put_file_agree p s (fs.create_dir_all w d.0) i
              ∙ ap (put_file gs p s) (same_inside.create_dir_all w p d.0 i d.1))
    ]

    -- The file tool cannot see or change anything outside its root: on two file systems that do the same
    -- at the paths below the root that have no `..` in them, and make the same parents of these, every
    -- call of the tool gives the same result and leaves the same world.
    pub run_filesystem_confined :
        (json : Json) (args : String) (w : W)
        → run_filesystem json fs root args w ≡ run_filesystem json gs root args w
    unfolding run_filesystem
    run_filesystem_confined json args w = elim (Result-cases (parse_json_args json args)) [
      | inr e ↦ ground arith
      | inl v ↦
          (let rel = or_empty (json.field_str v.0 "path") in
            elim (Result-cases (confine root rel)) [
              | inr e ↦ ground arith
              | inl p ↦
                  (let i = confine-Inside root rel p.0 p.1 in
                    ground (
                      arith,
                      read_file_agree w p.0 i,
                      list_dir_agree w p.0 i,
                      write_file_agree w p.0 (or_empty (json.field_str v.0 "content")) i,
                    ))
            ])
    ]

-- The terminal tool never hands a command with a denied pattern to the shell: on two shells that do the
-- same with the commands that are not denied, every call gives the same result and leaves the same world.
pub run_terminal_undenied :
    {W : Type 0} (json : Json) (to_lowercase : String → String) (shell other : Shell W)
    (t : TerminalTool)
    → ((cmd : String) (w : W)
        → is_denied to_lowercase t cmd ≡ false
        → shell cmd t.work_dir w ≡ other cmd t.work_dir w)
    → (args : String) (w : W)
    → run_terminal json to_lowercase shell t args w ≡ run_terminal json to_lowercase other t args w
unfolding run_terminal
run_terminal_undenied json to_lowercase shell other t h args w =
    elim (Result-cases (parse_json_args json args)) [
      | inr e ↦ ground arith
      | inl v ↦ ground (arith, h (or_empty (json.field_str v.0 "cmd")) w)
    ]
