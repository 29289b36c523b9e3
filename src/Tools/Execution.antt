-- ===== src/Tools/Execution.antt =====
-- igris-tools: what the registry runs, and what it remembers of it.
use mathlib.Core.List.{append-nil}
use igrisv.Base.{
  ℕ, ◌-◌, String, ◌≡◌, inl, inr, Bool, true, false, none, some, List, [], ◌∷◌, ◌++◌, arith,
  Option-cases, length, drop, nat_key, string_key, lookup, err, ◌+◌, ◌≤◌, sym, ap, ◌∙◌, Option,
  length-append, length-drop, drop-drop, drop-append, ◌⊎◌, unwrap_or, Result-cases, ok,
}
use igrisv.Tools.{
  Registry, truncate, bad, show, returned, note, handed, execute, execute_async,
  execute_async_with_timeout, ToolError, Ended, unknown, panicked, Finish, ToolResult, Tool,
  default_tool_timeout_ms, awaited,
}

-- One of the three ways to execute a tool, with what the blocking pool does in the asynchronous ones.
pub data Mode : Type 0 where
  inline : Mode
  awaits : Finish → String → Mode
  limited : ℕ → Finish → String → Mode

bad-fails : (m : String) (x : ToolResult) → bad m ≡ some x → x.success ≡ false
bad-fails m x h = elim (Option-cases (truncate m)) [
  | inl n ↦ absurd (ground arith)
  | inr f ↦ ground arith
]

-- What a call adds to the record.
abbrev pub entry_of : String → Ended → List (String × Bool)
entry_of name (returned x) = (name, x.success) ∷ []
entry_of name unknown = []
entry_of name panicked = []

abbrev pub last_ten_thousand : List (String × Bool) → List (String × Bool)
last_ten_thousand h = drop (length h - 10000) h

module _ {W : Type 0} where
  unfoldable pub call : Mode → Registry W → String → String → W → Ended × Registry W × W
  call inline r name args w = execute r name args w
  call (awaits f p) r name args w = execute_async r name args f p w
  call (limited ms f p) r name args w = execute_async_with_timeout r name args ms f p w

  refuse : (r : Registry W) (name msg : String) (w : W) → Ended × Registry W × W
  refuse r name msg w = handed r name (bad msg, w)

  refuse_lem :
      (r : Registry W) (name msg : String) (w : W) (x : ToolResult)
      → ((refuse r name msg w).2 ≡ w) × ((refuse r name msg w).0 ≡ returned x → x.success ≡ false)
  unfolding refuse
  refuse_lem r name msg w x = elim (Option-cases (truncate msg)) [
    | inl n ↦ (ground arith, λ h. ground arith)
    | inr f ↦ (ground arith, λ h. ground arith)
  ]

  call-refuse :
      (mode : Mode) (r : Registry W) (t : Tool W) (name args : String) (e : ToolError) (w : W)
      → lookup name r.inner ≡ some t
      → t.validate args ≡ err e
      → call mode r name args w ≡ refuse r name (show e) w
  unfolding call execute execute_async execute_async_with_timeout refuse
  call-refuse inline r t name args e w found h = ground arith
  call-refuse (awaits f p) r t name args e w found h = ground arith
  call-refuse (limited ms f p) r t name args e w found h = ground arith

  -- In each of the three ways to execute a tool, a call whose arguments fail the tool's check, or whose
  -- tool is unknown, leaves the outside world as it is; no result of it is a success, and an unknown
  -- tool gives none.
  pub validated_first :
      (mode : Mode) (r : Registry W) (name args : String) (w : W)
      → ((t : Tool W) (e : ToolError)
          → lookup name r.inner ≡ some t
          → t.validate args ≡ err e
          → ((call mode r name args w).2 ≡ w)
            × ((x : ToolResult) → (call mode r name args w).0 ≡ returned x → x.success ≡ false))
        × (lookup name r.inner ≡ none → call mode r name args w ≡ (unknown, r, w))
  unfolding call execute execute_async execute_async_with_timeout
  validated_first mode r name args w = (
    (λ t e found h. rw (call-refuse mode r t name args e w found h) (
      (refuse_lem r name (show e) w (record { success = true; output = ""; error = none })).0,
      λ x. (refuse_lem r name (show e) w x).1,
    )),
    λ n. elim mode [
      | inline ↦ ground arith
      | awaits f p ↦ ground arith
      | limited ms f p ↦ ground arith
    ],
  )

  note_lem :
      (r : Registry W) (h : List (String × Bool)) (name : String) (success : Bool)
      → r.audit ≡ last_ten_thousand h
      → (note r name success).audit ≡ last_ten_thousand (h ++ (name, success) ∷ [])
  unfolding note
  note_lem r h name success e =
      let n = length h - 10000 in
      let one : List (String × Bool) = (name, success) ∷ [] in
      let cut : r.audit ++ one ≡ drop n (h ++ one) =
        ap (λ a. a ++ one) e ∙ sym (drop-append n h one (omega arith)) in
      let count : length (r.audit ++ one) - 10000 + n ≡ length (h ++ one) - 10000 =
        omega (arith, ap length cut, length-drop n (h ++ one), length-append h one) in
      ap (drop (length (r.audit ++ one) - 10000)) cut
      ∙ drop-drop (length (r.audit ++ one) - 10000) n (h ++ one)
      ∙ ap (λ k. drop k (h ++ one)) (omega (arith, count))

  handed_lem :
      (r : Registry W) (h : List (String × Bool)) (name : String) (o : Option ToolResult × W)
      → r.audit ≡ last_ten_thousand h
      → (handed r name o).1.audit ≡ last_ten_thousand (h ++ entry_of name (handed r name o).0)
  handed_lem r h name (none, w) e = e ∙ ap last_ten_thousand (sym (append-nil h))
  handed_lem r h name (some x, w) e = note_lem r h name x.success e

  -- What a call makes of the run of a tool.
  ran : Mode → Tool W → String → W → Option ToolResult × W
  ran inline t args w = t.run args w
  ran (awaits f p) t args w =
      awaited p (unwrap_or default_tool_timeout_ms t.definition.timeout_ms) f (t.run args w)
  ran (limited ms f p) t args w = awaited p ms f (t.run args w)

  call-ran :
      (mode : Mode) (r : Registry W) (t : Tool W) (name args : String) (w : W)
      → lookup name r.inner ≡ some t
      → t.validate args ≡ ok tt
      → call mode r name args w ≡ handed r name (ran mode t args w)
  unfolding call execute execute_async execute_async_with_timeout ran
  call-ran inline r t name args w found h = ground arith
  call-ran (awaits f p) r t name args w found h = ground arith
  call-ran (limited ms f p) r t name args w found h = ground arith

  call-cases :
      (mode : Mode) (r : Registry W) (name args : String) (w : W)
      → (call mode r name args w ≡ (unknown, r, w))
        ⊎ ((o : Option ToolResult × W) × (call mode r name args w ≡ handed r name o))
  unfolding refuse
  call-cases mode r name args w = elim (Option-cases (lookup name r.inner)) [
    | inl n ↦ inl ((validated_first mode r name args w).1 n)
    | inr f ↦ (elim (Result-cases (f.0.validate args)) [
      | inr e ↦ inr ((bad (show e.0), w), call-refuse mode r f.0 name args e.0 w f.1 e.1)
      | inl v ↦ inr (ran mode f.0 args w, call-ran mode r f.0 name args w f.1 v.1)
    ])
  ]

  call_lem :
      (mode : Mode) (r : Registry W) (h : List (String × Bool)) (name args : String) (w : W)
      → r.audit ≡ last_ten_thousand h
      → (call mode r name args w).1.audit
        ≡ last_ten_thousand (h ++ entry_of name (call mode r name args w).0)
  call_lem mode r h name args w e = elim (call-cases mode r name args w) [
    | inl q ↦ rw q (e ∙ ap last_ten_thousand (sym (append-nil h)))
    | inr q ↦ rw q.1 (handed_lem r h name q.0 e)
  ]

  -- The calls of a list in turn, with the complete record of their results.
  unfoldable pub run_all :
      Registry W
      → List (String × Bool)
      → List (Mode × String × String)
      → W
      → Registry W × List (String × Bool) × W
  run_all r h [] w = (r, h, w)
  run_all r h ((mode, name, args) ∷ cs) w =
      let done = call mode r name args w in run_all done.1 (h ++ entry_of name done.0) cs done.2

  audit_from :
      (cs : List (Mode × String × String)) (r : Registry W) (h : List (String × Bool)) (w : W)
      → r.audit ≡ last_ten_thousand h
      → let out = run_all r h cs w in
        (out.0.audit ≡ last_ten_thousand out.1) × (length out.0.audit ≤ 10000)
  unfolding run_all
  audit_from [] r h w e = (e, omega (arith, ap length e, length-drop (length h - 10000) h))
  audit_from ((mode, name, args) ∷ cs) r h w e =
      let done = call mode r name args w in
      audit_from cs done.1 (h ++ entry_of name done.0) done.2 (call_lem mode r h name args w e)

  -- Whatever tools a registry that starts without a record executes, in any of the three ways, its
  -- record is the last ten thousand entries of the complete record, and so holds no more than these.
  pub audit-last_ten_thousand :
      (cs : List (Mode × String × String)) (r : Registry W) (w : W)
      → r.audit ≡ []
      → let out = run_all r [] cs w in
        (out.0.audit ≡ last_ten_thousand out.1) × (length out.0.audit ≤ 10000)
  audit-last_ten_thousand cs r w e = audit_from cs r [] w e
