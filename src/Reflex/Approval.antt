-- ===== src/Reflex/Approval.antt =====
-- igris-reflex: which texts need an approval, whatever the engine has decided before.
use igrisv.Base.{
  ◌+◌, ◌≤◌, String, ◌≡◌, refl, Bool, true, false, none, List, [], ◌∷◌, arith, any, ltb, Bool-cases,
  inl, inr, contains,
}
use igrisv.Reflex.{
  Float, ReflexDecision, apply, count_hits, normalize, default_policy, risk_index, reasoning_cloud,
  critical, high,
}
use igrisv.Reflex.Rules.{classify, risky, destructive, external_send}
use igrisv.Reflex.Cache.{decide, decide_once, new_reflex}
use igrisv.Reflex.Transparent.{decide-after, after}

-- A text with a phrase for an act that cannot be undone, or for one that leaves the device.
abbrev pub destroys : String → Bool
destroys t =
    any (contains t)
      ("delete" ∷ "format" ∷ "rm -rf" ∷ "wipe" ∷ "shutdown" ∷ "pay " ∷ "transfer money" ∷ [])

abbrev pub sends_out : String → Bool
sends_out t =
    any (contains t) ("send email" ∷ "send sms" ∷ "send message" ∷ "post publicly" ∷ "publish" ∷ [])

count_hits-any : (t : String) (ws : List String) → ltb 0 (count_hits t ws) ≡ any (contains t) ws
unfolding count_hits
count_hits-any t [] = refl
count_hits-any t (w ∷ ws) = ground (arith, count_hits-any t ws)

module _ (float : Float) where
  -- What the two kinds of phrases make of a decision.
  abbrev pub Gated : Bool → Bool → ReflexDecision float.f32 → Type 0
  Gated true _ d =
      (d.approval ≡ true)
      × (d.requires_reasoning ≡ true)
      × (d.model_hint ≡ reasoning_cloud)
      × (d.tool ≡ none)
      × (d.risk ≡ critical)
  Gated false true d =
      (d.approval ≡ true)
      × (d.requires_reasoning ≡ true)
      × (d.model_hint ≡ reasoning_cloud)
      × (d.tool ≡ none)
      × (d.risk ≡ high)
  Gated false false d = (d.approval ≡ false) × (risk_index d.risk ≤ 1)

  apply-destructive :
      (t : String)
      → ltb 0 (destructive t) ≡ true
      → Gated true false (apply float (default_policy float) (risky float t))
  unfolding apply
  apply-destructive t h = (
    ground (arith, h),
    ground (arith, h),
    ground (arith, h),
    ground (arith, h),
    ground (arith, h),
  )

  apply-external_send :
      (t : String)
      → ltb 0 (destructive t) ≡ false
      → Gated false true (apply float (default_policy float) (risky float t))
  unfolding apply
  apply-external_send t h = (
    ground (arith, h),
    ground (arith, h),
    ground (arith, h),
    ground (arith, h),
    ground (arith, h),
  )

  classify-risky :
      (t : String)
      → ltb 0 (destructive t + external_send t) ≡ true
      → classify float t ≡ risky float t
  unfolding classify
  classify-risky t h = ground (arith, h)

  classify-calm :
      (t : String)
      → ltb 0 (destructive t + external_send t) ≡ false
      → ((classify float t).approval ≡ false) × (risk_index (classify float t).risk ≤ 1)
  unfolding classify
  classify-calm t h = (ground (arith, h), ground (arith, h))

  apply-calm :
      (d : ReflexDecision float.f32)
      → d.approval ≡ false
      → risk_index d.risk ≤ 1
      → Gated false false (apply float (default_policy float) d)
  unfolding apply
  apply-calm d a r = (ground arith, ground arith)

  classify-Gated :
      (t : String)
      → Gated
          (ltb 0 (destructive t))
          (ltb 0 (external_send t))
          (apply float (default_policy float) (classify float t))
  classify-Gated t = elim (Bool-cases (ltb 0 (destructive t))) [
    | inl y ↦ rw (y, classify-risky t (ground (arith, y))) (apply-destructive t y)
    | inr n ↦ (elim (Bool-cases (ltb 0 (external_send t))) [
      | inl y ↦ rw (n, y, classify-risky t (ground (arith, y))) (apply-external_send t n)
      | inr m ↦
          (let (a, r) = classify-calm t (ground (arith, n, m)) in
            rw (n, m) (apply-calm (classify float t) a r))
    ])
  ]

  Gated-cached :
      (b e c : Bool) (d : ReflexDecision float.f32)
      → Gated b e d
      → Gated b e (record d { cached = c })
  Gated-cached true e c d h = h
  Gated-cached false true c d h = h
  Gated-cached false false c d h = h

  -- Whatever texts an engine of the default policy has decided since its start, and whether or not its
  -- cache answers, the phrases in a text's normalised form settle its decision. With a phrase of either
  -- kind it needs approval and reasoning by the reasoning model, and names no tool; its risk is critical
  -- with a phrase of destruction, and high with those of sending only. With none it needs no approval,
  -- and its risk is at most medium.
  pub decide-Gated :
      (to_lowercase : String → String) (ts : List String) (text : String)
      → let key = normalize to_lowercase text in
        Gated
          (destroys key)
          (sends_out key)
          (decide float to_lowercase (after float to_lowercase (new_reflex float) ts) text).0
  unfolding decide_once
  decide-Gated to_lowercase ts text =
      let key = normalize to_lowercase text in
      let out = (decide-after float to_lowercase ts text).1 in
      let d =
        count_hits-any key
          ("delete" ∷ "format" ∷ "rm -rf" ∷ "wipe" ∷ "shutdown" ∷ "pay " ∷ "transfer money" ∷ []) in
      let e =
        count_hits-any key
          ("send email" ∷ "send sms" ∷ "send message" ∷ "post publicly" ∷ "publish" ∷ []) in
      rw out (rw (← d, ← e) (Gated-cached _ _ _ _ (classify-Gated key)))
