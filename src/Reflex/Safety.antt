-- ===== src/Reflex/Safety.antt =====
-- igris-reflex: what a decision may skip.
use igrisv.Base.{◌+◌, ◌<◌, String, ◌≡◌, false, arith}
use igrisv.Reflex.{Float, apply, risk_index, low, local_tiny, ReflexDecision, EscalationPolicy}
use igrisv.Reflex.Rules.{classify, destructive, external_send}

module _ (float : Float) where
  classify-fast :
      (t : String)
      → (classify float t).requires_reasoning ≡ false
      → ((classify float t).risk ≡ low)
        × ((classify float t).model_hint ≡ local_tiny)
        × (destructive t + external_send t ≡ 0)
  unfolding classify
  classify-fast t h = (ground arith, ground arith, ground arith)

  apply-fast :
      (limits : EscalationPolicy float.f32) (d : ReflexDecision float.f32)
      → (apply float limits d).requires_reasoning ≡ false
      → (d.requires_reasoning ≡ false)
        × (float.less d.confidence limits.min_confidence ≡ false)
        × (risk_index d.risk < risk_index limits.approval_from)
  unfolding apply
  apply-fast limits d h = (ground arith, ground arith, ground arith)

  apply-low :
      (limits : EscalationPolicy float.f32) (d : ReflexDecision float.f32)
      → (apply float limits d).requires_reasoning ≡ false
      → d.risk ≡ low
      → apply float limits d ≡ d
  unfolding apply
  apply-low limits d h r = ground arith

  -- A decision that skips reasoning has low risk, goes to the smallest local model, matches no phrase of
  -- the risky lists, and has a confidence that is not below the policy's least.
  pub fast_path_is_safe :
      (limits : EscalationPolicy float.f32) (t : String)
      → (apply float limits (classify float t)).requires_reasoning ≡ false
      → let d = apply float limits (classify float t) in
        (d.risk ≡ low)
        × (d.model_hint ≡ local_tiny)
        × (destructive t + external_send t ≡ 0)
        × (float.less d.confidence limits.min_confidence ≡ false)
  fast_path_is_safe limits t h =
      let facts = apply-fast limits (classify float t) h in
      let c = classify-fast t facts.0 in
      rw (apply-low limits (classify float t) h c.0) (c.0, c.1, c.2, facts.1)
