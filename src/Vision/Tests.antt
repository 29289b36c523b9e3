-- ===== src/Vision/Tests.antt =====
-- The gate as its test uses it.
use igrisv.Base.{◌≡◌, refl, true, false}
use igrisv.Vision.{should_invoke}

-- An image alone, or a wish to see without one, is not enough.
gate_needs_both :
    (should_invoke false true true ≡ false)
    × (should_invoke true false false ≡ false)
    × (should_invoke true true false ≡ true)
    × (should_invoke true false true ≡ true)
gate_needs_both = (refl, refl, refl, refl)
