-- ===== src/Gateway/Tests.antt =====
-- The gateway as its test uses it, and its loop.
use mathlib.Core.Option
use igrisv.Base.{
  ℕ, ◌≡◌, refl, some, none, [], ◌∷◌, string_key, insert, length, String_discrete, nat_key,
}
use igrisv.Events
use igrisv.Gateway.{
  Gateway, Draw, attach_bus, register_session, session_count, heartbeat_forever, new,
}

abbrev tick : ℕ → Draw
tick t = record { event_id = "e"; at = t; receivers = none }

abbrev attached : Gateway
attached = attach_bus new Events.new

-- The same session twice counts once, and is announced twice.
sessions_register :
    (session_count
        (register_session (register_session attached (tick 1) "s1" "laptop") (tick 2) "s1" "phone")
      ≡ 1)
    × (Option.map
          (λ b. length b.handed)
          (register_session
            (register_session attached (tick 1) "s1" "laptop")
            (tick 2)
            "s1"
            "phone").bus
        ≡ some 2)
unfolding register_session insert String_discrete
sessions_register = (refl, refl)

-- The loop tells one heartbeat for each tick, and nothing without a bus.
beats :
    (Option.map
        (λ b. length b.handed)
        (heartbeat_forever attached "field" (tick 1 ∷ tick 2 ∷ tick 3 ∷ [])).bus
      ≡ some 3)
    × (heartbeat_forever new "field" (tick 1 ∷ []) ≡ new)
unfolding heartbeat_forever
beats = (refl, refl)
