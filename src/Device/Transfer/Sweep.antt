-- ===== src/Device/Transfer/Sweep.antt =====
-- transfer.rs: what a sweep does to each session.
use mathlib.Core.Option
use igrisv.Base.{
  ℕ, String, ◌≡◌, refl, inl, inr, ite, Bool, true, false, some, List, [], ◌∷◌, arith, if◌then◌else◌,
  Option-cases, String_discrete, nat_key, string_key, Assoc, lookup, update, Absent, Unique,
  lookup-update,
}
use igrisv.Device.Transfer.{
  SessionState, set_state, state, is_stale, stale_ids, expire_all, sweep_expired, expired,
  TransferSession, SessionManager,
}
use igrisv.Device.Transfer.States.{◌⟶◌, edges}

-- Whether `id` is among the ids.
abbrev contains : String → List String → Bool
contains id [] = false
contains id (x ∷ xs) = ite (String_discrete x id) true (contains id xs)

abbrev pub expire_if : Bool → TransferSession → TransferSession
expire_if b s = if b then set_state expired s else s

lookup-expire_all :
    (ids : List String) (id : String) (m : Assoc String TransferSession)
    → lookup id (expire_all ids m) ≡ Option.map (expire_if (contains id ids)) (lookup id m)
unfolding expire_all
lookup-expire_all [] id m = ground arith
lookup-expire_all (x ∷ xs) id m = ground (
  arith,
  lookup-expire_all xs id (update x (set_state expired) m),
  lookup-update x id (set_state expired) m,
)

stale_ids-Absent :
    (now : ℕ) (id : String) (m : Assoc String TransferSession)
    → Absent id m
    → contains id (stale_ids now m) ≡ false
unfolding stale_ids
stale_ids-Absent now id [] h = refl
stale_ids-Absent now id ((j, s) ∷ m) h = ground (arith, stale_ids-Absent now id m h.1)

contains-stale_ids :
    (now : ℕ) (id : String) (m : Assoc String TransferSession) (s : TransferSession)
    → Unique m
    → lookup id m ≡ some s
    → contains id (stale_ids now m) ≡ is_stale now s
unfolding stale_ids lookup
contains-stale_ids now id ((j, x) ∷ m) s u e =
    ground (arith, contains-stale_ids now id m s u.1, stale_ids-Absent now j m u.0)
contains-stale_ids now id [] s u e = cc

-- In a manager with one session for an id at most, a sweep expires exactly the sessions that are past
-- their time: two minutes if they wait for approval, ten if they are being prepared or transferred. All
-- other sessions, and all else in these, stay as they were.
pub lookup-sweep_expired :
    (m : SessionManager) (now : ℕ) (id : String)
    → Unique m.sessions
    → lookup id (sweep_expired m now).1.sessions
      ≡ Option.map (λ s. expire_if (is_stale now s) s) (lookup id m.sessions)
unfolding sweep_expired
lookup-sweep_expired m now id u = elim (Option-cases (lookup id m.sessions)) [
  | inl e ↦ ground (arith, lookup-expire_all (stale_ids now m.sessions) id m.sessions)
  | inr (s, e) ↦ ground (
    arith,
    lookup-expire_all (stale_ids now m.sessions) id m.sessions,
    contains-stale_ids now id m.sessions s u e,
  )
]

pub sweep_expired-⟶ :
    (m : SessionManager) (now : ℕ) (id : String) {s t : SessionState}
    → Unique m.sessions
    → state m id ≡ some s
    → state (sweep_expired m now).1 id ≡ some t
    → s ⟶ t
unfolding state is_stale
sweep_expired-⟶ m now id u before after = grind (arith, edges, lookup-sweep_expired m now id u)
