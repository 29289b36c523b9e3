-- ===== src/Telemetry/Timeline.antt =====
-- igris-telemetry: what the timeline and the counters tell of all that was recorded.
use mathlib.Core.List.{append-nil, append_assoc}
use mathlib.Core.Path.{subst}
use igrisv.Base.{
  ◌-◌, ◌%◌, ◌^◌, ◌≡◌, refl, sym, Bool, List, [], ◌∷◌, ◌++◌, arith, length, drop, keep, ◌+◌, ap, ◌∙◌,
  inl, inr, true, false, leb, leb→le, Bool-cases, length-append, length-drop, drop-drop,
  drop-append,
}
use igrisv.Telemetry.{note, is_error, TimelineEntry, Telemetry}

unfoldable pub note_all : Telemetry → List TimelineEntry → Telemetry
note_all t [] = t
note_all t (e ∷ es) = note_all (note t e) es

-- The timeline and the counters after all of `h`.
abbrev pub Tells : List TimelineEntry → Telemetry → Type 0
Tells h t =
    (t.timeline ≡ drop (length h - 1000) h)
    × (t.events_total ≡ length h % 2 ^ 64)
    × (t.errors_total ≡ length (keep (λ e. is_error e.ok) h) % 2 ^ 64)

keep-append :
    (p : TimelineEntry → Bool) (xs ys : List TimelineEntry)
    → keep p (xs ++ ys) ≡ keep p xs ++ keep p ys
keep-append p [] ys = refl
keep-append p (x ∷ xs) ys = ground (arith, keep-append p xs ys)

note_full :
    (t : Telemetry) (e : TimelineEntry)
    → leb 1000 (length t.timeline) ≡ true
    → (note t e).timeline ≡ drop 1 t.timeline ++ e ∷ []
unfolding note
note_full t e l = ground arith

note_room :
    (t : Telemetry) (e : TimelineEntry)
    → leb 1000 (length t.timeline) ≡ false
    → (note t e).timeline ≡ t.timeline ++ e ∷ []
unfolding note
note_room t e l = ground arith

note-timeline :
    (h : List TimelineEntry) (t : Telemetry) (e : TimelineEntry)
    → t.timeline ≡ drop (length h - 1000) h
    → (note t e).timeline ≡ drop (length (h ++ e ∷ []) - 1000) (h ++ e ∷ [])
note-timeline h t e k =
    let n = length h - 1000 in
    let one : List TimelineEntry = e ∷ [] in
    let held : length t.timeline ≡ length h - n = ap length k ∙ length-drop n h in
    let grown = length-append h one in
    elim (Bool-cases (leb 1000 (length t.timeline))) [
      | inl l ↦
          (let full = leb→le 1000 (length t.timeline) l in
            note_full t e l
            ∙ ap (λ x. drop 1 x ++ one) k
            ∙ ap (λ x. x ++ one) (drop-drop 1 n h)
            ∙ sym (drop-append (n + 1) h one (omega (arith, full, held)))
            ∙ ap (λ j. drop j (h ++ one)) (omega (arith, full, held, grown)))
      | inr l ↦
          (let room : length h - 1000 ≡ 0 = ground (arith, held) in
            let none_cut : 0 ≡ length (h ++ one) - 1000 = ground (arith, held, grown) in
            note_room t e l
            ∙ ap (λ x. x ++ one) k
            ∙ ap (λ j. drop j h ++ one) room
            ∙ ap (λ j. drop j (h ++ one)) none_cut)
    ]

note-Tells :
    (h : List TimelineEntry) (t : Telemetry) (e : TimelineEntry)
    → Tells h t
    → Tells (h ++ e ∷ []) (note t e)
unfolding note
note-Tells h t e k = (
  note-timeline h t e k.0,
  omega (arith, k.1, length-append h (e ∷ [])),
  ground (
    arith,
    k.2,
    ap length (keep-append (λ x. is_error x.ok) h (e ∷ [])),
    length-append (keep (λ x. is_error x.ok) h) (keep (λ x. is_error x.ok) (e ∷ [])),
  ),
)

-- If the timeline of `t` is the last thousand of the entries `h` in their order, and its counters are
-- the counts of them all and of the failures among them, modulo 2^64, then `t` after the records `es`
-- tells the same of `h` and `es` together.
pub note_all-Tells :
    (es h : List TimelineEntry) (t : Telemetry) → Tells h t → Tells (h ++ es) (note_all t es)
unfolding note_all
note_all-Tells [] h t k = subst (λ x. Tells x t) (sym (append-nil h)) k
note_all-Tells (e ∷ es) h t k =
    subst (λ x. Tells x (note_all (note t e) es)) (append_assoc h (e ∷ []) es)
      (note_all-Tells es (h ++ e ∷ []) (note t e) (note-Tells h t e k))
