-- ===== src/Device/Server/Gates.antt =====
-- server.rs: what must hold before the service touches a file or calls one complete.
use igrisv.Base.{
  ℕ, String, ◌≡◌, ◌⊎◌, inl, inr, Bool, true, ◌||◌, none, some, List, arith, ◌==◌, length, nat_key,
  string_key, lookup, ok, Result-cases, refl, ap, ◌∙◌, Option-cases, Result, err,
}
use igrisv.Device.Transfer.{
  SessionManager, check_token, note_bytes, state, transferring, TransferSession, FileProgress,
  TransferError,
}
use igrisv.Device.Transfer as Transfer
use igrisv.Device.Transfer.Completion.{note_bytes_guards}
use igrisv.Device.Server.{
  upload, complete, part_path, Disk, AppState, refused, code_of, gated, checked,
}

abbrev pub has_code : ℕ → Bool
has_code c = c == 401 || c == 404 || c == 409

code_of-has_code : (e : TransferError) → has_code (code_of e) ≡ true
code_of-has_code e = ground arith

-- What a completed file was checked for.
abbrev pub Checked : (List ℕ → String) → SessionManager → String → String → List ℕ → Type 0
Checked sha256_hex m id file bytes =
    (t : TransferSession) × (f : FileProgress) × (lookup id m.sessions ≡ some t)
    × (lookup file t.files ≡ some f)
    × (t.state ≡ Transfer.transferring)
    × ((f.checksum ≡ none) ⊎ (f.checksum ≡ some (sha256_hex bytes)))

complete-Checked :
    (sha256_hex : List ℕ → String) (m : SessionManager) (id file : String) (bytes : List ℕ)
    → (Transfer.complete sha256_hex m id file bytes).0 ≡ ok tt
    → Checked sha256_hex m id file bytes
unfolding Transfer.complete
complete-Checked sha256_hex m id file bytes h = elim (Option-cases (lookup id m.sessions)) [
  | inl n ↦ absurd (ground arith)
  | inr t ↦ (elim (Option-cases (lookup file t.0.files)) [
    | inl n ↦ absurd (ground arith)
    | inr f ↦ (
      t.0,
      f.0,
      t.1,
      f.1,
      ground arith,
      (elim (Option-cases f.0.checksum) [ inl n ↦ inl n | inr c ↦ inr (ground arith) ]),
    )
  ])
]

module _ {W : Type 0} (disk : Disk W) where
  gated_err :
      (s : AppState W) (session file : String) (body : List ℕ) (e : TransferError)
      (o : Result TransferError (Unit {0}) × SessionManager)
      → o.0 ≡ err e
      → o.1 ≡ s.sessions
      → gated disk s session file body o ≡ ((code_of e, refused e), s)
  gated_err s session file body e (ok _, m) h k = absurd (ground arith)
  gated_err s session file body e (err f, m) h k = ground arith

  checked_ok :
      (s : AppState W) (session file : String)
      (o : Result TransferError (Unit {0}) × SessionManager)
      → (checked disk s session file o).0.0 ≡ 200
      → o.0 ≡ ok tt
  checked_ok s session file (ok _, m) h = refl
  checked_ok s session file (err f, m) h = absurd (ground arith)

  -- Bytes touch the disk only behind the gate: an upload either leaves the sessions, the disk and the
  -- events as they are and answers 401, 404 or 409, or it came with the file's own token in a session
  -- that is transferring.
  pub upload_gate :
      (s : AppState W) (session file token : String) (body : List ℕ)
      → ((upload disk s session file token body).1 ≡ s)
          × (has_code (upload disk s session file token body).0.0 ≡ true)
        ⊎ (Transfer.check_token s.sessions session file token ≡ ok tt)
          × (Transfer.state s.sessions session ≡ some Transfer.transferring)
  unfolding upload
  upload_gate s session file token body =
      elim (Result-cases (Transfer.note_bytes s.sessions session file token (length body)).0) [
        | inl o ↦ inr ((note_bytes_guards s.sessions session file token (length body)).0 o.1)
        | inr e ↦
            (let guards = note_bytes_guards s.sessions session file token (length body) in
              let gone =
                gated_err s session file body e.0
                  (Transfer.note_bytes s.sessions session file token (length body)) e.1
                  (guards.1 e.0 e.1) in
              inl (ap (λ o. o.1) gone, ap (λ o. has_code o.0.0) gone ∙ code_of-has_code e.0))
      ]

  -- The service answers that a file is completed only if the bytes that lie on the disk for it could be
  -- read, the session was transferring it, and they have the digest that the sender gave, if one was given.
  pub complete_honest :
      (sha256_hex : List ℕ → String) (s : AppState W) (session file : String)
      → (complete disk sha256_hex s session file).0.0 ≡ 200
      → (bytes : List ℕ) × (disk.read s.files (part_path disk s session file) ≡ ok bytes)
        × Checked sha256_hex s.sessions session file bytes
  unfolding complete
  complete_honest sha256_hex s session file h =
      elim (Result-cases (disk.read s.files (part_path disk s session file))) [
        | inr e ↦ absurd (ground arith)
        | inl b ↦ (
          b.0,
          b.1,
          complete-Checked sha256_hex s.sessions session file b.0 (
              checked_ok s session file (Transfer.complete sha256_hex s.sessions session file b.0)
                (ground arith)),
        )
      ]
