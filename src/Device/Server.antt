-- ===== src/Device/Server.antt =====
-- crates/igris-device/src/server.rs: the handlers of the HTTP service over the transfer sessions. Where
-- the files lie is a state `W`, whose operations are parameters; routing and JSON are the framework's.
pub mod Gates
pub mod Tests
use igrisv.Base.{
  ℕ, String, List, [], ◌∷◌, ◌++◌, length, keep, Assoc, Result, ok, err, ◌⁀◌, contains, PathBuf,
  join_path,
}
use igrisv.Device.Transfer.{
  SessionManager, FileSpec, TransferError, unknown_file, approve, note_bytes, missing,
  unknown_session, bad_token,
}
use igrisv.Device.Info.{DeviceInfo}
use igrisv.Device.Transfer as Transfer

-- Opening a file to append creates it.
pub record Disk (W : Type 0) : Type 0 where
  pub create_dir_all : W → PathBuf → Result String (Unit {0}) × W
  pub open_append : W → PathBuf → Result String (Unit {0}) × W
  pub write_all : W → PathBuf → List ℕ → Result String (Unit {0}) × W
  pub read : W → PathBuf → Result String (List ℕ)

-- What `emit` sends.
pub data Event : Type 0 where
  session_state : String → String → Event
  file_received : String → String → ℕ → ℕ → Event
  file_state : String → String → String → Event

pub data Body : Type 0 where
  device : String → String → String → Body
  offered : String → Assoc String String → Body
  status : String → Body
  received : ℕ → List ℕ → Body
  refused : TransferError → Body
  io_error : String → Body

-- A status code and a body.
abbrev pub Response : Type 0
Response = ℕ × Body

pub record AppState (W : Type 0) : Type 0 where
  pub info : DeviceInfo
  pub sessions : SessionManager
  pub chunk_dir : PathBuf
  pub sent : List Event
  pub files : W

abbrev pub code_of : TransferError → ℕ
code_of bad_token = 401
code_of unknown_session = 404
code_of (unknown_file f) = 404
code_of _ = 409

module _ {W : Type 0} where
  abbrev pub emit : AppState W → Event → AppState W
  emit s e = record s { sent = s.sent ++ e ∷ [] }

  unfoldable pub info : AppState W → Response
  info s = (200, device s.info.id s.info.name s.info.platform)

  unfoldable pub prepare :
      AppState W → (ℕ → String) → ℕ → String → List FileSpec → Response × AppState W
  prepare s uuid now from_device files =
      let out = Transfer.prepare s.sessions uuid now from_device files in
      let t = record s { sessions = out.1 } in
      elim out.0 [ ok (id, tokens) ↦ ((200, offered id tokens), t) | err e ↦ ((400, refused e), t) ]

  -- `confirm` and `deny` differ in their call, the state they send and the status they answer.
  abbrev decided :
      AppState W
      → String
      → String
      → String
      → Result TransferError (Unit {0}) × SessionManager
      → Response × AppState W
  decided s session_id to answer (ok _, m) =
      ((200, status answer), emit (record s { sessions = m }) (session_state session_id to))
  decided s session_id to answer (err e, m) = ((409, refused e), record s { sessions = m })

  unfoldable pub confirm : AppState W → String → Response × AppState W
  confirm s session_id =
      decided s session_id "Transferring" "ready" (Transfer.approve s.sessions session_id)

  unfoldable pub deny : AppState W → String → Response × AppState W
  deny s session_id = decided s session_id "Denied" "denied" (Transfer.deny s.sessions session_id)

  module _ (disk : Disk W) where
    abbrev pub part_path : AppState W → String → String → PathBuf
    part_path s session file = join_path (join_path s.chunk_dir session) (file ⁀ ".part")

    abbrev with_files : AppState W → W → AppState W
    with_files s w = record s { files = w }

    -- The end of `upload`, when the bytes are written.
    abbrev stored :
        AppState W → String → String → ℕ → Result String (Unit {0}) × W → Response × AppState W
    stored s session file n (err e, w) = ((500, io_error e), with_files s w)
    stored s session file n (ok _, w) =
        let missing : List ℕ = elim (Transfer.missing s.sessions session file) [
          | ok l ↦ l
          | err e ↦ []
        ] in
        (
          (200, received n missing),
          emit (with_files s w) (file_received session file n (length missing)),
        )

    abbrev opened :
        AppState W → String → String → List ℕ → Result String (Unit {0}) × W → Response × AppState W
    opened s session file body (err e, w) = ((500, io_error e), with_files s w)
    opened s session file body (ok _, w) =
        stored s session file (length body) (disk.write_all w (part_path s session file) body)

    abbrev pub made :
        AppState W → String → String → List ℕ → Result String (Unit {0}) × W → Response × AppState W
    made s session file body (err e, w) = ((500, io_error e), with_files s w)
    made s session file body (ok _, w) =
        opened s session file body (disk.open_append w (part_path s session file))

    -- `upload`, after the gate.
    abbrev pub gated :
        AppState W
        → String
        → String
        → List ℕ
        → Result TransferError (Unit {0}) × SessionManager
        → Response × AppState W
    gated s session file body (err e, m) = ((code_of e, refused e), record s { sessions = m })
    gated s session file body (ok _, m) =
        made (record s { sessions = m }) session file body
          (disk.create_dir_all s.files (join_path s.chunk_dir session))

    unfoldable pub upload : AppState W → String → String → String → List ℕ → Response × AppState W
    upload s session file token body =
        gated s session file body (Transfer.note_bytes s.sessions session file token (length body))

    abbrev pub checked :
        AppState W
        → String
        → String
        → Result TransferError (Unit {0}) × SessionManager
        → Response × AppState W
    checked s session file (ok _, m) = (
      (200, status "completed"),
      emit (record s { sessions = m }) (file_state session file "Completed"),
    )
    checked s session file (err e, m) =
        ((409, refused e), emit (record s { sessions = m }) (file_state session file "Failed"))

    unfoldable pub complete :
        (List ℕ → String) → AppState W → String → String → Response × AppState W
    complete sha256_hex s session file = elim (disk.read s.files (part_path s session file)) [
      | err e ↦ ((404, io_error e), s)
      | ok bytes ↦
          checked s session file (Transfer.complete sha256_hex s.sessions session file bytes)
    ]

-- What a stream for one session hands on of the messages: the texts that contain its id.
abbrev pub session_events : String → List String → List String
session_events session texts = keep (λ t. contains t session) texts
