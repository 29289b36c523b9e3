-- ===== src/Device/Transfer/Chunks.antt =====
-- transfer.rs: a file's progress, one Boolean for each chunk.

use igrisv.Base.{
  ℕ, zero, suc, ◌+◌, ◌-◌, ◌*◌, ◌/◌, ◌%◌, ◌^◌, min, max, String, Bool, true, false, Option, List, [],
  ◌∷◌, map, leb, if◌then◌else◌, length, replicate,
}

abbrev pub chunk_size : ℕ
chunk_size = 1024 * 1024

-- `u64` arithmetic wraps around in a release build.
abbrev pub u64 : ℕ → ℕ
u64 n = n % 2 ^ 64

pub record FileSpec : Type 0 where
  pub name : String
  pub size : ℕ
  pub checksum : Option String

pub record FileProgress : Type 0 where
  pub spec : FileSpec
  pub open spec use *
  pub token : String
  pub received_bytes : ℕ
  pub confirmed_chunks : List Bool

-- `size.div_ceil(CHUNK_SIZE).max(1)`
unfoldable pub chunks_of : ℕ → ℕ
chunks_of size = max ((size + chunk_size - 1) / chunk_size) 1

-- `FileProgress::new`
unfoldable pub fresh_progress : FileSpec → String → FileProgress
fresh_progress spec token = record {
  spec = spec;
  token = token;
  received_bytes = 0;
  confirmed_chunks = replicate (chunks_of spec.size) false;
}

-- `iter_mut().take(n)`, each set to true.
unfoldable pub confirm : ℕ → List Bool → List Bool
confirm zero cs = cs
confirm (suc n) [] = []
confirm (suc n) (c ∷ cs) = true ∷ confirm n cs

unfoldable pub confirm_every : List Bool → List Bool
confirm_every = map (λ c. true)

-- `FileProgress::note_bytes`
unfoldable pub note_progress : ℕ → FileProgress → FileProgress
unfolding confirm_every
note_progress n f =
    let received = u64 (f.received_bytes + n) in
    let done =
      confirm (min (received / chunk_size) (length f.confirmed_chunks)) f.confirmed_chunks in
    record f {
      received_bytes = received;
      confirmed_chunks = if leb f.size received then confirm_every done else done;
    }

-- The indices, counted from `i`, at which the chunk is not confirmed.
unfoldable pub missing_from : ℕ → List Bool → List ℕ
missing_from i [] = []
missing_from i (c ∷ cs) = let rest = missing_from (i + 1) cs in if c then rest else i ∷ rest

-- `FileProgress::missing_chunks`
unfoldable pub missing_chunks : FileProgress → List ℕ
unfolding missing_from
missing_chunks f = missing_from 0 f.confirmed_chunks

-- What `complete` writes to a file that passed its check.
unfoldable pub finish : FileProgress → FileProgress
unfolding confirm_every
finish f = record f { received_bytes = f.size; confirmed_chunks = confirm_every f.confirmed_chunks }
