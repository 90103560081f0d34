-- ===== src/Bindings/Python/Spool.antt =====
-- The spool of the Python binding: the snapshot of the input, and its compression (`prepare` in
-- apps/python/src/lib.rs). What the reads of the input give is an argument: their answers in order, up to the
-- end of the file.
use air_ferry.Prelude.{
  ℕ, Bool, false, ◌||◌, not, leb, ◌==◌, List, [], ◌∷◌, ◌++◌, length, Option, none, some, Result, ok,
  err, map_err, checked_add, String, if◌then◌else◌,
}
use air_ferry.Bytes.{bytes_eq}
use air_ferry.Protocol.Compress.{compression_none, compression_zstd}
use air_ferry.Protocol.Stream.{put_file}
use air_ferry.Bindings.Python.Tasks.{
  NativeError, io, value, Time, before, since, Metadata, Disk, Task, ◌>>=◌, ◌>>◌, done, lift, check,
  content, all_of,
}

abbrev pub auto_mode : List ℕ
auto_mode = b'a' ∷ b'u' ∷ b't' ∷ b'o' ∷ []

-- ".compressed"
abbrev pub candidate_suffix : List ℕ
candidate_suffix = b'.' ∷ b'c' ∷ b'o' ∷ b'm' ∷ b'p' ∷ b'r' ∷ b'e' ∷ b's' ∷ b's' ∷ b'e' ∷ b'd' ∷ []

unfoldable pub same_time : Time → Time → Bool
same_time (before a) (before b) = a == b
same_time (before a) (since b) = false
same_time (since a) (before b) = false
same_time (since a) (since b) = a == b

-- What the copying loop has taken in: the bytes written and hashed, and their counted number.
pub record Snapshot : Type 0 where
  pub bytes : List ℕ
  pub size : ℕ

-- One chunk is written, hashed and counted.
unfoldable pub take_chunk :
    Snapshot → List ℕ → Option String → Snapshot × Result NativeError (Unit {0})
take_chunk s chunk (some e) = (s, err (io e))
take_chunk s chunk none = elim (checked_add 64 s.size (length chunk)) [
  | none ↦ (record s { bytes = s.bytes ++ chunk }, err (value "input size overflow"))
  | some size ↦ (record { bytes = s.bytes ++ chunk; size = size }, ok tt)
]

-- The rest of the loop after a chunk.
unfoldable pub go_on :
    (Snapshot → Snapshot × Result NativeError (Unit {0}))
    → Snapshot × Result NativeError (Unit {0})
    → Snapshot × Result NativeError (Unit {0})
go_on rest (s, err e) = (s, err e)
go_on rest (s, ok u) = rest s

-- The snapshot lies in the spool, complete or not.
unfoldable pub spooled :
    (spool_path : List ℕ) → Snapshot × Result NativeError (Unit {0}) → Task Snapshot
spooled spool_path (s, err e) files = (put_file files spool_path (some s.bytes), err e)
spooled spool_path (s, ok u) files = (put_file files spool_path (some s.bytes), ok s)

-- Whether the input is as it was before the copy.
unfoldable pub is_unchanged : (initial end : Metadata) → (copied : ℕ) → Result NativeError Bool
is_unchanged initial end copied =
    if not (copied == initial.size) || not (end.size == initial.size)
    then ok false
    else elim end.modified [
      | err e ↦ err (io e)
      | ok later ↦ elim initial.modified [
        | err e ↦ err (io e)
        | ok earlier ↦ ok (same_time later earlier)
      ]
    ]

-- What the compressor has written lies in the candidate.
unfoldable pub encoded : (candidate : List ℕ) → List ℕ × Result String (Unit {0}) → Task (Unit {0})
encoded candidate (out, r) files = (put_file files candidate (some out), map_err io r)

module _ (disk : Disk) where
  -- `create_new`: the file must not be there.
  unfoldable pub create_new : List ℕ → Task (Unit {0})
  create_new path files = elim (disk.create_fails path) [
    | some e ↦ (files, err (io e))
    | none ↦ elim (files path) [
      | some old ↦ (files, err (io "File exists"))
      | none ↦ (put_file files path (some []), ok tt)
    ]
  ]

  unfoldable pub copy_loop :
      List (Result String (List ℕ)) → Snapshot → Snapshot × Result NativeError (Unit {0})
  copy_loop [] s = (s, ok tt)
  copy_loop (err e ∷ answers) s = (s, err (io e))
  copy_loop (ok [] ∷ answers) s = (s, ok tt)
  copy_loop (ok (b ∷ bs) ∷ answers) s =
      go_on (copy_loop answers) (take_chunk s (b ∷ bs) (disk.write_fails s.bytes (b ∷ bs)))

  unfoldable pub take_snapshot :
      (spool_path : List ℕ) → List (Result String (List ℕ)) → Task Snapshot
  take_snapshot spool_path answers = do
    create_new spool_path
    s ← spooled spool_path (copy_loop answers (record { bytes = []; size = 0 }))
    check (disk.flush_fails s.bytes)
    done s

  -- The length of a file, and a file's whole content.
  unfoldable pub size_of : List ℕ → Task ℕ
  size_of path files = elim (disk.metadata_fails path) [
    | some e ↦ (files, err (io e))
    | none ↦ elim (files path) [
      | none ↦ (files, err (io "not found"))
      | some bytes ↦ (files, ok (length bytes))
    ]
  ]

  unfoldable pub open_all : List ℕ → Task (List ℕ)
  open_all path files = (files, content disk files path)

  unfoldable pub remove : List ℕ → Task (Unit {0})
  remove path files = elim (disk.remove_fails path) [
    | some e ↦ (files, err (io e))
    | none ↦ elim (files path) [
      | none ↦ (files, err (io "not found"))
      | some bytes ↦ (put_file files path none, ok tt)
    ]
  ]

  unfoldable pub rename : (from to : List ℕ) → Task (Unit {0})
  rename from to files = elim (disk.rename_fails from to) [
    | some e ↦ (files, err (io e))
    | none ↦ elim (files from) [
      | none ↦ (files, err (io "not found"))
      | some bytes ↦ (put_file (put_file files from none) to (some bytes), ok tt)
    ]
  ]

  unfoldable pub encoder : (tag : ℕ) → List ℕ → List ℕ × Result String (Unit {0})
  encoder tag bytes =
      if tag == compression_zstd then disk.zstd_encoder bytes else disk.xz_encoder bytes

  -- The candidate takes the snapshot's place.
  unfoldable pub replace : (spool_path candidate : List ℕ) → (tag : ℕ) → Task ℕ
  replace spool_path candidate tag = remove spool_path >> (rename candidate spool_path >> done tag)

  -- Under "auto" a candidate that is no smaller than the input is given up; the tag of what is kept.
  unfoldable pub keep : (mode spool_path candidate : List ℕ) → (tag original_size : ℕ) → Task ℕ
  keep mode spool_path candidate tag original_size =
      if bytes_eq mode auto_mode
      then (do
        candidate_size ← size_of candidate
        if leb original_size candidate_size
            then remove candidate >> done compression_none
            else replace spool_path candidate tag)
      else replace spool_path candidate tag

  unfoldable pub compress_spool : (mode spool_path : List ℕ) → (tag original_size : ℕ) → Task ℕ
  compress_spool mode spool_path tag original_size =
      if tag == compression_none then done compression_none else (do
        let candidate = spool_path ++ candidate_suffix
        create_new candidate
        snapshot ← open_all spool_path
        bytes ← lift (all_of disk snapshot spool_path)
        encoded candidate (encoder tag bytes)
        keep mode spool_path candidate tag original_size)
