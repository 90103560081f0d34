-- ===== src/Bindings/Python/Snapshots.antt =====
-- The snapshot that `NativeTransfer::prepare` takes of its input (apps/python/src/lib.rs).
use air_ferry.Prelude.{
  ℕ, ◌+◌, ◌≡◌, inl, inr, refl, sym, ◌∙◌, Bool, false, not, ◌==◌, List, [], ◌∷◌, ◌++◌, length,
  append-nil, append_assoc, length-append, Option, none, some, Result, ok, err, String, Bool-cases,
  checked_add, arith,
}
use air_ferry.Bytes.{bytes_eq, bytes_eq-eq, bytes_eq_refl}
use air_ferry.Protocol.Stream.{Files, put_file}
use air_ferry.Bindings.Python.Tasks.{NativeError, Metadata, Disk, content}
use air_ferry.Bindings.Python.Steps.{create_new-Ends}
use air_ferry.Bindings.Python.Outcomes.{Ends, >>=-Ends, lift-Ends, reject_when-Ends, check-Ends}
use air_ferry.Bindings.Python.Spool.{
  Snapshot, take_chunk, go_on, copy_loop, spooled, take_snapshot, is_unchanged,
}
use air_ferry.Bindings.Python.Prepare.{snapshot_of, metadata_of}

-- The bytes that the answers of the input's reads bring.
unfoldable pub joined : List (Result String (List ℕ)) → List ℕ
joined [] = []
joined (err e ∷ answers) = []
joined (ok [] ∷ answers) = []
joined (ok (b ∷ bs) ∷ answers) = (b ∷ bs) ++ joined answers

-- The loop has taken in all that was read.
Copies :
    List (Result String (List ℕ)) → Snapshot → Snapshot × Result NativeError (Unit {0}) → Type 0
Copies answers s (t, err e) = Unit
Copies answers s (t, ok u) =
    (t.bytes ≡ s.bytes ++ joined answers) × (s.size ≡ length s.bytes → t.size ≡ length t.bytes)

one_more :
    (answers : List (Result String (List ℕ))) (s : Snapshot) (b : ℕ) (bs : List ℕ) (size : ℕ)
    (end : Snapshot × Result NativeError (Unit {0}))
    → size ≡ s.size + length (b ∷ bs)
    → Copies answers (record { bytes = s.bytes ++ (b ∷ bs); size = size }) end
    → Copies (ok (b ∷ bs) ∷ answers) s end
unfolding Copies joined
one_more answers s b bs size (t, err e) sum h = tt
one_more answers s b bs size (t, ok u) sum (content_is, count_is) = (
  content_is ∙ append_assoc s.bytes (b ∷ bs) (joined answers),
  λ h. count_is (omega (arith, sum, h, length-append s.bytes (b ∷ bs))),
)

chunk_copied :
    (answers : List (Result String (List ℕ))) (s : Snapshot) (b : ℕ) (bs : List ℕ)
    (fails : Option String) (rest : Snapshot → Snapshot × Result NativeError (Unit {0}))
    → ((t : Snapshot) → Copies answers t (rest t))
    → Copies (ok (b ∷ bs) ∷ answers) s (go_on rest (take_chunk s (b ∷ bs) fails))
unfolding Copies go_on take_chunk
chunk_copied answers s b bs fails rest ih =
    taken fails (checked_add 64 s.size (length (b ∷ bs))) refl
  where
    taken :
        (fails : Option String) (o : Option ℕ)
        → checked_add 64 s.size (length (b ∷ bs)) ≡ o
        → Copies (ok (b ∷ bs) ∷ answers) s (go_on rest (take_chunk s (b ∷ bs) fails))
    taken (some e) o same = tt
    taken none none same = rw (same, take_chunk) tt
    taken none (some size) same =
        let sum : size ≡ s.size + length (b ∷ bs) = ground (arith, same) in
        rw (same, take_chunk)
          (one_more answers s b bs size (rest (record { bytes = s.bytes ++ (b ∷ bs); size = size }))
            sum (ih _))

module _ (disk : Disk) where
  copy_loop-Copies :
      (answers : List (Result String (List ℕ))) (s : Snapshot)
      → Copies answers s (copy_loop disk answers s)
  unfolding Copies copy_loop joined
  copy_loop-Copies [] s = (sym (append-nil s.bytes), λ h. h)
  copy_loop-Copies (err e ∷ answers) s = tt
  copy_loop-Copies (ok [] ∷ answers) s = (sym (append-nil s.bytes), λ h. h)
  copy_loop-Copies (ok (b ∷ bs) ∷ answers) s =
      chunk_copied answers s b bs (disk.write_fails s.bytes (b ∷ bs)) (copy_loop disk answers)
        (copy_loop-Copies answers)

-- A file that was there stays as it was.
abbrev pub Keeps : Files → Files → Type 0
Keeps files after = (q old : List ℕ) → files q ≡ some old → after q ≡ some old

-- Files that differ at the spool only, where there was no file.
abbrev pub SpoolOnly : Files → List ℕ → Files → Type 0
SpoolOnly files spool after = (q : List ℕ) → bytes_eq q spool ≡ false → after q ≡ files q

pub SpoolOnly-Keeps :
    (files after : Files) (spool : List ℕ)
    → files spool ≡ none
    → SpoolOnly files spool after
    → Keeps files after
SpoolOnly-Keeps files after spool new same q old there = elim (Bool-cases (bytes_eq q spool)) [
  | inl self ↦ (let e : q ≡ spool = bytes_eq-eq q spool self in cc)
  | inr other ↦ same q other ∙ there
]

pub put_spool :
    (files after : Files) (spool : List ℕ) (content : Option (List ℕ))
    → SpoolOnly files spool after
    → SpoolOnly files spool (put_file after spool content)
put_spool files after spool content same q other = rw other (same q other)

module _ (disk : Disk) (spool : List ℕ) (answers : List (Result String (List ℕ))) where
  -- The spool after the snapshot.
  pub record Snapped (files after : Files) (s : Snapshot) : Type 0 where
    pub new : files spool ≡ none
    pub file : after spool ≡ some s.bytes
    pub elsewhere : SpoolOnly files spool after
    pub bytes : s.bytes ≡ joined answers
    pub size : s.size ≡ length s.bytes

  copied :
      (files after : Files) (end : Snapshot × Result NativeError (Unit {0}))
      → files spool ≡ none
      → SpoolOnly files spool after
      → Copies answers (record { bytes = []; size = 0 }) end
      → Ends (Keeps files) (Snapped files) (spooled spool end after)
  unfolding spooled Copies
  copied files after (t, err e) new same c =
      SpoolOnly-Keeps files (put_file after spool (some t.bytes)) spool new
        (put_spool files after spool _ same)
  copied files after (t, ok u) new same (content_is, count_is) = record {
    new = new;
    file = let self = bytes_eq_refl spool in rw self;
    elsewhere = put_spool files after spool _ same;
    bytes = content_is;
    size = count_is refl;
  }

  take_snapshot-Ends :
      (files : Files) → Ends (Keeps files) (Snapped files) (take_snapshot disk spool answers files)
  unfolding take_snapshot
  take_snapshot-Ends files =
      create_new-Ends (Keeps files) (Snapped files) disk spool _ files (λ q old h. h)
        λ new.
          >>=-Ends (Keeps files) (Snapped files) (Snapped files)
            (spooled spool (copy_loop disk answers _)) _ _
            (copied files _ (copy_loop disk answers _) new
              (put_spool files files spool _ (λ q other. refl)) (copy_loop-Copies disk answers _))
            λ after s snapped.
              check-Ends (Keeps files) (Snapped files) (disk.flush_fails s.bytes) _ after
                (SpoolOnly-Keeps files after spool snapped.new snapped.elsewhere) snapped

  -- The snapshot is the whole input as its metadata describe it.
  unfoldable pub Whole : Files → Metadata → Files → Snapshot → Type 0
  Whole files initial after s = Snapped files after s × (s.size ≡ initial.size)

  unchanged_size :
      (initial end : Metadata) (copied : ℕ) (unchanged : Bool)
      → is_unchanged initial end copied ≡ ok unchanged
      → not unchanged ≡ false
      → copied ≡ initial.size
  unfolding is_unchanged
  unchanged_size initial end copied unchanged h passed =
      elim (Bool-cases (copied == initial.size)) [
        | inl same ↦ ground (arith, same)
        | inr other ↦ absurd (cc (rw other at h))
      ]

  pub snapshot_of-Ends :
      (files : Files) (initial : Metadata) (last : Result String Metadata)
      → Ends (Keeps files) (Whole files initial) (snapshot_of disk spool answers initial last files)
  unfolding snapshot_of Whole
  snapshot_of-Ends files initial last =
      >>=-Ends (Keeps files) (Whole files initial) (Snapped files)
        (take_snapshot disk spool answers) _ files (take_snapshot-Ends files)
        λ after s snapped.
          let kept = SpoolOnly-Keeps files after spool snapped.new snapped.elsewhere in
          lift-Ends (Keeps files) (Whole files initial) (metadata_of last) _ after kept λ end same.
            lift-Ends (Keeps files) (Whole files initial) (is_unchanged initial end s.size) _ after
              kept
              λ unchanged told.
                reject_when-Ends (Keeps files) (Whole files initial) (not unchanged) _ _ after kept
                  λ passed. (snapped, unchanged_size initial end s.size unchanged told passed)
