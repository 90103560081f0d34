-- ===== src/Bindings/Python/Stored.antt =====
-- The spool after `NativeTransfer::prepare` has compressed it (apps/python/src/lib.rs).
use air_ferry.Prelude.{
  ℕ, ◌≡◌, ◌⊎◌, inl, inr, refl, sym, ap, ◌∙◌, true, false, leb, ◌==◌, List, [], ◌++◌, length,
  length-append, Option, none, some, some_inj, Result, ok, err, String, Bool-cases, arith,
}
use air_ferry.Bytes.{bytes_eq, bytes_eq-eq, bytes_eq_refl}
use air_ferry.Protocol.Compress.{compression_none}
use air_ferry.Protocol.Stream.{Files, put_file}
use air_ferry.Bindings.Python.Tasks.{NativeError, io, Disk, all_of}
use air_ferry.Bindings.Python.Outcomes.{Ends, lift-Ends}
use air_ferry.Bindings.Python.Steps.{
  create_new-Ends, size_of-Ends, open_all-Ends, remove-Ends, rename-Ends, encoded-Ends,
}
use air_ferry.Bindings.Python.Spool.{
  candidate_suffix, encoder, replace, keep, compress_spool, auto_mode,
}
use air_ferry.Bindings.Python.Snapshots.{Keeps, SpoolOnly, SpoolOnly-Keeps}

module _ (disk : Disk) (spool : List ℕ) where
  candidate : List ℕ
  candidate = spool ++ candidate_suffix

  candidate-ne-spool : bytes_eq candidate spool ≡ false
  unfolding candidate
  candidate-ne-spool = elim (Bool-cases (bytes_eq (spool ++ candidate_suffix) spool)) [
    | inl same ↦
        (let e : spool ++ candidate_suffix ≡ spool = bytes_eq-eq _ _ same in
          absurd (omega (arith, ap length e, length-append spool candidate_suffix)))
    | inr other ↦ other
  ]

  spool-ne-candidate : bytes_eq spool candidate ≡ false
  unfolding candidate
  spool-ne-candidate = elim (Bool-cases (bytes_eq spool (spool ++ candidate_suffix))) [
    | inl same ↦
        (let e : spool ≡ spool ++ candidate_suffix = bytes_eq-eq _ _ same in
          absurd (omega (arith, ap length e, length-append spool candidate_suffix)))
    | inr other ↦ other
  ]

  module _ (wanted : ℕ) (bytes : List ℕ) where
    -- The spool has the snapshot as it is, or what the compressor made of it.
    unfoldable pub IsEncoding : (tag : ℕ) → (stream : List ℕ) → Type 0
    IsEncoding tag stream =
        ((tag ≡ compression_none) × (stream ≡ bytes))
        ⊎ ((tag ≡ wanted) × (encoder disk wanted bytes ≡ (stream, ok tt)))

    pub record Stored (before after : Files) (tag : ℕ) : Type 0 where
      pub stream : List ℕ
      pub file : after spool ≡ some stream
      pub elsewhere : SpoolOnly before spool after
      pub encoding : IsEncoding tag stream

    module _ (files before : Files) (new : files spool ≡ none) (same : SpoolOnly files spool before)
        (free : before candidate ≡ none) where
      -- Files that differ at the spool and the candidate only.
      abbrev TwoOnly : Files → Type 0
      TwoOnly after =
          (q : List ℕ)
          → bytes_eq q spool ≡ false
          → bytes_eq q candidate ≡ false
          → after q ≡ before q

      TwoOnly-Keeps : (after : Files) → TwoOnly after → Keeps files after
      TwoOnly-Keeps after two q old there = elim (Bool-cases (bytes_eq q spool)) [
        | inl self ↦ (let e : q ≡ spool = bytes_eq-eq q spool self in cc)
        | inr other ↦ elim (Bool-cases (bytes_eq q candidate)) [
          | inl self ↦
              (let e : q ≡ candidate = bytes_eq-eq q candidate self in
                let known = same q other in cc)
          | inr apart ↦ two q other apart ∙ same q other ∙ there
        ]
      ]

      -- Without the candidate, only the spool differs.
      gone : (after : Files) → TwoOnly after → after candidate ≡ none → SpoolOnly before spool after
      gone after two no_file q other = elim (Bool-cases (bytes_eq q candidate)) [
        | inl self ↦
            (let e : q ≡ candidate = bytes_eq-eq q candidate self in
              ap after e ∙ no_file ∙ sym free ∙ ap before (sym e))
        | inr apart ↦ two q other apart
      ]

      two_spool : (h : Files) (c : Option (List ℕ)) → TwoOnly h → TwoOnly (put_file h spool c)
      two_spool h c two q other apart = rw other (two q other apart)

      two_candidate :
          (h : Files) (c : Option (List ℕ)) → TwoOnly h → TwoOnly (put_file h candidate c)
      two_candidate h c two q other apart = rw apart (two q other apart)

      moved-Stored :
          (h : Files) (out moved : List ℕ)
          → TwoOnly h
          → h candidate ≡ some out
          → encoder disk wanted bytes ≡ (out, ok tt)
          → put_file h spool none candidate ≡ some moved
          → Stored before
              (put_file (put_file (put_file h spool none) candidate none) spool (some moved))
              wanted
      unfolding IsEncoding
      moved-Stored h out moved two held made there =
          let end = put_file (put_file (put_file h spool none) candidate none) spool (some moved) in
          let self = bytes_eq_refl candidate in
          let spool_self = bytes_eq_refl spool in
          let same_bytes : out ≡ moved = some_inj (sym held ∙ rw candidate-ne-spool at there) in
          let no_file : end candidate ≡ none = rw (candidate-ne-spool, self) in
          record {
            stream = moved;
            file = rw spool_self;
            elsewhere = gone end (two_spool _ _ (two_candidate _ _ (two_spool h none two))) no_file;
            encoding = inr (refl, made ∙ ap (λ (bs : List ℕ). (bs, ok tt)) same_bytes);
          }

      replace-Ends :
          (h : Files) (out : List ℕ)
          → TwoOnly h
          → h candidate ≡ some out
          → encoder disk wanted bytes ≡ (out, ok tt)
          → Ends (Keeps files) (Stored before) (replace disk spool candidate wanted h)
      unfolding replace
      replace-Ends h out two held made =
          remove-Ends (Keeps files) (Stored before) disk spool _ h (TwoOnly-Keeps h two) (
            rename-Ends (Keeps files) (Stored before) disk candidate spool _ (put_file h spool none)
              (TwoOnly-Keeps _ (two_spool h none two))
              λ moved there. moved-Stored h out moved two held made there)

      given_up-Stored :
          (h : Files)
          → TwoOnly h
          → h spool ≡ some bytes
          → Stored before (put_file h candidate none) compression_none
      unfolding IsEncoding
      given_up-Stored h two kept =
          let self = bytes_eq_refl candidate in
          record {
            stream = bytes;
            file = rw spool-ne-candidate kept;
            elsewhere = gone _ (two_candidate h none two) (rw self);
            encoding = inl (refl, refl);
          }

      keep-Ends :
          (mode : List ℕ) (original_size : ℕ) (h : Files) (out : List ℕ)
          → TwoOnly h
          → h candidate ≡ some out
          → h spool ≡ some bytes
          → encoder disk wanted bytes ≡ (out, ok tt)
          → Ends
              (Keeps files)
              (Stored before)
              (keep disk mode spool candidate wanted original_size h)
      unfolding keep
      keep-Ends mode original_size h out two held kept made =
          elim (Bool-cases (bytes_eq mode auto_mode)) [
            | inr other ↦ rw other (replace-Ends h out two held made)
            | inl auto ↦ rw auto (
                size_of-Ends (Keeps files) (Stored before) disk candidate _ h (TwoOnly-Keeps h two)
                  λ content there. elim (Bool-cases (leb original_size (length content))) [
                    | inr smaller ↦ rw smaller (replace-Ends h out two held made)
                    | inl larger ↦ rw larger (
                        remove-Ends (Keeps files) (Stored before) disk candidate _ h
                          (TwoOnly-Keeps h two) (given_up-Stored h two kept))
                  ])
          ]

    all_of-eq-ok : (got : List ℕ) (read : List ℕ) → all_of disk got spool ≡ ok read → got ≡ read
    unfolding all_of
    all_of-eq-ok got read h = asked (disk.read_fails spool) h
      where
        asked :
            (fails : Option String)
            → ◌≡◌ {A = Result NativeError (List ℕ)}
                (elim fails [ some e ↦ err (io e) | none ↦ ok got ])
                (ok read)
            → got ≡ read
        asked (some e) h = cc
        asked none h = cc

    module _ (files before : Files) (new : files spool ≡ none)
        (same : SpoolOnly files spool before) where
      -- Where there is a compressor to call.
      compressed-Ends :
          (mode : List ℕ) (original_size : ℕ)
          → before spool ≡ some bytes
          → (wanted == compression_none) ≡ false
          → Ends
              (Keeps files)
              (Stored before)
              (compress_spool disk mode spool wanted original_size before)
      unfolding compress_spool candidate
      compressed-Ends mode original_size kept asked = rw asked (
          create_new-Ends (Keeps files) (Stored before) disk candidate _ before
            (SpoolOnly-Keeps files before spool new same)
            λ free.
              let first = put_file before candidate (some []) in
              let two : TwoOnly files before new same free first = λ q other apart. rw apart in
              let kept_first : first spool ≡ some bytes = rw spool-ne-candidate kept in
              open_all-Ends (Keeps files) (Stored before) disk spool _ first
                (TwoOnly-Keeps files before new same free first two)
                λ snapshot there.
                  lift-Ends (Keeps files) (Stored before) (all_of disk snapshot spool) _ first
                    (TwoOnly-Keeps files before new same free first two)
                    λ read told.
                      let same_bytes : read ≡ bytes =
                        sym (all_of-eq-ok snapshot read told) ∙ some_inj (sym there ∙ kept_first) in
                      let later = λ (out : List ℕ). put_file first candidate (some out) in
                      encoded-Ends (Keeps files) (Stored before) disk candidate
                        (encoder disk wanted read) _ first
                        (λ out.
                          TwoOnly-Keeps files before new same free (later out)
                            (two_candidate files before new same free first _ two))
                        λ out made.
                          keep-Ends files before new same free mode original_size (later out) out
                            (two_candidate files before new same free first _ two)
                            (let self = bytes_eq_refl candidate in rw self)
                            (rw spool-ne-candidate kept)
                            (ap (encoder disk wanted) (sym same_bytes) ∙ made))

      uncompressed-Ends :
          (mode : List ℕ) (original_size : ℕ)
          → before spool ≡ some bytes
          → (wanted == compression_none) ≡ true
          → Ends
              (Keeps files)
              (Stored before)
              (compress_spool disk mode spool wanted original_size before)
      unfolding compress_spool IsEncoding
      uncompressed-Ends mode original_size kept plain = rw plain (record {
        stream = bytes;
        file = kept;
        elsewhere = λ q other. refl;
        encoding = inl (refl, refl);
      })

      -- The spool holds the snapshot or its compression, and nothing else has changed.
      pub compress_spool-Ends :
          (mode : List ℕ) (original_size : ℕ)
          → before spool ≡ some bytes
          → Ends
              (Keeps files)
              (Stored before)
              (compress_spool disk mode spool wanted original_size before)
      compress_spool-Ends mode original_size kept = elim (Bool-cases (wanted == compression_none)) [
        | inl plain ↦ uncompressed-Ends mode original_size kept plain
        | inr asked ↦ compressed-Ends mode original_size kept asked
      ]
