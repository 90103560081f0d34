-- ===== src/Bindings/Capi/Recovery.antt =====
-- What a host may rely on when it lets the core decompress a file
-- (`airferry_decompress_stream_to_file` of core/transfer-engine/src/cffi.rs).
use air_ferry.Prelude.{
  ℕ, ◌-◌, ◌^◌, ◌<◌, ◌≡◌, ◌⊎◌, refl, sym, subst, ◌∙◌, inl, inr, Bool, true, false, not, ◌&&◌, ◌==◌,
  List, length, none, some, some_inj, String, Result, ok, err, Bool-cases, Option-cases, eq_of_not,
  arith,
}
use air_ferry.Bytes.{bytes_eq, bytes_eq_refl}
use air_ferry.Protocol.Checksum.{Checksum}
use air_ferry.Protocol.Errors as ProtocolErrors
use air_ferry.Protocol.Stream
use air_ferry.Protocol.Stream.{
  Files, put_file, remove_file, DecompressStreamOutcome, open_decoder, decompress_stream_to_file,
}
use air_ferry.Protocol.Stream.Loop.{IsReader}
use air_ferry.Protocol.Stream.Outcome.{Leaves, SameElsewhere, stream-Leaves}
use air_ferry.Engine.Utf8.Lossy.{from_utf8_lossy}
use air_ferry.Bindings.Capi.Calls.{
  to_hex, eq_ignore_ascii_case, check_outcome, cstr, decompress_arguments,
  airferry_decompress_stream_to_file,
}

module _ {R : Type 0} (host : Stream.Host R) (crc : Checksum) (sha : List ℕ → List ℕ)
    (left : R → List ℕ) (law : IsReader host left) where
  -- The file that a host gets, with what it asked for.
  pub record Verified (files : Files) (path : List ℕ) (expected_size expected_crc : ℕ)
      (crc_known : Bool) (expected_sha stream : List ℕ) : Type 0 where
    pub file : files path ≡ some stream
    pub size : length stream ≡ expected_size
    pub checksum : (crc_known ≡ false) ⊎ (crc.digest stream ≡ expected_crc)
    pub hash : eq_ignore_ascii_case (to_hex (sha stream)) expected_sha ≡ true

  -- The files and the status after a call that began with some files.
  abbrev pub Ends :
      Files
      → List ℕ
      → (expected_size expected_crc : ℕ) → Bool
      → List ℕ
      → Result String R
      → Files × ℕ
      → Type 0
  Ends files output expected_size expected_crc crc_known expected_sha opened (after, status) =
      SameElsewhere host crc sha files after output
      × (((status ≡ 1)
            × (r : R) × (opened ≡ ok r)
            × Verified after output expected_size expected_crc crc_known expected_sha (left r))
          ⊎ ((status ≡ 0) × ((after output ≡ none) ⊎ (after output ≡ files output))))

  module _ (max_output : ℕ) (bound : max_output < 2 ^ 64 - 1) where
    gone :
        (files after : Files) (output : List ℕ)
        → host.removes output ≡ true
        → SameElsewhere host crc sha files after output
        → SameElsewhere host crc sha files (remove_file host after output) output
          × (remove_file host after output output ≡ none)
    unfolding remove_file
    gone files after output removes same =
        let self = bytes_eq_refl output in
        rw removes ((λ q other. rw other (same q other)), rw self)

    checked :
        (files : Files) (output : List ℕ) (expected_size expected_crc : ℕ) (crc_known : Bool)
        (expected_sha : List ℕ) (opened : Result String R)
        (end : Files × Result ProtocolErrors.Error DecompressStreamOutcome)
        → host.removes output ≡ true
        → Leaves host crc sha left law max_output bound files output opened end
        → Ends files output expected_size expected_crc crc_known expected_sha opened (
            check_outcome host crc sha output expected_size expected_crc crc_known expected_sha end)
    unfolding check_outcome
    checked files output size sum known hex opened (after, err e) removes (same, left_over) =
        (same, inr (refl, left_over))
    checked files output size sum known hex opened (after, ok outcome) removes
          (same, r, is_open, w) =
        let (others, no_file) = gone files after output removes same in
        elim (Bool-cases (not (outcome.output_size == size))) [
          | inl bad ↦ rw bad (others, inr (refl, inl no_file))
          | inr size_ok ↦ elim (Bool-cases (known && not (outcome.crc32 == sum))) [
            | inl bad ↦ rw (size_ok, bad) (others, inr (refl, inl no_file))
            | inr sum_ok ↦
                elim (Bool-cases (not (eq_ignore_ascii_case (to_hex outcome.sha256) hex))) [
                  | inl bad ↦ rw (size_ok, sum_ok, bad) (others, inr (refl, inl no_file))
                  | inr hash_ok ↦
                      rw (size_ok, sum_ok, hash_ok)
                        (
                          same,
                          inl (
                            refl,
                            r,
                            is_open,
                            record {
                              file = w.file;
                              size = sym w.size ∙ eq_of_not outcome.output_size size size_ok;
                              checksum = sums known outcome.crc32 sum_ok w.checksum;
                              hash = hashes outcome.sha256 hash_ok w.hash;
                            },
                          ),
                        )
                ]
          ]
        ]
      where
        sums :
            (known : Bool) (got : ℕ) {digest : ℕ}
            → (known && not (got == sum)) ≡ false
            → got ≡ digest
            → (known ≡ false) ⊎ (digest ≡ sum)
        sums false got h same = inl refl
        sums true got h same = inr (sym same ∙ eq_of_not got sum h)

        hashes :
            (got : List ℕ) {wanted : List ℕ}
            → not (eq_ignore_ascii_case (to_hex got) hex) ≡ false
            → got ≡ wanted
            → eq_ignore_ascii_case (to_hex wanted) hex ≡ true
        hashes got h same =
            subst (λ (xs : List ℕ). eq_ignore_ascii_case (to_hex xs) hex ≡ true) same
              (ground (arith, h))

    decompress_arguments-Ends :
        (files : Files) (input output bytes : List ℕ) (compression expected_size expected_crc : ℕ)
        (crc_known : Bool) (expected_sha : List ℕ) (end : Files × ℕ)
        → bytes_eq input output ≡ false
        → files input ≡ some bytes
        → host.removes output ≡ true
        → decompress_arguments host crc sha files
            (some input)
            (some output)
            compression
            max_output
            expected_size
            expected_crc
            crc_known
            (some expected_sha)
          ≡ some end
        → Ends files output expected_size expected_crc crc_known expected_sha
            (open_decoder host crc sha input bytes compression)
            end
    unfolding decompress_arguments
    decompress_arguments-Ends files input output bytes compression size sum known hex end apart
          found removes ran =
        elim (Option-cases
          (decompress_stream_to_file host crc sha files input output compression max_output)) [
            | inl stuck ↦ cc (rw (stuck, decompress_arguments) at ran)
            | inr (o, done) ↦
                subst
                  (Ends files output size sum known hex
                    (open_decoder host crc sha input bytes compression))
                  (some_inj (rw (done, decompress_arguments) at ran))
                  (checked files output size sum known hex _ o removes (
                    stream-Leaves host crc sha left law max_output bound files input output bytes
                      compression o apart found removes done))
          ]

    -- The paths and the hash are the caller's strings with every sequence that is no UTF-8 replaced. For a
    -- limit below 2^64 - 1: when the input path names a file with some bytes and differs from the output path,
    -- and the operating system can remove the output, a call with status 1 leaves an output that holds the
    -- whole stream of the decoder, with the expected size, the expected CRC-32 where it is known, and the
    -- expected SHA-256; a call with status 0 leaves the output removed, or as it was. No other path changes.
    -- The readers keep the promises of `Read`.
    pub airferry_decompress_stream_to_file-Ends :
        (files : Files) (input output bytes : List ℕ) (compression expected_size expected_crc : ℕ)
        (crc_known : Bool) (expected_sha : List ℕ) (end : Files × ℕ)
        → bytes_eq (from_utf8_lossy input) (from_utf8_lossy output) ≡ false
        → files (from_utf8_lossy input) ≡ some bytes
        → host.removes (from_utf8_lossy output) ≡ true
        → airferry_decompress_stream_to_file host crc sha files
            (some input)
            (some output)
            compression
            max_output
            expected_size
            expected_crc
            crc_known
            (some expected_sha)
          ≡ some end
        → Ends files
            (from_utf8_lossy output)
            expected_size
            expected_crc
            crc_known
            (from_utf8_lossy expected_sha)
            (open_decoder host crc sha (from_utf8_lossy input) bytes compression)
            end
    unfolding airferry_decompress_stream_to_file cstr
    airferry_decompress_stream_to_file-Ends files input output bytes compression size sum known hex
          end apart found removes ran =
        decompress_arguments-Ends files (from_utf8_lossy input) (from_utf8_lossy output) bytes
          compression size sum known (from_utf8_lossy hex) end apart found removes ran
