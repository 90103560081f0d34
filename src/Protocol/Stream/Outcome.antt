-- ===== src/Protocol/Stream/Outcome.antt =====
-- What a run of `decompress_stream_to_file` leaves behind.
use air_ferry.Prelude.{
  ℕ, ◌-◌, ◌^◌, ◌≤◌, ◌<◌, ◌≡◌, ◌⊎◌, refl, ap, subst, ◌∙◌, inl, inr, true, false, List, [], length,
  Option, none, some, Result, ok, err, String, Bool-cases, some_inj, is_some, arith,
}
use air_ferry.Bytes.{bytes_eq, bytes_eq_refl}
use air_ferry.Protocol.Checksum.{Checksum}
use air_ferry.Protocol.Frame.{saturating_add}
use air_ferry.Protocol.Errors.{Error}
use air_ferry.Protocol.Stream.{
  Files, put_file, Host, Copied, DecompressStreamOutcome, nothing_copied, remove_file, run_decode,
  open_decoder, finish_flush, finish_stream, stream_created, stream_opened, open_stream,
  decompress_stream_to_file,
}
use air_ferry.Protocol.Stream.Loop.{
  Finishes, decode-Finishes, IsReader, Copying, Whole, decode-Whole,
}

put_file_self :
    (files : Files) (path : List ℕ) (content : Option (List ℕ))
    → put_file files path content path ≡ content
put_file_self files path content = rw (bytes_eq_refl path)

put_file_other :
    (files : Files) (path q : List ℕ) (content : Option (List ℕ))
    → bytes_eq q path ≡ false
    → put_file files path content q ≡ files q
put_file_other files path q content other = rw other

module _ {R : Type 0} (host : Host R) (crc : Checksum) (sha : List ℕ → List ℕ) where
  run_decode-Finishes :
      (max_output : ℕ) (opened : Result String R)
      → Finishes host (run_decode host crc sha max_output opened)
  unfolding run_decode
  run_decode-Finishes max_output (err e) = refl
  run_decode-Finishes max_output (ok r) =
      decode-Finishes host max_output _ r _ nothing_copied (omega arith)

  -- A run ends, whatever the operating system and the decoders answer.
  pub stream-is_some :
      (files : Files) (input_path output_path : List ℕ) (tag max_output : ℕ)
      → is_some (decompress_stream_to_file host crc sha files input_path output_path tag max_output)
        ≡ true
  unfolding decompress_stream_to_file open_stream stream_opened stream_created
  stream-is_some files input_path output_path tag max_output =
      opening (host.open_fails input_path) (files input_path)
    where
      created :
          (done : Option (Copied × Result Error (Unit {0})))
          → is_some done ≡ true
          → is_some (stream_created host crc sha files output_path done) ≡ true
      created none h = cc
      created (some done) h = refl

      opened :
          (bytes : List ℕ) (fails : Option String)
          → is_some
              (stream_opened host crc sha files input_path output_path bytes tag max_output fails)
            ≡ true
      opened bytes (some e) = refl
      opened bytes none = created _ (run_decode-Finishes max_output _)

      opening :
          (fails : Option String) (input : Option (List ℕ))
          → is_some
              (open_stream host crc sha files input_path output_path tag max_output fails input)
            ≡ true
      opening (some e) input = refl
      opening none none = refl
      opening none (some bytes) = opened bytes (host.create_fails output_path)

  -- The output file after a run that succeeded: it holds the whole stream of the decoder, the outcome
  -- describes these bytes, and they keep to the limit.
  pub record Recovered (files : Files) (path : List ℕ) (max_output : ℕ) (stream : List ℕ)
      (outcome : DecompressStreamOutcome) : Type 0 where
    pub file : files path ≡ some stream
    pub size : outcome.output_size ≡ length stream
    pub checksum : outcome.crc32 ≡ crc.digest stream
    pub hash : outcome.sha256 ≡ sha stream
    pub within : length stream ≤ max_output

  abbrev pub SameElsewhere : Files → Files → List ℕ → Type 0
  SameElsewhere files after path = (q : List ℕ) → bytes_eq q path ≡ false → after q ≡ files q

  module _ (left : R → List ℕ) (law : IsReader host left) (max_output : ℕ)
      (bound : max_output < 2 ^ 64 - 1) where
    -- The result of a run that began with some files and was to read a decoder of the input.
    abbrev pub Leaves :
        Files → List ℕ → Result String R → Files × Result Error DecompressStreamOutcome → Type 0
    Leaves files path opened (after, err e) =
        SameElsewhere files after path × ((after path ≡ none) ⊎ (after path ≡ files path))
    Leaves files path opened (after, ok outcome) =
        SameElsewhere files after path
        × (r : R) × (opened ≡ ok r)
        × Recovered after path max_output (left r) outcome

    removed :
        (files : Files) (path : List ℕ)
        → host.removes path ≡ true
        → SameElsewhere files (remove_file host (put_file files path (some [])) path) path
          × (remove_file host (put_file files path (some [])) path path ≡ none)
    unfolding remove_file
    removed files path h =
        rw h ((λ q other. rw other), put_file_self (put_file files path (some [])) path none)

    start : Copying host max_output (saturating_add max_output 1) nothing_copied
    start = record {
      hashed = refl;
      counted = refl;
      within = omega arith;
      budget = omega (arith, bound);
    }

    copied :
        (opened : Result String R) (c : Copied)
        → run_decode host crc sha max_output opened ≡ some (c, ok tt)
        → c.over ≡ false
        → (r : R) × (opened ≡ ok r) × Whole host max_output (left r) c
    unfolding run_decode
    copied (err e) c done fits = cc
    copied (ok r) c done fits = (
      r,
      refl,
      decode-Whole host left law max_output bound _ r _ nothing_copied c start done fits,
    )

    flushed :
        (files : Files) (path : List ℕ) (opened : Result String R) (c : Copied)
        (fails : Option String)
        → host.removes path ≡ true
        → (r : R) × (opened ≡ ok r) × Whole host max_output (left r) c
        → Leaves files path opened
            (finish_flush host crc sha (put_file files path (some [])) path c fails)
    unfolding finish_flush
    flushed files path opened c (some e) removes w =
        let (others, gone) = removed files path removes in (others, inl gone)
    flushed files path opened c none removes (r, is_open, w) = (
      (λ q other. rw other),
      r,
      is_open,
      record {
        file =
            put_file_self (put_file files path (some [])) path (some c.output) ∙ ap some w.content;
        size = w.counted ∙ ap length w.content;
        checksum = ap crc.digest (w.hashed ∙ w.content);
        hash = ap sha (w.hashed ∙ w.content);
        within = subst (λ (xs : List ℕ). length xs ≤ max_output) w.content w.within;
      },
    )

    ended :
        (files : Files) (path : List ℕ) (opened : Result String R)
        (done : Copied × Result Error (Unit {0}))
        → host.removes path ≡ true
        → run_decode host crc sha max_output opened ≡ some done
        → Leaves files path opened
            (finish_stream host crc sha (put_file files path (some [])) path done)
    unfolding finish_stream finish_flush
    ended files path opened (c, err e) removes ran =
        let (others, gone) = removed files path removes in (others, inl gone)
    ended files path opened (c, ok u) removes ran = elim (Bool-cases c.over) [
      | inl over ↦ rw over (let (others, gone) = removed files path removes in (others, inl gone))
      | inr fits ↦ rw fits (flushed files path opened c _ removes (copied opened c ran fits))
    ]

    -- For a limit below 2^64 - 1: when the input has some bytes and is not the output, and the operating
    -- system can remove the output, a run that succeeds leaves an output that holds the whole stream of the
    -- decoder that the tag names over these bytes, with the size and the checksums that the outcome reports,
    -- within the limit; a run that fails leaves the output removed, or as it was. No other file changes.
    -- The readers keep the promises of `Read`.
    pub stream-Leaves :
        (files : Files) (input_path output_path bytes : List ℕ) (tag : ℕ)
        (end : Files × Result Error DecompressStreamOutcome)
        → bytes_eq input_path output_path ≡ false
        → files input_path ≡ some bytes
        → host.removes output_path ≡ true
        → decompress_stream_to_file host crc sha files input_path output_path tag max_output
          ≡ some end
        → Leaves files output_path (open_decoder host crc sha input_path bytes tag) end
    unfolding decompress_stream_to_file open_stream stream_opened stream_created
    stream-Leaves files input_path output_path bytes tag end apart found removes ran =
        opening (host.open_fails input_path) (rw found at ran)
      where
        created :
            (opened : Result String R) (done : Option (Copied × Result Error (Unit {0})))
            → run_decode host crc sha max_output opened ≡ done
            → stream_created host crc sha files output_path done ≡ some end
            → Leaves files output_path opened end
        created opened none same ran = cc
        created opened (some done) same ran =
            subst (Leaves files output_path opened) (some_inj ran)
              (ended files output_path opened done removes same)

        untouched :
            (opened : Result String R) (e : Error)
            → some (files, err e) ≡ some end
            → Leaves files output_path opened end
        untouched opened e ran =
            subst (Leaves files output_path opened) (some_inj ran) ((λ q other. refl), inr refl)

        creating :
            (fails : Option String)
            → stream_opened host crc sha files input_path output_path bytes tag max_output fails
              ≡ some end
            → Leaves files output_path (open_decoder host crc sha input_path bytes tag) end
        creating (some e) ran = untouched _ _ ran
        creating none ran = created _ _ refl (rw apart at ran)

        opening :
            (fails : Option String)
            → open_stream host crc sha files input_path output_path tag max_output fails
                (some bytes)
              ≡ some end
            → Leaves files output_path (open_decoder host crc sha input_path bytes tag) end
        opening (some e) ran = untouched _ _ ran
        opening none ran = creating (host.create_fails output_path) ran
