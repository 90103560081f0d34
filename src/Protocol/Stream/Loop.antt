-- ===== src/Protocol/Stream/Loop.antt =====
-- The loop of `decompress_stream_to_file` (core/qr-protocol/src/compress.rs).
use air_ferry.Prelude.{
  ℕ, zero, suc, ◌+◌, ◌-◌, ◌^◌, ◌≤◌, ◌<◌, ◌≡◌, refl, sym, ap, min, inl, inr, true, false, ltb, ◌==◌,
  List, [], ◌∷◌, ◌++◌, length, Option, none, some, Result, ok, err, String, Bool-cases,
  Option-cases, append_assoc, append-nil, length-append, some_inj, is_some, subst, ◌∙◌, arith,
}
use air_ferry.Protocol.Frame.{saturating_add}
use air_ferry.Protocol.Errors.{Error}
use air_ferry.Protocol.Stream.{
  Host, Copied, take_read, after_write, after_read, decode, buffer_size,
}

module _ {R : Type 0} (host : Host R) where
  -- What `Read` promises: no more bytes than asked for, the bytes that come are the next ones of the
  -- stream, and no bytes come only at its end.
  pub record IsReader (left : R → List ℕ) : Type 0 where
    pub split :
        (r : R) (n : ℕ) (bs : List ℕ)
        → (host.read r n).1 ≡ ok bs
        → left r ≡ bs ++ left (host.read r n).0
    pub bounded : (r : R) (n : ℕ) (bs : List ℕ) → (host.read r n).1 ≡ ok bs → length bs ≤ n
    pub ended : (r : R) (n : ℕ) → 0 < n → (host.read r n).1 ≡ ok [] → left r ≡ []

  abbrev pub Finishes : Option (Copied × Result Error (Unit {0})) → Type 0
  Finishes o = is_some o ≡ true

  after_write-Finishes :
      (rest : Copied → Option (Copied × Result Error (Unit {0}))) (c : Copied) (chunk : List ℕ)
      (e : Option String)
      → ((c' : Copied) → Finishes (rest c'))
      → Finishes (after_write host rest c chunk e)
  unfolding after_write
  after_write-Finishes rest c chunk (some e) h = refl
  after_write-Finishes rest c chunk none h = h (record c { output = c.output ++ chunk })

  after_read-Finishes :
      (max_output : ℕ) (rest : R → ℕ → Copied → Option (Copied × Result Error (Unit {0})))
      (limit : ℕ) (c : Copied) (q : R × Result String (List ℕ))
      → ((r : R) (l : ℕ) (c' : Copied) → l < limit → Finishes (rest r l c'))
      → 0 < limit
      → Finishes (after_read host max_output rest limit c q)
  unfolding after_read
  after_read-Finishes max_output rest limit c (r, err e) h pos = refl
  after_read-Finishes max_output rest limit c (r, ok []) h pos = refl
  after_read-Finishes max_output rest limit c (r, ok (b ∷ bs)) h pos =
      elim (Bool-cases (ltb max_output (saturating_add c.written (length (b ∷ bs))))) [
        | inl over ↦ rw over
        | inr more ↦ rw more (
            after_write-Finishes _ _ (b ∷ bs) _
              (λ c'. h r (limit - length (b ∷ bs)) c' (omega arith)))
      ]

  -- With more fuel than bytes that may still be read, the loop comes to its end, whatever is read.
  pub decode-Finishes :
      (max_output fuel : ℕ) (r : R) (limit : ℕ) (c : Copied)
      → limit < fuel
      → Finishes (decode host max_output fuel r limit c)
  unfolding decode take_read after_read
  decode-Finishes max_output zero r limit c h = elim h [ ]
  decode-Finishes max_output (suc fuel) r zero c h = refl
  decode-Finishes max_output (suc fuel) r (suc limit) c h =
      after_read-Finishes max_output (decode host max_output fuel) (suc limit) c _
        (λ r' l c' less. decode-Finishes max_output fuel r' l c' (omega (arith, less, h)))
        (omega arith)

  -- What holds between two rounds.
  pub record Copying (max_output limit : ℕ) (c : Copied) : Type 0 where
    pub hashed : c.hashed ≡ c.output
    pub counted : c.written ≡ length c.output
    pub within : length c.output ≤ max_output
    pub budget : length c.output + limit ≡ max_output + 1

  -- What holds at the end of the loop, `stream` being the decoder's stream.
  pub record Whole (max_output : ℕ) (stream : List ℕ) (c : Copied) : Type 0 where
    pub hashed : c.hashed ≡ c.output
    pub counted : c.written ≡ length c.output
    pub within : length c.output ≤ max_output
    pub content : c.output ≡ stream

  module _ (left : R → List ℕ) (law : IsReader left) (max_output : ℕ)
      (bound : max_output < 2 ^ 64 - 1) where
    chunk-Copying :
        (limit : ℕ) (c : Copied) (chunk : List ℕ)
        → length chunk ≤ limit
        → Copying max_output limit c
        → ltb max_output (saturating_add c.written (length chunk)) ≡ false
        → Copying max_output (limit - length chunk) (record c {
          written = saturating_add c.written (length chunk);
          hashed = c.hashed ++ chunk;
          output = c.output ++ chunk;
        })
    chunk-Copying limit c chunk short h fits = record {
      hashed = ap (λ (bs : List ℕ). bs ++ chunk) h.hashed;
      counted = ground (arith, h.counted, h.within, length-append c.output chunk);
      within = ground (arith, h.counted, length-append c.output chunk);
      budget = omega (arith, h.budget, length-append c.output chunk);
    }

    read-Whole :
        (fuel limit : ℕ) (r : R) (c c' : Copied) (q : R × Result String (List ℕ))
        → host.read r (min buffer_size (suc limit)) ≡ q
        → Copying max_output (suc limit) c
        → ((r' : R) (l : ℕ) (d : Copied)
            → Copying max_output l d
            → decode host max_output fuel r' l d ≡ some (c', ok tt)
            → Whole max_output (d.output ++ left r') c')
        → after_read host max_output (decode host max_output fuel) (suc limit) c q
          ≡ some (c', ok tt)
        → c'.over ≡ false
        → Whole max_output (c.output ++ left r) c'
    unfolding after_read after_write
    read-Whole fuel limit r c c' (r', err e) same h ih done fits = cc
    read-Whole fuel limit r c c' (r', ok []) same h ih done fits =
        let last : c ≡ c' = ap (λ (o : Copied × Result Error (Unit {0})). o.0) (some_inj done) in
        let empty : left r ≡ [] =
          law.ended r (min buffer_size (suc limit)) (omega arith)
            (ap (λ (o : R × Result String (List ℕ)). o.1) same) in
        subst (Whole max_output (c.output ++ left r)) last (record {
          hashed = h.hashed;
          counted = h.counted;
          within = h.within;
          content = rw empty (sym (append-nil c.output));
        })
    read-Whole fuel limit r c c' (r', ok (b ∷ bs)) same h ih done fits =
        let chunk = b ∷ bs in
        let res = ap (λ (o : R × Result String (List ℕ)). o.1) same in
        let short : length (b ∷ bs) ≤ suc limit =
          omega (arith, law.bounded r (min buffer_size (suc limit)) (b ∷ bs) res) in
        let next : left r ≡ (b ∷ bs) ++ left r' =
          law.split r (min buffer_size (suc limit)) (b ∷ bs) res
          ∙ ap (λ (x : R). (b ∷ bs) ++ left x)
              (ap (λ (o : R × Result String (List ℕ)). o.0) same) in
        elim (Bool-cases (ltb max_output (saturating_add c.written (length (b ∷ bs))))) [
          | inl over ↦ cc (rw over at done)
          | inr more ↦ elim (Option-cases (host.write_fails c.output (b ∷ bs))) [
            | inr (e, failed) ↦ cc (rw (more, failed) at done)
            | inl wrote ↦
                subst (λ (xs : List ℕ). Whole max_output xs c')
                  (append_assoc c.output (b ∷ bs) (left r')
                    ∙ ap (λ (xs : List ℕ). c.output ++ xs) (sym next))
                  (ih r' (suc limit - length (b ∷ bs)) _
                    (chunk-Copying (suc limit) c (b ∷ bs) short h more) (rw (more, wrote) at done))
          ]
        ]

    pub decode-Whole :
        (fuel : ℕ) (r : R) (limit : ℕ) (c c' : Copied)
        → Copying max_output limit c
        → decode host max_output fuel r limit c ≡ some (c', ok tt)
        → c'.over ≡ false
        → Whole max_output (c.output ++ left r) c'
    unfolding decode take_read
    decode-Whole zero r limit c c' h done fits = cc
    decode-Whole (suc fuel) r zero c c' h done fits = absurd (omega (arith, h.within, h.budget))
    decode-Whole (suc fuel) r (suc limit) c c' h done fits =
        let more : (suc limit == 0) ≡ false = ground arith in
        read-Whole fuel limit r c c' (host.read r (min buffer_size (suc limit))) refl h
          (λ r' l d good going. decode-Whole fuel r' l d c' good going fits) (rw more at done) fits
