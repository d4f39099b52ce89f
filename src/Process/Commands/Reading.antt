-- ===== src/Process/Commands/Reading.antt =====
-- `readCStream` reads the whole stream, unless a call of fgets(3) fails.
use libsarus.Base.{
  ℕ, zero, suc, ◌+◌, ◌<◌, Text, length, length-append, count, count-append, true, false, not, ◌++◌,
  [], ◌∷◌, if◌then◌else◌, none, some, Bool-cases, inl, inr, String, ◌≡◌, ◌≢◌, ◌⊎◌, refl, sym, ap,
  ◌∙◌, arith, append_assoc, append-nil,
}
use libsarus.Error.{ok, throws, Error, sarus, error, plain, Message}
use libsarus.Process.Commands.{Shell, read_c_stream, c_string, written, go_on}

zero_or_more : (n : ℕ) → (n ≡ 0) ⊎ ((m : ℕ) × (n ≡ suc m))
zero_or_more zero = inl refl
zero_or_more (suc n) = inr (n, refl)

-- The error that a throw makes.
abbrev pub thrown_by : String → Message → Error
thrown_by function m = record {
  log_level = error;
  first_entry = record { error_message = m; function_name = function };
  later_entries = [];
}

module _ (sh : Shell) where
  -- Reading a stream fails at its first call of fgets(3), or after some that succeed.
  pub data ReadsFail : sh.Stream → Type 0 where
    fails_here :
        {i : sh.Stream}
        → sh.feof i ≡ false
        → (sh.fgets i).0 ≡ none
        → sh.feof (sh.fgets i).1 ≡ false
        → ReadsFail i
    fails_later :
        {i : sh.Stream} {b : Text}
        → sh.feof i ≡ false
        → (sh.fgets i).0 ≡ some b
        → ReadsFail (sh.fgets i).1
        → ReadsFail i

  -- What the manual pages say of a stream, whose bytes are `contents`.
  pub record IsStream (contents : sh.Stream → Text) : Type 0 where
    pub feof-contents : (i : sh.Stream) → sh.feof i ≡ true → contents i ≡ []
    -- a call gives some of the bytes, or meets the end, or fails
    pub fgets_lem :
        (i : sh.Stream)
        → ((b : Text) × ((sh.fgets i).0 ≡ some b)
            × (b ≢ [])
            × (contents i ≡ b ++ contents (sh.fgets i).1))
          ⊎ ((sh.fgets i).0 ≡ none)
            × ((sh.feof (sh.fgets i).1 ≡ false)
                ⊎ (contents i ≡ [])
                  × (contents (sh.fgets i).1 ≡ [])
                  × (sh.feof (sh.fgets i).1 ≡ true))

  module _ (contents : sh.Stream → Text) (laws : IsStream contents) where
    -- One round of the loop.
    round_end :
        (fuel : ℕ) (i : sh.Stream) (out : Text)
        → sh.feof i ≡ true
        → read_c_stream sh (suc fuel) i out ≡ some (ok out)
    unfolding read_c_stream
    round_end fuel i out eof = rw eof refl

    round_chunk :
        (fuel : ℕ) (i : sh.Stream) (out b : Text)
        → sh.feof i ≡ false
        → (sh.fgets i).0 ≡ some b
        → read_c_stream sh (suc fuel) i out
          ≡ read_c_stream sh fuel (sh.fgets i).1 (out ++ c_string sh b)
    unfolding read_c_stream
    round_chunk fuel i out b go got = rw go (
        ap
          (λ o.
            go_on sh (read_c_stream sh fuel (sh.fgets i).1 (written sh out o))
              (sh.feof (sh.fgets i).1) o)
          got)

    round_none :
        (fuel : ℕ) (i : sh.Stream) (out : Text)
        → sh.feof i ≡ false
        → (sh.fgets i).0 ≡ none
        → (e : Error) × (read_c_stream sh (suc fuel) i out ≡ (
            if not (sh.feof (sh.fgets i).1)
            then some (throws (sarus e))
            else read_c_stream sh fuel (sh.fgets i).1 out))
    unfolding read_c_stream
    round_none fuel i out go got = (
      thrown_by "readCStream" (plain "Failed to read C stream: call to fgets() failed."),
      rw go (
          ap
            (λ o.
              go_on sh (read_c_stream sh fuel (sh.fgets i).1 (written sh out o))
                (sh.feof (sh.fgets i).1) o)
            got),
    )

    feof-reads : (i : sh.Stream) → sh.feof i ≡ true → ¬ ReadsFail i
    feof-reads i eof (fails_here go n f) = cc
    feof-reads i eof (fails_later go got f) = cc

    chunk-reads :
        (i : sh.Stream) (b : Text)
        → (sh.fgets i).0 ≡ some b
        → ¬ ReadsFail (sh.fgets i).1
        → ¬ ReadsFail i
    chunk-reads i b got reads (fails_here go n f) = cc
    chunk-reads i b got reads (fails_later go g f) = reads f

    end-reads :
        (i : sh.Stream) → (sh.fgets i).0 ≡ none → sh.feof (sh.fgets i).1 ≡ true → ¬ ReadsFail i
    end-reads i got eof (fails_here go n f) = cc
    end-reads i got eof (fails_later go g f) = cc

    length-positive : (b : Text) → b ≢ [] → 0 < length b
    length-positive [] ne = absurd (ne refl)
    length-positive (c ∷ b) ne = omega arith

    c_string_whole : (b : Text) → count 0 b ≡ 0 → c_string sh b ≡ b
    c_string_whole [] h = refl
    c_string_whole (c ∷ b) h = ground (arith, c_string_whole b)

    pub read_c_stream-contents :
        (fuel : ℕ) (i : sh.Stream) (out : Text)
        → suc (length (contents i)) < fuel
        → count 0 (contents i) ≡ 0
        → (¬ ReadsFail i × (read_c_stream sh fuel i out ≡ some (ok (out ++ contents i))))
          ⊎ (ReadsFail i × (e : Error) × (read_c_stream sh fuel i out ≡ some (throws (sarus e))))
    read_c_stream-contents zero i out enough no_null = absurd (omega (arith, enough))
    read_c_stream-contents (suc fuel) i out enough no_null = elim (Bool-cases (sh.feof i)) [
      | inl eof ↦ inl (
        feof-reads i eof,
        round_end fuel i out eof
            ∙ (rw (laws.feof-contents i eof) (ap (λ t. some (ok t)) (sym (append-nil out)))),
      )
      | inr go ↦ elim (laws.fgets_lem i) [
        | inl (b, got, some_bytes, is) ↦
            let fewer : length (contents i) ≡ length b + length (contents (sh.fgets i).1) =
              ap length is ∙ length-append b (contents (sh.fgets i).1) in
            let nulls : count 0 (contents i) ≡ count 0 b + count 0 (contents (sh.fgets i).1) =
              ap (count 0) is ∙ count-append 0 b (contents (sh.fgets i).1) in
            let chunk : c_string sh b ≡ b = c_string_whole b (omega (arith, nulls, no_null)) in
            let runs = round_chunk fuel i out b go got in
            let wrote : (out ++ c_string sh b) ++ contents (sh.fgets i).1 ≡ out ++ contents i =
              rw chunk (append_assoc out b (contents (sh.fgets i).1)) ∙ ap (out ++◌) (sym is) in
            elim (read_c_stream-contents fuel (sh.fgets i).1 (out ++ c_string sh b)
              (omega (arith, fewer, enough, length-positive b some_bytes))
              (omega (arith, nulls, no_null))) [
                | inl (reads, rest) ↦
                    inl (chunk-reads i b got reads, runs ∙ (rest ∙ ap (λ t. some (ok t)) wrote))
                | inr (fails, e, rest) ↦ inr (fails_later go got fails, e, runs ∙ rest)
              ]
        | inr (none_got, inl failed) ↦
            let (e, runs) = round_none fuel i out go none_got in
            inr (fails_here go none_got failed, e, runs ∙ rw failed refl)
        | inr (none_got, inr (here, after, eof)) ↦
            let (e, runs) = round_none fuel i out go none_got in
            elim (zero_or_more fuel) [
              | inl none_left ↦ absurd (omega (arith, none_left, enough))
              | inr (fuel', more) ↦ inl (
                end-reads i none_got eof,
                runs
                    ∙ (rw eof (
                        ap (λ n. read_c_stream sh n (sh.fgets i).1 out) more
                        ∙ (round_end fuel' (sh.fgets i).1 out eof
                            ∙ ap (λ t. some (ok t))
                                (sym (append-nil out) ∙ ap (out ++◌) (sym here))))),
              )
            ]
      ]
    ]
