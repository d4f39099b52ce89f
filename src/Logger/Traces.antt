-- ===== src/Logger/Traces.antt =====
-- A printed trace has the entry that was added last first, and the error that was thrown last.
use libsarus.Base.{
  ℕ, zero, suc, ◌+◌, ◌-◌, ◌<◌, Text, codes, false, List, [], ◌∷◌, ◌++◌, length, get_elem?, take,
  ltb, if◌then◌else◌, some, ◌≡◌, refl, sym, ap, ◌∙◌, arith, append_assoc, append-nil, Bool-cases,
  inl, inr,
}
use mathlib.Core.List.{reverse, reverse-append}
use libsarus.Error.{LogLevel, error, ok, ErrorTraceEntry, Error, get_error_trace}
use libsarus.Logger.{
  severity, Line, message_line, trace_line, Streams, Circumstances, print_trace, printed, written,
  after_heading, log, log_error_trace, full_log_message, write_line,
}

-- The lines of entries, numbered from a number on.
abbrev pub numbered : ℕ → List ErrorTraceEntry → List Line
numbered i [] = []
numbered i (e ∷ es) = trace_line i e ∷ numbered (suc i) es

-- A list up to an index in range ends with the element there.
take-suc {ℓ} :
    {A : Type ℓ} (n : ℕ) (xs : List A)
    → n < length xs
    → (x : A) × (get_elem? xs n ≡ some x) × (take (suc n) xs ≡ take n xs ++ (x ∷ []))
take-suc n [] h = absurd (omega (arith, h))
take-suc zero (x ∷ xs) h = (x, refl, refl)
take-suc (suc n) (x ∷ xs) h =
    let (y, at, is) = take-suc n xs (omega (arith, h)) in (y, at, ap (x ∷◌) is)

take-length {ℓ} : {A : Type ℓ} (xs : List A) → take (length xs) xs ≡ xs
take-length [] = refl
take-length (x ∷ xs) = ap (x ∷◌) (take-length xs)

module _ (show : ℕ → Text) (now : Circumstances) where
  print_trace_step :
      (trace : List ErrorTraceEntry) (left i : ℕ) (x : ErrorTraceEntry)
      → get_elem? trace (length trace - i - 1) ≡ some x
      → print_trace show now trace (suc left) i
        ≡ trace_line i x ∷ print_trace show now trace left (suc i)
  unfolding print_trace
  print_trace_step trace left i x h =
      ap (λ o. printed show now i o (print_trace show now trace left (suc i))) h

  print_trace-reverse :
      (trace : List ErrorTraceEntry) (left i : ℕ)
      → left + i ≡ length trace
      → print_trace show now trace left i ≡ numbered i (reverse (take left trace))
  unfolding print_trace
  print_trace-reverse trace zero i h = refl
  print_trace-reverse trace (suc left) i h =
      let (x, at, is) = take-suc left trace (omega (arith, h)) in
      let index : length trace - i - 1 ≡ left = omega (arith, h) in
      print_trace_step trace left i x (rw index at)
      ∙ (ap (trace_line i x ∷◌) (print_trace-reverse trace left (suc i) (omega (arith, h)))
          ∙ ap (numbered i) (sym (ap reverse is ∙ reverse-append (take left trace) (x ∷ []))))

  abbrev pub heading : LogLevel → Text → List Line
  heading level full = if ltb (severity error) (severity level) then [] else message_line full ∷ []

  log-heading :
      (level : LogLevel) (message system full : Text) (s : Streams)
      → full_log_message show now message system error ≡ ok full
      → log show now level message system error s
        ≡ (ok tt, record s { err = s.err ++ heading level full })
  unfolding log write_line
  log-heading level message system full s h =
      elim (Bool-cases (ltb (severity error) (severity level))) [
        | inl e ↦ rw e (ap (λ l. (ok tt, record s { err = l })) (sym (append-nil s.err)))
        | inr e ↦ rw e (ap (written show now error s) h)
      ]

  -- For an error whose level is not below the logger's, and when the prefix of the heading can be
  -- made, `logErrorTrace` returns and writes to the error stream alone: the heading, unless the
  -- logger's level is above ERROR, and then the trace in reverse, numbered from 0.
  pub log_error_trace-reverse :
      (level : LogLevel) (e : Error) (system full : Text) (s : Streams)
      → ltb (severity e.log_level) (severity level) ≡ false
      → full_log_message show now (codes "Error trace (most nested error last):") system error
        ≡ ok full
      → log_error_trace show now level e system s ≡ (
        ok tt,
        record s {
          err = s.err ++ (heading level full ++ numbered 0 (reverse (get_error_trace e)));
        },
      )
  unfolding log_error_trace
  log_error_trace-reverse level e system full s high h =
      let trace = get_error_trace e in
      let lines : print_trace show now trace (length trace) 0 ≡ numbered 0 (reverse trace) =
        print_trace-reverse trace (length trace) 0 (omega arith)
        ∙ ap (λ t. numbered 0 (reverse t)) (take-length trace) in
      let title = codes "Error trace (most nested error last):" in
      rw high (
        ap (after_heading show now (print_trace show now trace (length trace) 0))
          (log-heading level title system full s h)
        ∙ (ap (λ l. (ok tt, record s { err = (s.err ++ heading level full) ++ l })) lines
            ∙ ap (λ l. (ok tt, record s { err = l }))
                (append_assoc s.err (heading level full) (numbered 0 (reverse trace)))))
