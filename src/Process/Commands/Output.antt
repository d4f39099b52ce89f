-- ===== src/Process/Commands/Output.antt =====
-- What `executeCommand` returns, and that it ends.
use libsarus.Base.{
  ℕ, zero, suc, ◌<◌, Text, codes, length, count, ◌++◌, [], Option, none, some, Option-cases, inl,
  inr, ◌≡◌, ◌↔◌, refl, sym, ap, ◌∙◌, arith,
}
use libsarus.Error.{Result, ok, throws, Error, Exception, sarus, format, text, end, rethrow_error}
use libsarus.System.Monad.{◌>>=◌}
use libsarus.Process.Commands.{
  Shell, read_c_stream, execute_command, exited, signaled, stopped, open_pipe, close_pipe,
  read_output, command_result, WaitStatus,
}
use libsarus.Process.Commands.Reading.{ReadsFail, IsStream, read_c_stream-contents, thrown_by}

module _ (sh : Shell) (contents : sh.Stream → Text) (laws : IsStream sh contents) where
  -- A command that runs and whose output is read: it is started, no read fails, and it ends with
  -- status 0.
  pub record Runs (command : Text) (s : sh.State) (output : Text) (s' : sh.State) : Type 0 where
    pub pipe : sh.Stream
    pub started : sh.State
    pub is_started : sh.popen (command ++ codes " 2>&1") s ≡ (some pipe, started)
    pub no_failure : ¬ ReadsFail sh pipe
    pub is_output : output ≡ contents pipe
    pub is_closed : sh.pclose pipe started ≡ (some (exited 0), s')

  command_result-ok :
      (command output : Text) (status : Option WaitStatus) (s : sh.State) (out : Text)
      → command_result sh command output status s ≡ ok out
      → (status ≡ some (exited 0)) × (output ≡ out)
  unfolding command_result
  command_result-ok command output none s out h = cc h
  command_result-ok command output (some (exited zero)) s out h = (refl, cc h)
  command_result-ok command output (some (exited (suc n))) s out h = ground arith
  command_result-ok command output (some signaled) s out h = cc h
  command_result-ok command output (some stopped) s out h = cc h

  abbrev redirected : Text → Text
  redirected command = command ++ codes " 2>&1"

  -- What comes of a command: it does not start, or its output cannot be read, or the status of
  -- the closed pipe decides.
  data Outcome (fuel : ℕ) (command : Text) (s : sh.State) : Type 0 where
    not_started :
        {e : Exception}
        → (sh.popen (redirected command) s).0 ≡ none
        → execute_command sh fuel command s ≡ some (throws e, (sh.popen (redirected command) s).1)
        → Outcome fuel command s
    not_read :
        {e : Exception} {pipe : sh.Stream}
        → (sh.popen (redirected command) s).0 ≡ some pipe
        → ReadsFail sh pipe
        → execute_command sh fuel command s ≡ some (throws e, (sh.popen (redirected command) s).1)
        → Outcome fuel command s
    closed :
        {pipe : sh.Stream}
        → (sh.popen (redirected command) s).0 ≡ some pipe
        → ¬ ReadsFail sh pipe
        → execute_command sh fuel command s
          ≡ (close_pipe sh (redirected command) pipe (contents pipe))
              (sh.popen (redirected command) s).1
        → Outcome fuel command s

  read_output_ok :
      (fuel : ℕ) (command output : Text) (pipe : sh.Stream) (t : sh.State)
      → read_c_stream sh fuel pipe [] ≡ some (ok output)
      → read_output sh fuel command pipe t ≡ some (ok output, t)
  unfolding read_output
  read_output_ok fuel command output pipe t h = rw (read_output, h) refl

  read_output_throws :
      (fuel : ℕ) (command : Text) (pipe : sh.Stream) (t : sh.State) (e : Error)
      → read_c_stream sh fuel pipe [] ≡ some (throws (sarus e))
      → (x : Exception) × (read_output sh fuel command pipe t ≡ some (throws x, t))
  unfolding read_output
  read_output_throws fuel command pipe t e h = (
    rethrow_error (sarus e) "executeCommand"
        (format "Failed to read stdout from command \"%s\"" (text command end)),
    rw (read_output, h) refl,
  )

  outcome :
      (fuel : ℕ) (command : Text) (s : sh.State)
      → ((pipe : sh.Stream)
          → (sh.popen (redirected command) s).0 ≡ some pipe
          → (suc (length (contents pipe)) < fuel) × (count 0 (contents pipe) ≡ 0))
      → Outcome fuel command s
  unfolding execute_command
  outcome fuel command s enough = elim (Option-cases (sh.popen (redirected command) s).0) [
    | inl e ↦
        not_started
          {e = sarus (
            thrown_by "executeCommand" (
              format "Failed to execute command \"%s\". Call to popen() failed (%s)" (
                text (redirected command)
                  (text (sh.strerror (sh.popen (redirected command) s).1) end))))}
          e (rw (e, execute_command, open_pipe, ◌>>=◌) refl)
    | inr (pipe, e) ↦
        let (fits, no_null) = enough pipe e in
        elim (read_c_stream-contents sh contents laws fuel pipe [] fits no_null) [
          | inl (reads, runs) ↦ closed e reads (
              rw
                (
                  e,
                  execute_command,
                  open_pipe,
                  ◌>>=◌,
                  read_output_ok fuel (redirected command) (contents pipe) pipe
                      (sh.popen (redirected command) s).1 runs,
                )
                refl)
          | inr (fails, x, runs) ↦
              let (y, thrown) =
                read_output_throws fuel (redirected command) pipe
                  (sh.popen (redirected command) s).1 x runs in
              not_read {e = y} e fails (rw (e, execute_command, open_pipe, ◌>>=◌, thrown) refl)
        ]
  ]

  popen-eq :
      (command : Text) (s : sh.State) (o : Option sh.Stream)
      → (sh.popen command s).0 ≡ o
      → sh.popen command s ≡ (o, (sh.popen command s).1)
  popen-eq command s o h = ap (λ x. (x, (sh.popen command s).1)) h

  closed-Runs :
      {pipe : sh.Stream} (fuel : ℕ) (command : Text) (s : sh.State) (output : Text) (s' : sh.State)
      → (sh.popen (redirected command) s).0 ≡ some pipe
      → ¬ ReadsFail sh pipe
      → execute_command sh fuel command s
        ≡ close_pipe sh
            (redirected command)
            pipe
            (contents pipe)
            (sh.popen (redirected command) s).1
      → execute_command sh fuel command s ≡ some (ok output, s')
      → Runs command s output s'
  closed-Runs {pipe} fuel command s output s' e reads runs h =
      let t : sh.State = (sh.popen (redirected command) s).1 in
      let status : Option WaitStatus × sh.State = sh.pclose pipe t in
      let result : command_result sh (redirected command) (contents pipe) status.0 status.1
          ≡ ok output =
        cc (runs, h) in
      let after : status.1 ≡ s' = cc (runs, h) in
      let (zero_status, same) = command_result-ok _ _ _ _ _ result in
      record {
        pipe = pipe;
        started = t;
        is_started = popen-eq (redirected command) s (some pipe) e;
        no_failure = reads;
        is_output = sym same;
        is_closed = cc (zero_status, after);
      }

  Runs-closed :
      {pipe : sh.Stream} (fuel : ℕ) (command : Text) (s : sh.State) (output : Text) (s' : sh.State)
      → (sh.popen (redirected command) s).0 ≡ some pipe
      → execute_command sh fuel command s
        ≡ close_pipe sh
            (redirected command)
            pipe
            (contents pipe)
            (sh.popen (redirected command) s).1
      → Runs command s output s'
      → execute_command sh fuel command s ≡ some (ok output, s')
  unfolding command_result
  Runs-closed {pipe} fuel command s output s' e runs r =
      let t : sh.State = (sh.popen (redirected command) s).1 in
      let same : r.pipe ≡ pipe = cc (e, ap (λ x. x.0) r.is_started) in
      let state : r.started ≡ t = sym (ap (λ x. x.1) r.is_started) in
      let now : sh.pclose pipe t ≡ (some (exited 0), s') = rw (same, state) at r.is_closed in
      let whole : contents pipe ≡ output = sym (ap contents same) ∙ sym r.is_output in
      runs
      ∙ (ap (λ c. some (command_result sh (redirected command) (contents pipe) c.0 c.1, c.1)) now
          ∙ ap (λ o. some (ok o, s')) whole)

  -- For a stream with its laws, enough fuel for the bytes of the output and two more, and an
  -- output without null characters: `executeCommand` returns or throws, and it returns exactly
  -- when the command is started, no call of fgets(3) fails and the command ends with status 0;
  -- what it returns is the whole output.
  pub execute_command-Runs :
      (fuel : ℕ) (command : Text) (s : sh.State)
      → ((pipe : sh.Stream) (t : sh.State)
          → sh.popen (command ++ codes " 2>&1") s ≡ (some pipe, t)
          → (suc (length (contents pipe)) < fuel) × (count 0 (contents pipe) ≡ 0))
      → ((r : Result Text) × (s' : sh.State) × (execute_command sh fuel command s ≡ some (r, s')))
        × ((output : Text) (s' : sh.State)
            → (execute_command sh fuel command s ≡ some (ok output, s')) ↔ Runs command s output s')
  execute_command-Runs fuel command s enough =
      elim (outcome fuel command s
        (λ pipe e. enough pipe _ (popen-eq (redirected command) s (some pipe) e))) [
          | not_started e runs ↦ (
            (_, _, runs),
            λ output s'. ((λ h. cc (runs, h)), λ r. cc (e, ap (λ x. x.0) r.is_started)),
          )
          | not_read {pipe} e fails runs ↦ (
            (_, _, runs),
            λ output s'. (
              (λ h. cc (runs, h)),
              λ r.
                  let same : pipe ≡ r.pipe = cc (e, ap (λ x. x.0) r.is_started) in
                  absurd (r.no_failure (rw same at fails)),
            ),
          )
          | closed {pipe} e reads runs ↦ (
            (_, _, runs),
            λ output s'. (
              closed-Runs fuel command s output s' e reads runs,
              Runs-closed fuel command s output s' e runs,
            ),
          )
        ]
