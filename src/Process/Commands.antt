-- ===== src/Process/Commands.antt =====
-- src/utility/process.cpp: `readCStream` and `executeCommand`. The parameter is an interface of
-- popen(3), the stream that it opens, and pclose(3). What is logged is left out.
pub mod Reading
pub mod Output
use libsarus.Base.{
  ℕ, zero, suc, ◌+◌, Text, codes, length, Bool, true, false, not, ◌++◌, List, [], ◌∷◌, ◌==◌,
  if◌then◌else◌, Option, none, some, String,
}
use libsarus.Error.{
  Result, ok, throws, throw_error, catch_error, plain, Args, format, text, number, end, Error,
  sarus, rethrow_error,
}
use libsarus.Strings.{before}
use libsarus.System.Monad.{M, ◌>>=◌, ◌>>◌, pure, raise, reads, try_catch}

-- What wait(2) tells of a process, for the macros WIFEXITED and WEXITSTATUS; other statuses are
-- those of a process that was signalled or stopped.
pub data WaitStatus : Type 0 where
  exited : ℕ → WaitStatus
  signaled stopped : WaitStatus

pub record Shell : Type 1 where
  pub State : Type 0
  pub Stream : Type 0
  -- the stream of a command that was started
  pub popen : Text → State → Option Stream × State
  pub feof : Stream → Bool
  -- the bytes that fgets(3) puts into a buffer of 1024, or failure
  pub fgets : Stream → Option Text × Stream
  -- `none` is -1
  pub pclose : Stream → State → Option WaitStatus × State
  pub strerror : State → Text

module _ (sh : Shell) where
  -- A C string in the buffer ends at the first null.
  abbrev pub c_string : Text → Text
  c_string buffer = before 0 buffer

  abbrev pub written : Text → Option Text → Text
  written out none = out
  written out (some buffer) = out ++ c_string buffer

  -- After a call of fgets(3): the loop goes on, unless the call failed before the end.
  abbrev pub go_on : Option (Result Text) → Bool → Option Text → Option (Result Text)
  go_on more eof (some buffer) = more
  go_on more eof none =
      if not eof
      then some
          (throw_error "readCStream" (plain "Failed to read C stream: call to fgets() failed."))
      else more

  -- The loop of `readCStream`, from what was written so far. A round takes one unit of fuel.
  unfoldable pub read_c_stream : ℕ → sh.Stream → Text → Option (Result Text)
  read_c_stream zero input out = none
  read_c_stream (suc fuel) input out =
      let (buffer, input') = sh.fgets input in
      let more = read_c_stream fuel input' (written out buffer) in
      if sh.feof input then some (ok out) else go_on more (sh.feof input') buffer

  abbrev throw_in {ℓ} : {A : Type ℓ} → String → Args → Result A
  throw_in m args = throw_error "executeCommand" (format m args)

  abbrev pub open_pipe : Text → M sh.State sh.Stream
  open_pipe command s =
      let (pipe, s') = sh.popen command s in
      elim pipe [
        | some p ↦ some (ok p, s')
        | none ↦ some (
          throw_in "Failed to execute command \"%s\". Call to popen() failed (%s)"
              (text command (text (sh.strerror s') end)),
          s',
        )
      ]

  -- When reading fails, the pipe is not closed.
  abbrev unread : Text → Error → Result Text
  unread command e = throws (
      rethrow_error (sarus e) "executeCommand"
        (format "Failed to read stdout from command \"%s\"" (text command end)))

  unfoldable pub read_output : ℕ → Text → sh.Stream → M sh.State Text
  read_output fuel command pipe s = elim (read_c_stream fuel pipe []) [
    | none ↦ none
    | some r ↦ some (catch_error r (unread command), s)
  ]

  -- What is returned or thrown, by the status that pclose(3) gives.
  unfoldable pub command_result : Text → Text → Option WaitStatus → sh.State → Result Text
  command_result command output none s =
      throw_in "Failed to execute command \"%s\". Call to pclose() failed (%s)"
        (text command (text (sh.strerror s) end))
  command_result command output (some (exited code)) s =
      if not (code == 0)
      then throw_in
          "Failed to execute command \"%s\". Process terminated with status %d. Process' output:\n\n%s"
          (text command (number code (text output end)))
      else ok output
  command_result command output (some _) s =
      throw_in
        "Failed to execute command \"%s\". Process terminated abnormally. Process' output:\n\n%s"
        (text command (text output end))

  abbrev pub close_pipe : Text → sh.Stream → Text → M sh.State Text
  close_pipe command pipe output s =
      let (status, s') = sh.pclose pipe s in some (command_result command output status s', s')

  unfoldable pub execute_command : ℕ → Text → M sh.State Text
  execute_command fuel command =
      let command_with_redirection = command ++ codes " 2>&1" in
      (do
        pipe ← open_pipe command_with_redirection
        output ← read_output fuel command_with_redirection pipe
        close_pipe command_with_redirection pipe output)
