-- ===== src/Process/Children.antt =====
-- src/utility/process.cpp: `forkExecWait`. The parameter is an interface of pipe(2), fork(2),
-- dup2(2), close(2), execvp(3), fdopen(3) and waitpid(2), over that of the streams. What is logged is
-- left out; `shown` is how messages print the arguments. `none` is lack of fuel, and reading a null
-- pointer where fdopen(3) fails.
pub mod Parent
pub mod Ended
use libsarus.Base.{
  ℕ, zero, suc, Text, Bool, true, false, ◌==◌, if◌then◌else◌, Option, none, some, String,
}
use libsarus.Error.{
  Result, ok, throws, throw_error, catch_error, rethrow_error, format, text, end, Error, sarus,
}
use libsarus.CliArguments.{CliArguments}
use libsarus.Process.Commands.{Shell, WaitStatus, exited, signaled, stopped, read_c_stream}
use libsarus.System.Monad.{M, ◌>>=◌, ◌>>◌, pure, raise}

-- How a process leaves the function: it returns the status and what the stream holds, or its program
-- is replaced.
pub data ProcessEnd : Type 0 where
  returned : ℕ → Option Text → ProcessEnd
  replaced : ProcessEnd

-- The ends of a pipe, and what the stream holds so far.
pub record ChildOutput : Type 0 where
  pub read_end : ℕ
  pub write_end : ℕ
  pub held : Text

pub record Forks (sh : Shell) : Type 0 where
  -- `none` is -1
  pub pipe : sh.State → Option (ℕ × ℕ) × sh.State
  -- the process id, which is 0 in the child
  pub fork : sh.State → Option ℕ × sh.State
  pub dup2 : ℕ → ℕ → sh.State → Bool × sh.State
  pub close : ℕ → sh.State → Bool × sh.State
  -- whether the program was replaced
  pub execvp : CliArguments → sh.State → Bool × sh.State
  -- `none` is a null pointer
  pub fdopen : ℕ → sh.State → Option sh.Stream × sh.State
  pub waitpid : ℕ → sh.State → Option WaitStatus × sh.State

abbrev pub is_ended : WaitStatus → Bool
is_ended (exited n) = true
is_ended signaled = true
is_ended stopped = false

module _ (sh : Shell) (forks : Forks sh) (shown : Text) where
  abbrev pub throw_in {ℓ} : {A : Type ℓ} → String → sh.State → Result A
  throw_in m s = throw_error "forkExecWait" (format m (text shown (text (sh.strerror s) end)))

  abbrev pub ignored : {A : Type 0} → (sh.State → A × sh.State) → M sh.State (Unit {0})
  ignored call s = some (ok tt, (call s).1)

  abbrev pub or_throw : {A : Type 0} → String → Option A × sh.State → Option (Result A × sh.State)
  or_throw m (none, s) = some (throw_in m s, s)
  or_throw m (some a, s) = some (ok a, s)

  unfoldable pub open_pipe : Option Text → M sh.State (Option ChildOutput)
  open_pipe none = pure none
  open_pipe (some out) = do
    fds ← λ s. or_throw "Failed to open pipe to execute subprocess %s: %s" (forks.pipe s)
    pure (some (record { read_end = fds.0; write_end = fds.1; held = out }))

  -- `STDOUT_FILENO` is 1.
  unfoldable pub redirect : Option ChildOutput → M sh.State (Unit {0})
  redirect none = pure tt
  redirect (some o) = do
    ignored (forks.dup2 o.write_end 1)
    ignored (forks.close o.read_end)
    ignored (forks.close o.write_end)

  abbrev pub optionally : Option (M sh.State (Unit {0})) → M sh.State (Unit {0})
  optionally none = pure tt
  optionally (some actions) = actions

  abbrev pub exec : Bool × sh.State → Option (Result ProcessEnd × sh.State)
  exec (true, s) = some (ok replaced, s)
  exec (false, s) = some (throw_in "Failed to execvp subprocess %s: %s" s, s)

  unfoldable pub run_child :
      CliArguments → Option ChildOutput → Option (M sh.State (Unit {0})) → M sh.State ProcessEnd
  run_child args output pre_exec = do
    redirect output
    optionally pre_exec
    λ s. exec (forks.execvp args s)

  -- The handler around `readCStream`.
  abbrev pub unread : Error → Result Text
  unread e = throws (
      rethrow_error (sarus e) "forkExecWait"
        (format "Failed to read stdout from subprocess %s" (text shown end)))

  abbrev pub caught : Option (Result Text) → M sh.State (Option Text)
  caught none s = none
  caught (some (ok t)) s = some (ok (some t), s)
  caught (some (throws e)) s = elim (catch_error (throws e) unread) [
    | ok t ↦ some (ok (some t), s)
    | throws x ↦ some (throws x, s)
  ]

  abbrev pub read_from :
      ℕ → Text → Option sh.Stream × sh.State → Option (Result (Option Text) × sh.State)
  read_from fuel held (none, s) = none
  read_from fuel held (some stream, s) = caught (read_c_stream sh fuel stream held) s

  unfoldable pub read_child : ℕ → Option ChildOutput → M sh.State (Option Text)
  read_child fuel none = pure none
  read_child fuel (some o) = do
    ignored (forks.close o.write_end)
    λ s. read_from fuel o.held (forks.fdopen o.read_end s)

  abbrev no_fuel : M sh.State WaitStatus
  no_fuel s = none

  -- A call of waitpid(2) takes one unit of fuel.
  unfoldable pub wait_for : ℕ → ℕ → M sh.State WaitStatus
  wait_for zero pid = no_fuel
  wait_for (suc fuel) pid =
      let rest = wait_for fuel pid in
      ((λ s. or_throw "Failed to waitpid subprocess %s: %s" (forks.waitpid pid s)) >>= λ status.
      if is_ended status then pure status else rest)

  abbrev pub exit_status : Option Text → WaitStatus → Result ProcessEnd
  exit_status out (exited code) = ok (returned code out)
  exit_status out _ =
      throw_error "forkExecWait" (format "Subprocess %s terminated abnormally" (text shown end))

  abbrev pub post_fork : Option (ℕ → M sh.State (Unit {0})) → ℕ → M sh.State (Unit {0})
  post_fork none pid = pure tt
  post_fork (some actions) pid = actions pid

  unfoldable pub run_parent :
      ℕ → ℕ → Option ChildOutput → Option (ℕ → M sh.State (Unit {0})) → M sh.State ProcessEnd
  run_parent fuel pid output post_fork_actions = do
    post_fork post_fork_actions pid
    out ← read_child fuel output
    status ← wait_for fuel pid
    raise (exit_status out status)

  unfoldable pub fork_exec_wait :
      ℕ
      → CliArguments
      → Option (M sh.State (Unit {0}))
      → Option (ℕ → M sh.State (Unit {0}))
      → Option Text
      → M sh.State ProcessEnd
  fork_exec_wait fuel args pre_exec post_fork_actions child_stdout = do
    output ← open_pipe child_stdout
    pid ← λ s. or_throw "Failed to fork to execute subprocess %s: %s" (forks.fork s)
    if pid == 0
        then run_child args output pre_exec
        else run_parent fuel pid output post_fork_actions
