-- ===== src/Process/Children/Ended.antt =====
-- `forkExecWait` in both processes.
use libsarus.Base.{
  sym, Bool-cases, ◌==◌, if◌then◌else◌, ℕ, suc, Text, ◌++◌, true, false, Bool, Option, none, some,
  inl, inr, ◌≡◌, ◌≢◌, ◌∙◌, refl, ap,
}
use libsarus.Error.{Result, ok}
use libsarus.System.Monad.{M, ◌>>=◌, pure}
use libsarus.System.Outcome.{Ends, bind-Ends}
use libsarus.Process.Commands.{Shell, exited}
use libsarus.Process.Commands.Reading.{ReadsFail, IsStream}
use libsarus.CliArguments.{CliArguments}
use libsarus.Process.Children.Parent.{
  IsForks, or_throw-Ends, IsReadOf, ReadsOutput, IsReadable, run_parent-IsReported,
}
use libsarus.Process.Children.{
  replaced, optionally, exec, redirect, run_child, open_pipe, fork_exec_wait, Forks, ProcessEnd,
  returned, ChildOutput, or_throw, post_fork, run_parent,
}

module _ (sh : Shell) (forks : Forks sh) (shown : Text) (laws : IsForks sh forks)
    (contents : sh.Stream → Text) (reads : IsStream sh contents) where
  -- The state after the pipe was opened, if there is a stream.
  abbrev after_pipe : Option Text → sh.State → sh.State
  after_pipe none s = s
  after_pipe (some held) s = (forks.pipe s).1

  -- Without a stream nothing is read; otherwise the stream holds what it held before and then the
  -- whole output of a stream opened on the read end of the pipe, of which no read fails.
  abbrev IsRead : Option Text → sh.State → Option Text → Type 0
  IsRead none s out = out ≡ none
  IsRead (some held) s out =
      (fds : ℕ × ℕ) × ((forks.pipe s).0 ≡ some fds)
      × (t : sh.State) × (stream : sh.Stream) × ((forks.fdopen fds.0 t).0 ≡ some stream)
      × ¬ ReadsFail sh stream
      × (out ≡ some (held ++ contents stream))

  -- When a status is returned, this is the parent of the process that was forked, and the last call
  -- of waitpid(2), on that process, told that it exited with the status.
  abbrev pub IsStatus : Option Text → sh.State → Result ProcessEnd → sh.State → Type 0
  IsStatus held s r s' =
      (n : ℕ) (out : Option Text)
      → r ≡ ok (returned n out)
      → (pid : ℕ) × ((forks.fork (after_pipe held s)).0 ≡ some pid)
        × ((pid == 0) ≡ false)
        × ((t : sh.State) × (forks.waitpid pid t ≡ (some (exited n), s')))
        × IsRead held s out

  -- The child returns nothing.
  abbrev ReturnsNothing : Result ProcessEnd → sh.State → Type 0
  ReturnsNothing r s' = (n : ℕ) (out : Option Text) → r ≢ ok (returned n out)

  redirect-Ends :
      (output : Option ChildOutput) (s : sh.State)
      → Ends (redirect sh forks shown output) s (λ r s'. Unit {0})
  unfolding redirect
  redirect-Ends none s = (ok tt, s, refl, tt)
  redirect-Ends (some o) s = (ok tt, _, refl, tt)

  exec-ReturnsNothing :
      (result : Bool × sh.State)
      → (r : Result ProcessEnd) × (s' : sh.State) × (exec sh forks shown result ≡ some (r, s'))
        × ReturnsNothing r s'
  exec-ReturnsNothing (true, s) = (ok replaced, s, refl, λ n out h. cc h)
  exec-ReturnsNothing (false, s) = (_, s, refl, λ n out h. cc h)

  run_child-ReturnsNothing :
      (args : CliArguments) (output : Option ChildOutput)
      (pre_exec : Option (M sh.State (Unit {0}))) (s : sh.State)
      → ((t : sh.State) → Ends (optionally sh forks shown pre_exec) t (λ r s'. Unit {0}))
      → Ends (run_child sh forks shown args output pre_exec) s ReturnsNothing
  unfolding run_child
  run_child-ReturnsNothing args output pre_exec s acts =
      bind-Ends (redirect sh forks shown output)
        (λ _.
          optionally sh forks shown pre_exec >>= λ _ t. exec sh forks shown (forks.execvp args t))
        s (λ r s'. Unit {0}) ReturnsNothing (redirect-Ends output s)
        (λ _ t _.
          bind-Ends (optionally sh forks shown pre_exec)
            (λ _ u. exec sh forks shown (forks.execvp args u)) t (λ r s'. Unit {0}) ReturnsNothing
            (acts t) (λ _ u _. exec-ReturnsNothing (forks.execvp args u)) (λ x u _ n out h. cc h))
        (λ x t _ n out h. cc h)

  -- What opening the pipe gives.
  abbrev IsOpened : Option Text → sh.State → Option ChildOutput → Type 0
  IsOpened none s o = o ≡ none
  IsOpened (some held) s o =
      (fds : ℕ × ℕ) × ((forks.pipe s).0 ≡ some fds)
      × (o ≡ some (record { read_end = fds.0; write_end = fds.1; held = held }))

  abbrev WasOpened : Option Text → sh.State → Result (Option ChildOutput) → sh.State → Type 0
  WasOpened held s r t =
      (o : Option ChildOutput) → r ≡ ok o → (t ≡ after_pipe held s) × IsOpened held s o

  open_pipe-WasOpened :
      (held : Option Text) (s : sh.State)
      → Ends (open_pipe sh forks shown held) s (WasOpened held s)
  unfolding open_pipe
  open_pipe-WasOpened none s = (ok none, s, refl, λ o h. (refl, cc h))
  open_pipe-WasOpened (some held) s =
      bind-Ends
        (λ t.
          or_throw sh forks shown "Failed to open pipe to execute subprocess %s: %s" (forks.pipe t))
        (λ fds. pure (some (record { read_end = fds.0; write_end = fds.1; held = held }))) s
        (λ r t. (fds : ℕ × ℕ) → r ≡ ok fds → forks.pipe s ≡ (some fds, t)) (WasOpened (some held) s)
        (or_throw-Ends sh forks shown laws "Failed to open pipe to execute subprocess %s: %s"
          forks.pipe s)
        (λ fds t opens. (
          _,
          t,
          refl,
          λ o h.
              (sym (ap (λ x. x.1) (opens fds refl)), (fds, ap (λ x. x.0) (opens fds refl), cc h)),
        ))
        (λ x t _ o h. cc h)

  -- What the theorem needs of the pipe.
  abbrev ReadsPipe : ℕ → Option Text → sh.State → Type 0
  ReadsPipe fuel none s = Unit
  ReadsPipe fuel (some held) s =
      (fds : ℕ × ℕ)
      → (forks.pipe s).0 ≡ some fds
      → IsReadable sh forks shown laws contents reads fuel fds.0

  IsOpened-ReadsOutput :
      (fuel : ℕ) (held : Option Text) (s : sh.State) (o : Option ChildOutput)
      → IsOpened held s o
      → ReadsPipe fuel held s
      → ReadsOutput sh forks shown laws contents reads fuel o
  IsOpened-ReadsOutput fuel none s o is enough = rw is tt
  IsOpened-ReadsOutput fuel (some held) s o (fds, opens, is) enough = rw is (enough fds opens)

  IsReadOf-IsRead :
      (held : Option Text) (s : sh.State) (o : Option ChildOutput) (out : Option Text)
      → IsOpened held s o
      → IsReadOf sh forks shown laws contents reads o out
      → IsRead held s out
  IsReadOf-IsRead none s o out is read = rw is at read
  IsReadOf-IsRead (some held) s o out (fds, opens, is) read =
      let (t, stream, from_fd, fine, all) = rw is at read in
      (fds, opens, t, stream, from_fd, fine, all)

  -- For streams with their laws, a waitpid(2) that returns a status only when the process has
  -- ended, actions that end, and, if there is a stream, an fdopen(3) that does not fail on the
  -- read end of the pipe and gives a stream without null characters, for whose bytes and two more
  -- the fuel is enough: `forkExecWait` returns, throws or replaces the program. When it returns a
  -- status, it runs in the parent, and the last call of waitpid(2), on the process that was
  -- forked, told that it exited with this status; without a stream nothing is read, and otherwise
  -- the stream holds what it held before and then the whole output of a stream that was opened on
  -- the read end of the pipe and of which no read failed.
  pub fork_exec_wait-IsStatus :
      (fuel : ℕ) (args : CliArguments) (pre_exec : Option (M sh.State (Unit {0})))
      (post_fork_actions : Option (ℕ → M sh.State (Unit {0}))) (held : Option Text) (s : sh.State)
      → ((t : sh.State) → Ends (optionally sh forks shown pre_exec) t (λ r s'. Unit {0}))
      → ((pid : ℕ) (t : sh.State)
          → Ends (post_fork sh forks shown post_fork_actions pid) t (λ r s'. Unit {0}))
      → ReadsPipe (suc fuel) held s
      → Ends
          (fork_exec_wait sh forks shown (suc fuel) args pre_exec post_fork_actions held)
          s
          (IsStatus held s)
  unfolding fork_exec_wait
  fork_exec_wait-IsStatus fuel args pre_exec post_fork_actions held s child_acts parent_acts
        enough =
      bind-Ends (open_pipe sh forks shown held)
        (λ output.
          (λ t.
            or_throw sh forks shown "Failed to fork to execute subprocess %s: %s" (forks.fork t))
          >>= λ pid.
              if pid == 0
              then run_child sh forks shown args output pre_exec
              else run_parent sh forks shown (suc fuel) pid output post_fork_actions)
        s (WasOpened held s) (IsStatus held s) (open_pipe-WasOpened held s)
        (λ output t opened.
          let (is, from_pipe) = opened output refl in
          bind-Ends
            (λ t.
              or_throw sh forks shown "Failed to fork to execute subprocess %s: %s" (forks.fork t))
            (λ pid.
              if pid == 0
              then run_child sh forks shown args output pre_exec
              else run_parent sh forks shown (suc fuel) pid output post_fork_actions)
            t (λ r s'. (a : ℕ) → r ≡ ok a → forks.fork t ≡ (some a, s')) (IsStatus held s)
            (or_throw-Ends sh forks shown laws "Failed to fork to execute subprocess %s: %s"
              forks.fork t)
            (λ pid u forked. elim (Bool-cases (pid == 0)) [
              | inl e ↦
                  let (r, v, runs, nothing) =
                    run_child-ReturnsNothing args output pre_exec u child_acts in
                  (r, v, rw e runs, λ n out h. absurd (nothing n out h))
              | inr e ↦
                  let (r, v, runs, report) =
                    run_parent-IsReported sh forks shown laws contents reads fuel pid output
                      post_fork_actions u (parent_acts pid u)
                      (IsOpened-ReadsOutput (suc fuel) held s output from_pipe enough) in
                  (
                    r,
                    v,
                    rw e runs,
                    λ n out h.
                        let (told, read) = report n out h in
                        (
                          pid,
                          ap (λ x. (forks.fork x).0) (sym is) ∙ ap (λ x. x.0) (forked pid refl),
                          e,
                          told,
                          IsReadOf-IsRead held s output out from_pipe read,
                        ),
                  )
            ])
            (λ x u _ n out h. cc h))
        (λ x t _ n out h. cc h)
