-- ===== src/Tests/Children.antt =====
-- A child that prints two letters and exits with status 2.
use libsarus.Base.{true, codes, none, some, ◌≡◌, refl, arith}
use libsarus.Error.{ok}
use libsarus.System.Outcome.{Ends}
use libsarus.Process.Commands.{Shell, WaitStatus, exited, stopped}
use libsarus.Process.Children.{Forks, returned, fork_exec_wait}
use libsarus.Process.Children.Ended.{IsStatus, fork_exec_wait-IsStatus}
use libsarus.Process.Children.Parent.{IsForks}
use libsarus.CliArguments.{empty_arguments}
use libsarus.Tests.Libraries.{echo_shell, echo-IsStream}

abbrev echo_forks : Forks echo_shell
echo_forks = record {
  pipe = λ s. (some (3, 4), s);
  fork = λ s. (some 7, s);
  dup2 = λ a b s. (true, s);
  close = λ fd s. (true, s);
  execvp = λ args s. (true, s);
  fdopen = λ fd s. (some (codes "hi"), s);
  waitpid = λ pid s. (some (exited 2), s);
}

echo-IsForks : IsForks echo_shell echo_forks
echo-IsForks = record { waitpid-ended = λ pid s w h e. cc (h, e) }

fork_exec_wait_run :
    fork_exec_wait echo_shell echo_forks
      (codes "ls")
      5
      empty_arguments
      none
      none
      (some (codes ">"))
      tt
    ≡ some (ok (returned 2 (some (codes ">hi"))), tt)
unfolding fork_exec_wait libsarus.Process.Children.open_pipe libsarus.Process.Children.run_parent
    libsarus.Process.Children.read_child libsarus.Process.Commands.read_c_stream
    libsarus.Process.Children.wait_for
fork_exec_wait_run = refl

fork_exec_wait-IsStatus_example :
    Ends
      (fork_exec_wait echo_shell echo_forks
        (codes "ls")
        5
        empty_arguments
        none
        none
        (some (codes ">")))
      tt
      (IsStatus echo_shell echo_forks
        (codes "ls")
        echo-IsForks
        (λ i. i)
        echo-IsStream
        (some (codes ">"))
        tt)
fork_exec_wait-IsStatus_example =
    fork_exec_wait-IsStatus echo_shell echo_forks (codes "ls") echo-IsForks (λ i. i) echo-IsStream 4
      empty_arguments none none (some (codes ">")) tt (λ t. (ok tt, t, refl, tt))
      (λ pid t. (ok tt, t, refl, tt)) (λ fds opens t. (codes "hi", refl, omega arith, refl))
