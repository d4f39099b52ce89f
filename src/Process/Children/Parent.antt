-- ===== src/Process/Children/Parent.antt =====
-- The parent's side of `forkExecWait`: it reads the child's output and waits for it.
use libsarus.Base.{
  String, if◌then◌else◌, ℕ, suc, ◌<◌, Text, length, count, ◌++◌, true, Option, none, some,
  Option-cases, inl, inr, ◌≡◌, ◌≢◌, ◌∙◌, refl, ap,
}
use libsarus.Error.{Result, ok}
use libsarus.System.Monad.{M, ◌>>=◌, pure, raise}
use libsarus.System.Outcome.{Ends, bind-Ends}
use libsarus.Process.Commands.{Shell, WaitStatus, exited, signaled, stopped, read_c_stream}
use libsarus.Process.Commands.Reading.{ReadsFail, IsStream, read_c_stream-contents}
use libsarus.Process.Children.{
  Forks, ProcessEnd, returned, ChildOutput, or_throw, caught, read_from, read_child, wait_for,
  is_ended, exit_status, post_fork, run_parent,
}

-- waitpid(2) without options returns when the child has ended.
pub record IsForks (sh : Shell) (forks : Forks sh) : Type 0 where
  pub waitpid-ended :
      (pid : ℕ) (s : sh.State) (w : WaitStatus) → (forks.waitpid pid s).0 ≡ some w → w ≢ stopped

ended : (w : WaitStatus) → w ≢ stopped → is_ended w ≡ true
ended (exited n) h = refl
ended signaled h = refl
ended stopped h = absurd (h refl)

module _ (sh : Shell) (forks : Forks sh) (shown : Text) (laws : IsForks sh forks) where
  -- The last call told that the child ended with the status.
  abbrev HasEnded : ℕ → Result WaitStatus → sh.State → Type 0
  HasEnded pid r s' =
      (w : WaitStatus) → r ≡ ok w → (s : sh.State) × (forks.waitpid pid s ≡ (some w, s'))

  pub or_throw-Ends :
      {A : Type 0} (m : String) (call : sh.State → Option A × sh.State) (s : sh.State)
      → Ends
          (λ t. or_throw sh forks shown m (call t))
          s
          (λ r s'. (a : A) → r ≡ ok a → call s ≡ (some a, s'))
  or_throw-Ends m call s = elim (Option-cases (call s).0) [
    | inl e ↦ (_, (call s).1, ap (λ o. or_throw sh forks shown m (o, (call s).1)) e, λ a h. cc h)
    | inr (v, e) ↦
        (ok v, (call s).1, ap (λ o. or_throw sh forks shown m (o, (call s).1)) e, λ a h. cc (e, h))
  ]

  wait_for-HasEnded :
      (fuel pid : ℕ) (s : sh.State) → Ends (wait_for sh forks shown (suc fuel) pid) s (HasEnded pid)
  unfolding wait_for
  wait_for-HasEnded fuel pid s =
      bind-Ends
        (λ t. or_throw sh forks shown "Failed to waitpid subprocess %s: %s" (forks.waitpid pid t))
        (λ w. if is_ended w then pure w else wait_for sh forks shown fuel pid) s
        (λ r s'. (w : WaitStatus) → r ≡ ok w → forks.waitpid pid s ≡ (some w, s')) (HasEnded pid)
        (or_throw-Ends "Failed to waitpid subprocess %s: %s" (forks.waitpid pid) s)
        (λ w s' is.
          let done = ended w (laws.waitpid-ended pid s w (ap (λ x. x.0) (is w refl))) in
          rw done (ok w, s', refl, λ v h. (s, is v h)))
        (λ x s' is w h. cc h)

  module _ (contents : sh.Stream → Text) (reads : IsStream sh contents) where
    -- What was read of the child: nothing without a pipe, and otherwise what the stream held and
    -- then the whole output of the stream opened on the pipe, of which no read fails.
    abbrev pub IsReadOf : Option ChildOutput → Option Text → Type 0
    IsReadOf none out = out ≡ none
    IsReadOf (some o) out =
        (t : sh.State) × (stream : sh.Stream) × ((forks.fdopen o.read_end t).0 ≡ some stream)
        × ¬ ReadsFail sh stream
        × (out ≡ some (o.held ++ contents stream))

    -- fdopen(3) does not fail on the end of the pipe, and the fuel is enough for the stream, which
    -- has no null characters.
    abbrev pub IsReadable : ℕ → ℕ → Type 0
    IsReadable fuel fd =
        (t : sh.State)
        → (stream : sh.Stream) × ((forks.fdopen fd t).0 ≡ some stream)
          × (suc (length (contents stream)) < fuel)
          × (count 0 (contents stream) ≡ 0)

    abbrev pub ReadsOutput : ℕ → Option ChildOutput → Type 0
    ReadsOutput fuel none = Unit
    ReadsOutput fuel (some o) = IsReadable fuel o.read_end

    read_child-IsReadOf :
        (fuel : ℕ) (output : Option ChildOutput) (s : sh.State)
        → ReadsOutput fuel output
        → Ends
            (read_child sh forks shown fuel output)
            s
            (λ r s'. (out : Option Text) → r ≡ ok out → IsReadOf output out)
    unfolding read_child
    read_child-IsReadOf fuel none s enough = (ok none, s, refl, λ out h. cc h)
    read_child-IsReadOf fuel (some o) s enough =
        let t : sh.State = (forks.close o.write_end s).1 in
        let (stream, opens, fits, no_null) = enough t in
        let u : sh.State = (forks.fdopen o.read_end t).1 in
        let step : read_child sh forks shown fuel (some o) s
            ≡ caught sh forks shown (read_c_stream sh fuel stream o.held) u =
          ap (λ f. read_from sh forks shown fuel o.held (f, u)) opens in
        elim (read_c_stream-contents sh contents reads fuel stream o.held fits no_null) [
          | inl (fine, runs) ↦ (
            ok (some (o.held ++ contents stream)),
            u,
            step ∙ ap (λ x. caught sh forks shown x u) runs,
            λ out h. (t, stream, opens, fine, cc h),
          )
          | inr (fails, e, runs) ↦
              (_, u, step ∙ ap (λ x. caught sh forks shown x u) runs, λ out h. cc h)
        ]

    -- When the parent returns a status, the last call of waitpid(2) on the child told that it exited
    -- with it.
    abbrev pub IsReported : ℕ → Option ChildOutput → Result ProcessEnd → sh.State → Type 0
    IsReported pid output r s' =
        (n : ℕ) (out : Option Text)
        → r ≡ ok (returned n out)
        → ((t : sh.State) × (forks.waitpid pid t ≡ (some (exited n), s'))) × IsReadOf output out

    exit_status-returned :
        (out : Option Text) (w : WaitStatus) (n : ℕ) (out' : Option Text)
        → exit_status sh forks shown out w ≡ ok (returned n out')
        → (w ≡ exited n) × (out ≡ out')
    exit_status-returned out (exited m) n out' h = (cc h, cc h)
    exit_status-returned out signaled n out' h = cc h
    exit_status-returned out stopped n out' h = cc h

    pub run_parent-IsReported :
        (fuel pid : ℕ) (output : Option ChildOutput) (actions : Option (ℕ → M sh.State (Unit {0})))
        (s : sh.State)
        → Ends (post_fork sh forks shown actions pid) s (λ r s'. Unit {0})
        → ReadsOutput (suc fuel) output
        → Ends (run_parent sh forks shown (suc fuel) pid output actions) s (IsReported pid output)
    unfolding run_parent
    run_parent-IsReported fuel pid output actions s acts enough =
        bind-Ends (post_fork sh forks shown actions pid)
          (λ _. read_child sh forks shown (suc fuel) output >>= λ out.
            wait_for sh forks shown (suc fuel) pid >>= λ status.
            raise (exit_status sh forks shown out status))
          s (λ r s'. Unit {0}) (IsReported pid output) acts
          (λ _ t _.
            bind-Ends (read_child sh forks shown (suc fuel) output)
              (λ out. wait_for sh forks shown (suc fuel) pid >>= λ status.
                raise (exit_status sh forks shown out status))
              t (λ r s'. (out : Option Text) → r ≡ ok out → IsReadOf output out)
              (IsReported pid output) (read_child-IsReadOf (suc fuel) output t enough)
              (λ out u read.
                bind-Ends (wait_for sh forks shown (suc fuel) pid)
                  (λ status. raise (exit_status sh forks shown out status)) u (HasEnded pid)
                  (IsReported pid output) (wait_for-HasEnded fuel pid u)
                  (λ w v has. (
                    exit_status sh forks shown out w,
                    v,
                    refl,
                    λ n out' h.
                        let (is, same) = exit_status-returned out w n out' h in
                        let (before, told) = has w refl in
                        ((before, rw is at told), rw same at (read out refl)),
                  ))
                  (λ x v _ n out' h. cc h))
              (λ x u _ n out' h. cc h))
          (λ x t _ n out' h. cc h)
