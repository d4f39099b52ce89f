-- ===== src/BindMount/Squashfs.antt =====
-- src/utility/mount.cpp: `loopMountSquashfs`, which runs mount(8).
use libsarus.Base.{ℕ, Text, codes, ◌++◌}
use libsarus.Error.{throws, sarus, rethrow_error, format, text, end}
use libsarus.System.Monad.{M, ◌>>=◌, pure, raise, try_catch}
use libsarus.Process.Commands.{Shell, execute_command}

module _ (sh : Shell) where
  abbrev mount_command : Text → Text → Text
  mount_command image mount_point =
      codes "mount -n -o loop,nosuid,nodev,ro -t squashfs " ++ (image ++ (codes " " ++ mount_point))

  unfoldable pub loop_mount_squashfs : ℕ → Text → Text → M sh.State (Unit {0})
  loop_mount_squashfs fuel image mount_point =
      try_catch (do output ← execute_command sh fuel (mount_command image mount_point); pure tt)
        (λ e. raise (
          throws (
            rethrow_error (sarus e) "loopMountSquashfs"
              (format "Failed to loop mount %s on %s" (text image (text mount_point end))))))
