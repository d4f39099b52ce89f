-- ===== src/Mount.antt =====
-- include/libsarus/Mount.hpp, include/libsarus/UserIdentity.hpp: the data of a bind mount, and the
-- flags of <sys/mount.h> that the sources combine. Paths are their native texts.
use Prim.Native.Nat.{bit_or}
use libsarus.Base.{ℕ, Text, List}

pub record UserIdentity : Type 0 where
  pub uid : ℕ
  pub gid : ℕ
  pub supplementary_gids : List ℕ

pub record Mount : Type 0 where
  pub source : Text
  pub destination : Text
  pub mount_flags : ℕ
  pub rootfs_dir : Text
  pub user_identity : UserIdentity

abbrev pub ms_rdonly : ℕ
ms_rdonly = 1

abbrev pub ms_nosuid : ℕ
ms_nosuid = 2

abbrev pub ms_remount : ℕ
ms_remount = 32

abbrev pub ms_bind : ℕ
ms_bind = 4096

abbrev pub ms_rec : ℕ
ms_rec = 16384

abbrev pub ms_private : ℕ
ms_private = 262144

abbrev pub ms_mgc_val : ℕ
ms_mgc_val = 3236757504

-- `MS_REC | MS_PRIVATE`, with which both parsers start.
abbrev pub default_flags : ℕ
default_flags = bit_or ms_rec ms_private
