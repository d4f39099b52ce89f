-- ===== src/System.antt =====
-- The system that the library runs on, as an interface: the credentials of the process, the system
-- calls, and the functions of Boost that ask the file system. `IsSystem` states what their manual
-- pages say of the credentials. Operations that change the system's state are composed in `M`.
pub mod Monad
pub mod Outcome
use libsarus.Base.{ℕ, Text, Bool, true, false, List, Option, ◌≡◌, if◌then◌else◌, ◌⊎◌}
use libsarus.Error.{Result}
use libsarus.Filesystem.Status.{StatResult}

-- credentials(7): the ids of the process.
pub record Ids : Type 0 where
  pub ruid : ℕ
  pub rgid : ℕ
  pub euid : ℕ
  pub egid : ℕ
  pub fsuid : ℕ
  pub groups : List ℕ

-- The arguments of mount(2); `none` is a null pointer, and the options are a text.
pub record MountCall : Type 0 where
  pub source : Option Text
  pub target : Text
  pub filesystem_type : Option Text
  pub mount_flags : ℕ
  pub options : Option Text

pub record System : Type 1 where
  pub State : Type 0
  pub ids : State → Ids
  -- getgroups(2), `none` on failure
  pub getgroups : State → Option (List ℕ)
  -- these return whether they succeeded
  pub setgroups : List ℕ → State → Bool × State
  pub setegid : ℕ → State → Bool × State
  pub seteuid : ℕ → State → Bool × State
  -- setfsuid(2) returns the previous id
  pub setfsuid : ℕ → State → ℕ × State
  pub mount : MountCall → State → Bool × State
  pub chown : Text → ℕ → ℕ → State → Bool × State
  -- opening a `std::ofstream` on the path
  pub create_file : Text → State → Bool × State
  pub stat : State → Text → StatResult
  pub lstat : State → Text → StatResult
  pub read_link : State → Text → Text
  -- realpath(3), `none` on failure
  pub realpath : State → Text → Option Text
  -- `boost::filesystem`: these may throw a `filesystem_error`
  pub exists : State → Text → Result Bool
  pub is_directory : State → Text → Result Bool
  pub create_directory : Text → State → Result Bool × State
  -- the text of the last error
  pub strerror : State → Text

-- What a call that reports success or failure does to the ids.
abbrev pub Sets : (S : System) → (S.State → Bool × S.State) → (Ids → Ids) → Type 0
Sets S call change =
    (s : S.State) → S.ids (call s).1 ≡ (if (call s).0 then change (S.ids s) else S.ids s)

-- A call that leaves the ids alone.
abbrev pub Keeps {ℓ} : (S : System) → {A : Type ℓ} → (S.State → A × S.State) → Type 0
Keeps S call = (s : S.State) → S.ids (call s).1 ≡ S.ids s

pub record IsSystem (S : System) : Type 0 where
  pub setgroups-ids : (gs : List ℕ) → Sets S (S.setgroups gs) (λ i. record i { groups = gs })
  pub setegid-ids : (g : ℕ) → Sets S (S.setegid g) (λ i. record i { egid = g })
  -- the file system id follows the effective id
  pub seteuid-ids : (u : ℕ) → Sets S (S.seteuid u) (λ i. record i { euid = u; fsuid = u })
  pub setfsuid-ids :
      (u : ℕ) (s : S.State)
      → (S.ids (S.setfsuid u s).1 ≡ S.ids s)
        ⊎ (S.ids (S.setfsuid u s).1 ≡ (let i = S.ids s in record i { fsuid = u }))
  pub setfsuid-previous : (u : ℕ) (s : S.State) → (S.setfsuid u s).0 ≡ (S.ids s).fsuid
  pub mount-ids : (c : MountCall) → Keeps S (S.mount c)
  pub chown-ids : (p : Text) (u g : ℕ) → Keeps S (S.chown p u g)
  pub create_file-ids : (p : Text) → Keeps S (S.create_file p)
  pub create_directory-ids : (p : Text) → Keeps S (S.create_directory p)
