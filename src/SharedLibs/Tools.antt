-- ===== src/SharedLibs/Tools.antt =====
-- src/utility/sharedLibs.cpp: what is read from the output of ldconfig(8) and readelf(1). The
-- parameters are the lines of a text as `std::getline` gives them, the regular expressions that a
-- line is matched with, and how Boost prints a path in a `boost::format`.
use libsarus.Base.{
  ℕ, ◌+◌, Text, codes, Bool, true, false, List, [], ◌∷◌, ◌++◌, drop, if◌then◌else◌, Option, none,
  some,
}
use libsarus.Error.{Result, ok, throw_error, format, text, end}
use libsarus.System.Monad.{M, ◌>>=◌, pure, raise}
use libsarus.Process.Commands.{Shell, execute_command}
use libsarus.SharedLibs.{find_end}

-- The body of the loop of `getListFromDynamicLinker`: only lines with an arrow have an entry.
abbrev library_at : Text → Option ℕ → List Text → List Text
library_at line none libraries = libraries
library_at line (some pos) libraries = drop (pos + 4) line ∷ libraries

unfoldable pub list_libraries : List Text → List Text
list_libraries [] = []
list_libraries (line ∷ lines) =
    library_at line (find_end line (codes " => ")) (list_libraries lines)

-- The loops that look for the first line that matches.
unfoldable pub find_soname : (Text → Option Text) → List Text → Option Text
find_soname soname [] = none
find_soname soname (line ∷ lines) = elim (soname line) [
  | some name ↦ some name
  | none ↦ find_soname soname lines
]

unfoldable pub any_line : (Text → Bool) → List Text → Bool
any_line matches [] = false
any_line matches (line ∷ lines) =
    let rest = any_line matches lines in if matches line then true else rest

module _ (sh : Shell) (lines : Text → List Text) where
  unfoldable pub get_list_from_dynamic_linker : ℕ → Text → Text → M sh.State (List Text)
  get_list_from_dynamic_linker fuel ldconfig_path root_dir = do
    output ← execute_command sh fuel (ldconfig_path ++ (codes " -r " ++ (root_dir ++ codes " -p")))
    pure (list_libraries (lines output))

  abbrev soname_or_throw : Text → Option Text → Result Text
  soname_or_throw output (some name) = ok name
  soname_or_throw output none =
      throw_error "getSoname"
        (format "Failed to parse library soname from readelf output: %s" (text output end))

  -- `soname` is the match with `^.* \(SONAME\) +Library soname: \[(.*)\]$`.
  unfoldable pub get_soname :
      (Text → Option Text) → (Text → Text) → ℕ → Text → Text → M sh.State Text
  get_soname soname quoted fuel path readelf_path = do
    output ← execute_command sh fuel (quoted readelf_path ++ (codes " -d " ++ quoted path))
    raise (soname_or_throw output (find_soname soname (lines output)))

  -- `matches` is the match with `^ *Machine: +Advanced Micro Devices X86-64 *$`.
  unfoldable pub is_64bit_shared_lib : (Text → Bool) → ℕ → Text → Text → M sh.State Bool
  is_64bit_shared_lib matches fuel path readelf_path = do
    output ← execute_command sh fuel (readelf_path ++ (codes " -h " ++ path))
    pure (any_line matches (lines output))
