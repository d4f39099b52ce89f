-- ===== src/Filesystem/PathList.antt =====
-- src/utility/filesystem.cpp: `makeColonSeparatedListOfPaths`, which splitting at colons undoes.
use libsarus.Base.{
  append_laws, ℕ, Text, Bool, true, false, List, [], ◌∷◌, ◌++◌, All, if◌then◌else◌, ◌≡◌, ◌≢◌, refl,
  ap, ◌∙◌, append_assoc,
}
use libsarus.Split.{join, Lacks, IsSplit}
use libsarus.Split.Tokens.{split-join}

-- The loop on the text so far; the flag is `isFirstPath`.
unfoldable pub append_paths : Bool → List Text → Text → Text
append_paths first [] s = s
append_paths first (path ∷ paths) s =
    append_paths false paths ((if first then s else s ++ (b':' ∷ [])) ++ path)

unfoldable pub make_colon_separated_list_of_paths : List Text → Text
make_colon_separated_list_of_paths paths = append_paths true paths []

append_paths-join :
    (path : Text) (paths : List Text) (s : Text)
    → append_paths false paths (s ++ path) ≡ s ++ join b':' (path ∷ paths)
unfolding append_paths
append_paths-join path [] s = refl
append_paths-join path (q ∷ paths) s =
    ap (λ x. append_paths false paths (x ++ q)) (append_assoc s path (b':' ∷ []))
    ∙ append_paths-join q paths (s ++ (path ++ (b':' ∷ [])))
    ∙ simp append_laws

list_of_paths-join :
    (paths : List Text) → make_colon_separated_list_of_paths paths ≡ join b':' paths
unfolding make_colon_separated_list_of_paths append_paths
list_of_paths-join [] = refl
list_of_paths-join (path ∷ paths) = append_paths-join path paths []

-- A `boost::split` with its laws at colons gives back the paths from which
-- `makeColonSeparatedListOfPaths` made a text, if there is at least one path and no path holds a
-- colon.
pub split-list_of_paths :
    (split : ℕ → Text → List Text)
    → IsSplit split
    → (paths : List Text) → paths ≢ []
    → All (Lacks b':') paths
    → split b':' (make_colon_separated_list_of_paths paths) ≡ paths
split-list_of_paths split laws paths ne lacks =
    rw (list_of_paths-join paths) (split-join split laws b':' paths ne lacks)
