-- ===== src/SharedLibs/Versions.antt =====
-- What `isSharedLib` accepts is a linker name followed by versions, and `parseAbi` returns these.
use libsarus.Base.{
  ℕ, ◌+◌, Text, codes, Bool, true, false, List, [], ◌∷◌, ◌++◌, All, length, length-append, drop,
  drop-append, ==_iff, if◌then◌else◌, Option, none, some, Bool-cases, inl, inr, ◌≡◌, ◌≢◌, ◌↔◌, refl,
  sym, ap, ◌∙◌, arith, append_assoc, append-nil,
}
use mathlib.Core.List.{cons-ne-nil}
use libsarus.Error.{Result, ok}
use libsarus.Error.Trace.{ok-injective, >>=-eq-ok}
use libsarus.Split.{join, Lacks, IsSplit}
use libsarus.Filesystem.Paths.{PathOps}
use libsarus.SharedLibs.{
  ends_with, find_end, extension, ends_or_dot, get_linker_name, is_shared_lib, has_library_name,
  parse_abi, versions_at,
}
use libsarus.SharedLibs.Endings.{LacksEnding, ends_with-LacksEnding, LacksEnding-ends_with}
use libsarus.SharedLibs.Names.{
  after_extension, find_end_found, find_end_absent, IsLibraryName, IsLibraryName-found,
  get_linker_name-returns,
}

-- Each version with a dot before it.
abbrev pub dotted : List Text → Text
dotted [] = []
dotted (v ∷ vs) = b'.' ∷ (v ++ dotted vs)

dotted-join : (vs : List Text) → vs ≢ [] → dotted vs ≡ b'.' ∷ join b'.' vs
dotted-join [] ne = absurd (ne refl)
dotted-join (v ∷ []) ne = ap (◌∷◌ b'.') (append-nil v)
dotted-join (v ∷ w ∷ vs) ne = ap (λ t. b'.' ∷ (v ++ t)) (dotted-join (w ∷ vs) (cons-ne-nil w vs))

after_dot : (name a w : Text) → name ≡ a ++ (extension ++ (b'.' ∷ w)) → drop (length a + 4) name ≡ w
after_dot name a w is =
    let long : length a + 4 ≡ length (a ++ codes ".so.") =
      omega (arith, length-append a (codes ".so.")) in
    let all : name ≡ (a ++ codes ".so.") ++ w = is ∙ sym (append_assoc a (codes ".so.") w) in
    rw (long, all) (drop-append (a ++ codes ".so.") w)

module _ (ops : PathOps) (is_directory : Text → Result Bool) where
  has_library_name-some :
      (name : Text) (o : Option ℕ)
      → has_library_name name o ≡ true
      → (p : ℕ) × (o ≡ some p)
        × (ends_or_dot (drop (p + 3) name) ≡ true)
        × (ends_with name (codes ".conf") ≡ false)
        × (ends_with name (codes ".cache") ≡ false)
  unfolding has_library_name
  has_library_name-some name none h = cc h
  has_library_name-some name (some p) h = (p, refl, ground arith, ground arith, ground arith)

  is_shared_lib-named :
      (file : Text)
      → is_shared_lib ops is_directory file ≡ ok true
      → has_library_name (ops.filename file) (find_end (ops.filename file) extension) ≡ true
  unfolding is_shared_lib
  is_shared_lib-named file h =
      let (folder, e, k) = >>=-eq-ok (is_directory file) _ h in
      elim (Bool-cases folder) [
        | inl there ↦ cc (rw there at k)
        | inr other ↦ ok-injective (rw other at k)
      ]

  pub is_shared_lib-returns :
      (file : Text)
      → (b : Bool) × (is_directory file ≡ ok b)
      → (c : Bool) × (is_shared_lib ops is_directory file ≡ ok c)
  unfolding is_shared_lib
  is_shared_lib-returns file (b, e) = (
    if b
        then false
        else has_library_name (ops.filename file) (find_end (ops.filename file) extension),
    rw e refl,
  )

  pub is_shared_lib-IsLibraryName :
      (file : Text)
      → is_shared_lib ops is_directory file ≡ ok true
      → (a : Text) × (version : Text) × (ops.filename file ≡ a ++ (extension ++ version))
        × (find_end (ops.filename file) extension ≡ some (length a))
        × IsLibraryName (ops.filename file) (a ++ extension) version
  is_shared_lib-IsLibraryName file h =
      let (p, e, dot, _, _) = has_library_name-some _ _ (is_shared_lib-named file h) in
      let (a, v, is, long, last) = find_end_found (ops.filename file) p e in
      let (rest, begins) = after_extension (ops.filename file) a v is in
      (
        a,
        v,
        is,
        e ∙ ap some (sym long),
        record {
          whole = is ∙ sym (append_assoc a extension v);
          stem = (a, refl);
          dotted_version =
              sym (ap ends_or_dot rest)
              ∙ (ap (λ n. ends_or_dot (drop (n + 3) (ops.filename file))) long ∙ dot);
          last_extension = find_end_absent (codes "so" ++ v) last;
        },
      )

  -- What is no folder, is named neither '*.conf' nor '*.cache', and whose name is a linker name, which
  -- ends in the last extension, followed by nothing or by a text that begins with a dot.
  pub record IsLibrary (file : Text) : Type 0 where
    pub no_folder : is_directory file ≡ ok false
    pub no_conf : LacksEnding (codes ".conf") (ops.filename file)
    pub no_cache : LacksEnding (codes ".cache") (ops.filename file)
    pub linker : Text
    pub version : Text
    pub named : IsLibraryName (ops.filename file) linker version

  is_shared_lib-no_folder :
      (file : Text) → is_shared_lib ops is_directory file ≡ ok true → is_directory file ≡ ok false
  unfolding is_shared_lib
  is_shared_lib-no_folder file h =
      let (folder, e, k) = >>=-eq-ok (is_directory file) _ h in
      elim (Bool-cases folder) [ inl there ↦ cc (rw there at k) | inr other ↦ e ∙ ap ok other ]

  is_shared_lib-IsLibrary :
      (file : Text) → is_shared_lib ops is_directory file ≡ ok true → IsLibrary file
  is_shared_lib-IsLibrary file h =
      let (a, v, _, _, name) = is_shared_lib-IsLibraryName file h in
      let (_, _, _, conf, cache) = has_library_name-some _ _ (is_shared_lib-named file h) in
      record {
        no_folder = is_shared_lib-no_folder file h;
        no_conf = ends_with-LacksEnding (ops.filename file) (codes ".conf") conf;
        no_cache = ends_with-LacksEnding (ops.filename file) (codes ".cache") cache;
        linker = a ++ extension;
        version = v;
        named = name;
      }

  has_library_name-named :
      (name a v : Text)
      → name ≡ a ++ (extension ++ v)
      → ends_or_dot v ≡ true
      → ends_with name (codes ".conf") ≡ false
      → ends_with name (codes ".cache") ≡ false
      → has_library_name name (some (length a)) ≡ true
  unfolding has_library_name
  has_library_name-named name a v is dot conf cache =
      let (rest, _) = after_extension name a v is in rw (conf, cache, rest) dot

  IsLibrary-is_shared_lib :
      (file : Text) → IsLibrary file → is_shared_lib ops is_directory file ≡ ok true
  unfolding is_shared_lib
  IsLibrary-is_shared_lib file h =
      let (a, is, _, found) = IsLibraryName-found _ _ _ h.named in
      rw (h.no_folder, found)
        (ap ok (
          has_library_name-named (ops.filename file) a h.version is h.named.dotted_version
            (LacksEnding-ends_with (ops.filename file) (codes ".conf") h.no_conf)
            (LacksEnding-ends_with (ops.filename file) (codes ".cache") h.no_cache)))

  module _ (split : ℕ → Text → List Text) (laws : IsSplit split) where
    versions_at_lem :
        (lib a v : Text)
        → ops.filename lib ≡ a ++ (extension ++ v)
        → ends_or_dot v ≡ true
        → (vs : List Text) × (versions_at ops is_directory split lib (some (length a)) ≡ ok vs)
          × (v ≡ dotted vs)
          × All (Lacks b'.') vs
    unfolding versions_at
    versions_at_lem lib a [] is h =
        let (rest, _) = after_extension (ops.filename lib) a [] is in ([], rw rest refl, refl, tt)
    versions_at_lem lib a (c ∷ w) is h =
        let dot : c ≡ b'.' = (==_iff c b'.').0 h in
        let (rest, _) = after_extension (ops.filename lib) a (c ∷ w) is in
        let later =
          after_dot (ops.filename lib) a w (is ∙ ap (λ d. a ++ (extension ++ (d ∷ w))) dot) in
        (
          split b'.' w,
          rw (rest, later) refl,
          ap (◌∷ w) dot
              ∙ (ap (b'.' ∷◌) (sym (laws.joins b'.' w))
                  ∙ sym (dotted-join (split b'.' w) (laws.some_token b'.' w))),
          laws.no_separator b'.' w,
        )

    pub parse_abi-is_shared_lib :
        (file : Text) (versions : List Text)
        → parse_abi ops is_directory split file ≡ ok versions
        → is_shared_lib ops is_directory file ≡ ok true
    unfolding parse_abi
    parse_abi-is_shared_lib file versions runs =
        let (b, e, k) = >>=-eq-ok (is_shared_lib ops is_directory file) _ runs in
        elim (Bool-cases b) [ inl is ↦ e ∙ ap ok is | inr other ↦ cc (rw other at k) ]

    pub library_versions :
        (file : Text)
        → is_shared_lib ops is_directory file ≡ ok true
        → (linker : Text) × (versions : List Text) × (get_linker_name ops file ≡ ok linker)
          × (parse_abi ops is_directory split file ≡ ok versions)
          × (ops.filename file ≡ linker ++ dotted versions)
          × All (Lacks b'.') versions
    unfolding parse_abi
    library_versions file h =
        let (a, v, is, found, name) = is_shared_lib-IsLibraryName file h in
        let (vs, runs, spelled, lacks) = versions_at_lem file a v is name.dotted_version in
        (
          a ++ extension,
          vs,
          get_linker_name-returns ops file (a ++ extension) v name,
          rw (h, found) runs,
          name.whole ∙ ap ((a ++ extension) ++◌) spelled,
          lacks,
        )

    -- For a `boost::split` with its laws: `isSharedLib` accepts exactly what is no folder, ends
    -- neither in '.conf' nor in '.cache', and is named by a text that ends in '.so' and then
    -- nothing or a text that begins with a dot, with no '.so' behind; on such a file
    -- `getLinkerName` and `parseAbi` return, and the name is the linker name followed by each
    -- version with a dot before it, where no version holds a dot; and `parseAbi` returns on no
    -- other file.
    pub is_shared_lib-parse_abi :
        (file : Text)
        → ((is_shared_lib ops is_directory file ≡ ok true) ↔ IsLibrary file)
          × (IsLibrary file
              → (linker : Text) × (versions : List Text) × (get_linker_name ops file ≡ ok linker)
                × (parse_abi ops is_directory split file ≡ ok versions)
                × (ops.filename file ≡ linker ++ dotted versions)
                × All (Lacks b'.') versions)
          × ((versions : List Text)
              → parse_abi ops is_directory split file ≡ ok versions
              → IsLibrary file)
    is_shared_lib-parse_abi file = (
      (is_shared_lib-IsLibrary file, IsLibrary-is_shared_lib file),
      (λ h. library_versions file (IsLibrary-is_shared_lib file h)),
      λ versions runs. is_shared_lib-IsLibrary file (parse_abi-is_shared_lib file versions runs),
    )
