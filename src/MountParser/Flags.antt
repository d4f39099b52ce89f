-- ===== src/MountParser/Flags.antt =====
-- `convertBindMountFlags`: the flags of a request, and the options that it accepts.
use Prim.Native.Nat.{bit_or}
use libsarus.Base.{
  ℕ, Text, Map, lookup, lookup-erase, erase, has, codes, text_eq, text_eq_iff, [], ◌∷◌, All,
  if◌then◌else◌, none, ◌≡◌, ◌≢◌, ◌↔◌, ◌⊎◌, inl, inr, refl, arith, ◌∙◌, sym, ap, Bool-cases,
}
use libsarus.Error.{ok}
use libsarus.Error.Trace.{ok-injective}
use libsarus.Mount.{default_flags, ms_rdonly}
use libsarus.MountParser.{convert_bind_mount_flags, convert_flags_from, flags_map}

-- The options of a bind mount: how its type, its source and its destination are named, and
-- 'readonly'.
pub data IsOption (key : Text) : Type 0 where
  names_type : key ≡ codes "type" → IsOption key
  names_source : (key ≡ codes "source") ⊎ (key ≡ codes "src") → IsOption key
  names_destination :
      (key ≡ codes "destination") ⊎ (key ≡ codes "dst") ⊎ (key ≡ codes "target") → IsOption key
  names_readonly : key ≡ codes "readonly" → IsOption key

-- Every key of the map is one of them.
abbrev pub OnlyOptions : Map → Type 0
OnlyOptions m = (key : Text) → lookup key m ≢ none → IsOption key

-- The same, for the map from which the options that are not flags are erased.
abbrev OnlyReadonly : Map → Type 0
OnlyReadonly m = (key : Text) → lookup key (flags_map m) ≢ none → key ≡ codes "readonly"

lookup-flags_map_iff :
    (m : Map) (key : Text)
    → lookup key (flags_map m) ≡ (
        if text_eq (codes "target") key
        then none
        else if text_eq (codes "dst") key
        then none
        else if text_eq (codes "destination") key
        then none
        else if text_eq (codes "src") key
        then none
        else if text_eq (codes "source") key
        then none
        else if text_eq (codes "type") key
        then none
        else lookup key m)
lookup-flags_map_iff m key = simp lookup-erase

OnlyReadonly-OnlyOptions : (m : Map) → OnlyReadonly m → OnlyOptions m
OnlyReadonly-OnlyOptions m only key there = elim (Bool-cases (text_eq (codes "target") key)) [
  | inl e ↦ names_destination (inr (inr (sym ((text_eq_iff (codes "target") key).0 e))))
  | inr n1 ↦ elim (Bool-cases (text_eq (codes "dst") key)) [
    | inl e ↦ names_destination (inr (inl (sym ((text_eq_iff (codes "dst") key).0 e))))
    | inr n2 ↦ elim (Bool-cases (text_eq (codes "destination") key)) [
      | inl e ↦ names_destination (inl (sym ((text_eq_iff (codes "destination") key).0 e)))
      | inr n3 ↦ elim (Bool-cases (text_eq (codes "src") key)) [
        | inl e ↦ names_source (inr (sym ((text_eq_iff (codes "src") key).0 e)))
        | inr n4 ↦ elim (Bool-cases (text_eq (codes "source") key)) [
          | inl e ↦ names_source (inl (sym ((text_eq_iff (codes "source") key).0 e)))
          | inr n5 ↦ elim (Bool-cases (text_eq (codes "type") key)) [
            | inl e ↦ names_type (sym ((text_eq_iff (codes "type") key).0 e))
            | inr n6 ↦ names_readonly (
                only key (λ h.
                  there (sym (lookup-flags_map_iff m key ∙ rw (n1, n2, n3, n4, n5, n6) refl) ∙ h)))
          ]
        ]
      ]
    ]
  ]
]

lookup-erase-none : (k key : Text) (m : Map) → lookup key m ≡ none → lookup key (erase k m) ≡ none
lookup-erase-none k key m h =
    lookup-erase k key m ∙ elim (Bool-cases (text_eq k key)) [ inl e ↦ rw e refl | inr e ↦ rw e h ]

OnlyOptions-OnlyReadonly : (m : Map) → OnlyOptions m → OnlyReadonly m
OnlyOptions-OnlyReadonly m only key there = elim (only key (λ h. there (kept h))) [
  | names_readonly e ↦ e
  | names_type e ↦ absurd (there (rw (e, lookup-flags_map_iff) refl))
  | names_source (inl e) ↦ absurd (there (rw (e, lookup-flags_map_iff) refl))
  | names_source (inr e) ↦ absurd (there (rw (e, lookup-flags_map_iff) refl))
  | names_destination (inl e) ↦ absurd (there (rw (e, lookup-flags_map_iff) refl))
  | names_destination (inr (inl e)) ↦ absurd (there (rw (e, lookup-flags_map_iff) refl))
  | names_destination (inr (inr e)) ↦ absurd (there (rw (e, lookup-flags_map_iff) refl))
]
  where
    kept : lookup key m ≡ none → lookup key (flags_map m) ≡ none
    kept h = lookup-erase-none (codes "target") key _ (
        lookup-erase-none (codes "dst") key _ (
          lookup-erase-none (codes "destination") key _ (
            lookup-erase-none (codes "src") key _ (
              lookup-erase-none (codes "source") key _
                (lookup-erase-none (codes "type") key m h)))))

abbrev pub flags_of : Map → ℕ
flags_of m = if has (codes "readonly") m then bit_or default_flags ms_rdonly else default_flags

module _ (m : Map) where
  convert_flags_from_rdonly :
      (opts : Map)
      → All (λ kv. kv.0 ≡ codes "readonly") opts
      → convert_flags_from m opts (bit_or default_flags ms_rdonly)
        ≡ ok (bit_or default_flags ms_rdonly)
  unfolding convert_flags_from
  convert_flags_from_rdonly [] h = refl
  convert_flags_from_rdonly ((k, v) ∷ opts) h =
      rw ((text_eq_iff k (codes "readonly")).1 h.0) (convert_flags_from_rdonly opts h.1)

  All-convert_flags_from :
      (opts : Map)
      → All (λ kv. kv.0 ≡ codes "readonly") opts
      → convert_flags_from m opts default_flags ≡ ok (flags_of opts)
  unfolding convert_flags_from
  All-convert_flags_from [] h = refl
  All-convert_flags_from ((k, v) ∷ opts) h =
      ground (arith, text_eq_iff k (codes "readonly"), convert_flags_from_rdonly opts h.1)

  convert_flags_from-All :
      (opts : Map) (flags flags' : ℕ)
      → convert_flags_from m opts flags ≡ ok flags'
      → All (λ kv. kv.0 ≡ codes "readonly") opts
  unfolding convert_flags_from
  convert_flags_from-All [] flags flags' h = tt
  convert_flags_from-All ((k, v) ∷ opts) flags flags' h = ground (
    arith,
    text_eq_iff k (codes "readonly"),
    convert_flags_from-All opts (bit_or flags ms_rdonly) flags',
  )

All-lookup :
    (opts : Map)
    → All (λ kv. kv.0 ≡ codes "readonly") opts
    → (key : Text) → lookup key opts ≢ none
    → key ≡ codes "readonly"
All-lookup [] h key ne = absurd (ne refl)
All-lookup ((k, v) ∷ opts) h key ne = elim (Bool-cases (text_eq k key)) [
  | inl e ↦ ground (arith, text_eq_iff k key)
  | inr e ↦ All-lookup opts h.1 key (rw e at ne)
]

lookup-All :
    (opts : Map)
    → ((key : Text) → lookup key opts ≢ none → key ≡ codes "readonly")
    → All (λ kv. kv.0 ≡ codes "readonly") opts
lookup-All [] h = tt
lookup-All ((k, v) ∷ opts) h = (
  h k (ground (arith, text_eq_iff k k)),
  lookup-All opts (λ key ne. h key (ground (arith, text_eq_iff k key))),
)

lookup-flags_map : (m : Map) → lookup (codes "readonly") (flags_map m) ≡ lookup (codes "readonly") m
lookup-flags_map m = simp lookup-erase

flags_of-flags_map : (m : Map) → flags_of (flags_map m) ≡ flags_of m
flags_of-flags_map m = rw (lookup-flags_map m, has)

-- The flags are computed exactly when every option is one of 'type', 'source', 'src',
-- 'destination', 'dst', 'target' and 'readonly'. They are MS_REC | MS_PRIVATE, with MS_RDONLY
-- added when 'readonly' is given, whatever the order in which the map is walked.
pub convert_bind_mount_flags_iff :
    (m : Map) (flags : ℕ)
    → (convert_bind_mount_flags m ≡ ok flags) ↔ (OnlyOptions m × (flags ≡ flags_of m))
unfolding convert_bind_mount_flags
convert_bind_mount_flags_iff m flags = (
  (λ h.
      let only = convert_flags_from-All m (flags_map m) default_flags flags h in
      let runs = All-convert_flags_from m (flags_map m) only in
      (
        OnlyReadonly-OnlyOptions m (All-lookup (flags_map m) only),
        ok-injective (sym h ∙ runs) ∙ flags_of-flags_map m,
      )),
  λ (only, e).
      All-convert_flags_from m (flags_map m)
        (lookup-All (flags_map m) (OnlyOptions-OnlyReadonly m only))
      ∙ ap ok (flags_of-flags_map m ∙ sym e),
)
