-- ===== src/CliArguments.antt =====
-- src/CLIArguments.cpp and include/libsarus/CLIArguments.hpp: a null-terminated vector of C strings.
-- Each string is a private copy (`strdup`), so an object is the list of its strings with `none` for
-- a null pointer; `Store` names the objects where an operator may be given one object twice. A
-- result `none` is undefined behaviour: a string made from a null pointer, a read out of bounds, or
-- an iteration over a vector that changes. The parameters are `boost::join` and the JSON reader.
pub mod Contents
pub mod Assignment
use libsarus.Base.{
  c_str, ℕ, zero, suc, ◌+◌, ◌-◌, Text, codes, text_eq, Bool, true, false, not, ◌&&◌, List, [], ◌∷◌,
  ◌++◌, length, get_elem?, is_empty, ◌==◌, if◌then◌else◌, Option, none, some,
}
use libsarus.Error.{Result, ok, throws, throw_error, plain}

abbrev pub CliArguments : Type 0
CliArguments = List (Option Text)

-- `CLIArguments()`.
abbrev pub empty_arguments : CliArguments
empty_arguments = none ∷ []

-- `vector::pop_back`, and the range from `begin()` to `end()`: all but the last element.
abbrev pub init {ℓ} : {A : Type ℓ} → List A → List A
init [] = []
init (x ∷ []) = []
init (x ∷ y ∷ xs) = x ∷ init (y ∷ xs)

unfoldable pub push_back : Text → CliArguments → CliArguments
push_back arg args = init args ++ (some (c_str arg) ∷ none ∷ [])

-- `argc`; an object is never without its terminator.
unfoldable pub argc : CliArguments → ℕ
argc args = length args - 1

unfoldable pub empty : CliArguments → Bool
empty args = is_empty (init args)

unfoldable pub clear : CliArguments → CliArguments
clear args = empty_arguments

-- `for (auto *ptr : rhs) { push_back(ptr); }`.
unfoldable pub push_all : List (Option Text) → CliArguments → Option CliArguments
push_all [] args = some args
push_all (none ∷ ptrs) args = none
push_all (some s ∷ ptrs) args = push_all ptrs (push_back s args)

-- `for (int i = 0; i < n; ++i) { push_back(argv[i]); }`, on the rounds that are left.
unfoldable pub push_argv : ℕ → ℕ → List (Option Text) → CliArguments → Option CliArguments
push_argv zero i argv args = some args
push_argv (suc rounds) i argv args = elim (get_elem? argv i) [
  | none ↦ none
  | some none ↦ none
  | some (some s) ↦ push_argv rounds (i + 1) argv (push_back s args)
]

-- `CLIArguments(const CLIArguments &)` and `CLIArguments(int argc, char *argv[])`.
unfoldable pub copy_arguments : CliArguments → Option CliArguments
unfolding push_argv argc
copy_arguments rhs = push_argv (argc rhs) 0 rhs empty_arguments

unfoldable pub of_argv : ℕ → List (Option Text) → Option CliArguments
unfolding push_argv
of_argv n argv = push_argv n 0 argv empty_arguments

-- `CLIArguments(std::initializer_list<std::string>)`, and the constructor from two iterators.
unfoldable pub of_list : List Text → CliArguments → CliArguments
of_list [] args = args
of_list (s ∷ ss) args = of_list ss (push_back s args)

-- `operator==` behind the test of the sizes: `strcmp` at each index.
unfoldable pub equal_argv : ℕ → ℕ → CliArguments → CliArguments → Option Bool
equal_argv zero i lhs rhs = some true
equal_argv (suc rounds) i lhs rhs = elim (get_elem? lhs i) [
  | none ↦ none
  | some none ↦ none
  | some (some s) ↦ elim (get_elem? rhs i) [
    | none ↦ none
    | some none ↦ none
    | some (some t) ↦
        let rest = equal_argv rounds (i + 1) lhs rhs in
        if not (text_eq s t) then some false else rest
  ]
]

unfoldable pub equal : CliArguments → CliArguments → Option Bool
unfolding equal_argv argc
equal lhs rhs = if not (argc lhs == argc rhs) then some false else equal_argv (argc lhs) 0 lhs rhs

-- The objects by their addresses.
abbrev pub Store : Type 0
Store = ℕ → CliArguments

abbrev pub write : ℕ → CliArguments → Store → Store
write l args s a = if a == l then args else s a

abbrev pub stored : ℕ → Store → Option CliArguments → Option Store
stored l s none = none
stored l s (some args) = some (write l args s)

-- `*l = *r`: the left side is cleared before the right side is read.
unfoldable pub assign : ℕ → ℕ → Store → Option Store
assign l r s =
    let cleared = write l (clear (s l)) s in
    stored l cleared (push_all (init (cleared r)) (cleared l))

-- `*l += *r`: on one object that is not empty, the loop's iterators are invalidated.
unfoldable pub add_assign : ℕ → ℕ → Store → Option Store
add_assign l r s =
    if (l == r) && not (empty (s r)) then none else stored l s (push_all (init (s r)) (s l))

-- `operator+` on a copy of the left side.
unfoldable pub add : CliArguments → CliArguments → Option CliArguments
add lhs rhs = elim (copy_arguments lhs) [ none ↦ none | some result ↦ push_all (init rhs) result ]

-- The strings of a range of pointers, as `std::vector<std::string>{begin(), end()}` makes them.
abbrev pub strings : List (Option Text) → Option (List Text)
strings [] = some []
strings (none ∷ ptrs) = none
strings (some s ∷ ptrs) = elim (strings ptrs) [ none ↦ none | some ss ↦ some (s ∷ ss) ]

-- `CLIArguments::string`.
unfoldable pub string : (List Text → Text → Text) → CliArguments → Option Text
string join args = elim (strings (init args)) [ none ↦ none | some ss ↦ some (join ss (codes " ")) ]

-- `operator<<`; the flag is `isFirstArg`. Nothing inside an argument is escaped.
unfoldable pub print_from : Bool → List (Option Text) → Option Text
print_from first [] = some (codes "]")
print_from first (none ∷ ptrs) = none
print_from first (some s ∷ ptrs) = elim (print_from false ptrs) [
  | none ↦ none
  | some rest ↦ some ((if first then [] else codes ", ") ++ (b'"' ∷ (s ++ (b'"' ∷ rest))))
]

unfoldable pub print : CliArguments → Option Text
unfolding print_from
print args = elim (print_from true (init args)) [ none ↦ none | some rest ↦ some (b'[' ∷ rest) ]

-- `operator>>`, from the strings of the JSON array on the stream, if it is one.
unfoldable pub read : (Text → Option (List Text)) → Text → Result CliArguments
unfolding of_list
read json_array stream = elim (json_array stream) [
  | none ↦
      throw_error "operator>>"
        (plain "Failed to deserialize CLIArguments from JSON input stream. Expected a JSON array.")
  | some ss ↦ ok (of_list ss empty_arguments)
]
