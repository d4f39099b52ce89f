-- ===== src/Tests/Passwords.antt =====
-- A password database of two entries.
use libsarus.Base.{
  ℕ, ◌+◌, ◌-◌, Text, codes, List, [], ◌∷◌, ◌++◌, ◌==◌, if◌then◌else◌, none, some, ◌≡◌, refl, ap,
  arith,
}
use libsarus.Error.{Result, ok, throw_error, plain}
use libsarus.Split.{split_on, Lacks}
use libsarus.Split.Tokens.{split_on-IsSplit}
use libsarus.PasswdDb.{Entry, entry_line, write, read, get_username}
use libsarus.PasswdDb.RoundTrip.{IsDecimal, IsClean, IsGetline, read-write}

-- Numbers as single characters above the colon.
abbrev show : ℕ → Text
show n = (n + 100) ∷ []

abbrev stoul : Text → Result ℕ
stoul (c ∷ []) = ok (c - 100)
stoul _ = throw_error "stoul" (plain "stoul")

show-IsDecimal : IsDecimal show stoul
show-IsDecimal = record { stoul-show = λ n h. ap ok (omega arith); no_colon = λ n. ground arith }

abbrev onto_line : ℕ → List Text → List Text
onto_line c [] = (c ∷ []) ∷ []
onto_line c (l ∷ ls) = (c ∷ l) ∷ ls

abbrev lines : Text → List Text
lines [] = []
lines (c ∷ s) = let rest = lines s in if c == b'\n' then [] ∷ rest else onto_line c rest

first_line_of : (l rest : Text) → Lacks b'\n' l → lines (l ++ (b'\n' ∷ rest)) ≡ l ∷ lines rest
first_line_of [] rest h = refl
first_line_of (c ∷ l) rest h = ground (arith, first_line_of l rest)

lines-IsGetline : IsGetline lines
lines-IsGetline = record { no_line = refl; first_line = first_line_of }

abbrev root : Entry
root = record {
  login_name = codes "root";
  encrypted_password = codes "x";
  uid = 0;
  gid = 0;
  user_name_or_comment_field = [];
  user_home_directory = codes "/root";
  user_command_interpreter = some (codes "/bin/sh");
}

abbrev nobody : Entry
nobody = record {
  login_name = codes "nobody";
  encrypted_password = codes "x";
  uid = 99;
  gid = 99;
  user_name_or_comment_field = codes "Nobody";
  user_home_directory = codes "/";
  user_command_interpreter = none;
}

get_username_run : get_username (root ∷ nobody ∷ []) 99 ≡ ok (codes "nobody")
unfolding get_username
get_username_run = refl

root-IsClean : IsClean root
root-IsClean = record {
  login_clean = refl;
  password_clean = refl;
  uid_fits = omega arith;
  gid_fits = omega arith;
  comment_clean = refl;
  home_clean = refl;
  shell_clean = refl;
  shell_ne_nil = λ h. cc h;
}

nobody-IsClean : IsClean nobody
nobody-IsClean = record {
  login_clean = refl;
  password_clean = refl;
  uid_fits = omega arith;
  gid_fits = omega arith;
  comment_clean = refl;
  home_clean = refl;
  shell_clean = refl;
  shell_ne_nil = λ h. cc h;
}

read-write_example :
    read split_on stoul lines (write show (root ∷ nobody ∷ [])) ≡ ok (root ∷ nobody ∷ [])
unfolding entry_line
read-write_example =
    read-write split_on show stoul split_on-IsSplit show-IsDecimal lines lines-IsGetline
      (root ∷ nobody ∷ []) (root-IsClean, (nobody-IsClean, tt)) (refl, (refl, tt))
