-- ===== src/PasswdDb/RoundTrip.antt =====
-- What `write` prints, `read` reads back.
use mathlib.Core.List.{cons-ne-nil}
use libsarus.Base.{
  ℕ, ◌<◌, ◌^◌, Text, List, [], ◌∷◌, ◌++◌, All, Option, none, some, ◌≡◌, ◌≢◌, refl, ap, ◌∙◌, arith,
  map,
}
use libsarus.Error.{Result, ok}
use libsarus.Split.{Lacks, IsSplit}
use libsarus.Split.Tokens.{split-join}
use libsarus.PasswdDb.{
  Entry, interpreter, printed, to_id, entry_line, write, make_entry, of_tokens, parse_line,
  parse_lines, read,
}

-- Numbers are printed without colons, and `std::stoul` reads them back.
pub record IsDecimal (show : ℕ → Text) (stoul : Text → Result ℕ) : Type 0 where
  pub stoul-show : (n : ℕ) → n < 2 ^ 64 → stoul (show n) ≡ ok n
  pub no_colon : (n : ℕ) → Lacks b':' (show n)

-- Each line of a stream ends at a newline, and an empty stream has no line.
pub record IsGetline (lines : Text → List Text) : Type 0 where
  pub no_line : lines [] ≡ []
  pub first_line : (l rest : Text) → Lacks b'\n' l → lines (l ++ (b'\n' ∷ rest)) ≡ l ∷ lines rest

-- No field holds a colon, the ids fit 32 bits, and an interpreter that is given is not empty.
pub record IsClean (e : Entry) : Type 0 where
  pub login_clean : Lacks b':' e.login_name
  pub password_clean : Lacks b':' e.encrypted_password
  pub uid_fits : e.uid < 2 ^ 32
  pub gid_fits : e.gid < 2 ^ 32
  pub comment_clean : Lacks b':' e.user_name_or_comment_field
  pub home_clean : Lacks b':' e.user_home_directory
  pub shell_clean : Lacks b':' (printed e.user_command_interpreter)
  pub shell_ne_nil : e.user_command_interpreter ≢ some []

to_id_small : (n : ℕ) → n < 2 ^ 32 → to_id n ≡ n
to_id_small n h = omega (arith, h)

interpreter-printed : (o : Option Text) → o ≢ some [] → interpreter (printed o) ≡ o
interpreter-printed none ne = refl
interpreter-printed (some []) ne = absurd (ne refl)
interpreter-printed (some (c ∷ s)) ne = refl

module _ (split : ℕ → Text → List Text) (show : ℕ → Text) (stoul : Text → Result ℕ)
    (laws : IsSplit split) (decimal : IsDecimal show stoul) where
  fields : Entry → List Text
  fields e =
      e.login_name
      ∷ e.encrypted_password
      ∷ show e.uid
      ∷ show e.gid
      ∷ e.user_name_or_comment_field
      ∷ e.user_home_directory
      ∷ printed e.user_command_interpreter
      ∷ []

  make_entry-fields :
      (e : Entry)
      → IsClean e
      → make_entry split stoul e.login_name e.encrypted_password
          (show e.uid)
          (show e.gid)
          e.user_name_or_comment_field
          e.user_home_directory
          (printed e.user_command_interpreter)
        ≡ ok e
  unfolding make_entry
  make_entry-fields e c =
      rw
        (
          decimal.stoul-show e.uid (omega (arith, c.uid_fits)),
          decimal.stoul-show e.gid (omega (arith, c.gid_fits)),
          to_id_small e.uid c.uid_fits,
          to_id_small e.gid c.gid_fits,
          interpreter-printed e.user_command_interpreter c.shell_ne_nil,
        )
        refl

  parse_line-entry_line :
      (e : Entry) → IsClean e → parse_line split stoul (entry_line show e) ≡ ok e
  unfolding parse_line of_tokens entry_line fields
  parse_line-entry_line e c =
      rw
        (split-join split laws b':' (fields e) (cons-ne-nil _ _) (
          c.login_clean,
          (
            c.password_clean,
            (
              decimal.no_colon e.uid,
              (decimal.no_colon e.gid, (c.comment_clean, (c.home_clean, (c.shell_clean, tt)))),
            ),
          ),
        ))
        (make_entry-fields e c)

  parse_lines-entry_line :
      (entries : List Entry)
      → All IsClean entries
      → parse_lines split stoul (map (entry_line show) entries) ≡ ok entries
  unfolding parse_lines
  parse_lines-entry_line [] h = refl
  parse_lines-entry_line (e ∷ entries) h =
      rw (parse_line-entry_line e h.0, parse_lines-entry_line entries h.1) refl

  module _ (lines : Text → List Text) (getline : IsGetline lines) where
    lines-write :
        (entries : List Entry)
        → All (λ e. Lacks b'\n' (entry_line show e)) entries
        → lines (write show entries) ≡ map (entry_line show) entries
    unfolding write
    lines-write [] h = getline.no_line
    lines-write (e ∷ entries) h =
        getline.first_line (entry_line show e) (write show entries) h.0
        ∙ ap (◌∷◌ (entry_line show e)) (lines-write entries h.1)

    -- For a `boost::split`, a printing of numbers with `std::stoul`, and a `std::getline` with
    -- their laws, `read` gives back the entries that `write` printed, if no field holds a colon,
    -- no printed line a newline, the ids fit 32 bits, and no interpreter is given as an empty
    -- path.
    pub read-write :
        (entries : List Entry)
        → All IsClean entries
        → All (λ e. Lacks b'\n' (entry_line show e)) entries
        → read split stoul lines (write show entries) ≡ ok entries
    unfolding read
    read-write entries clean one_line =
        rw (lines-write entries one_line) (parse_lines-entry_line entries clean)
