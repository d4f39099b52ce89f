-- ===== src/PasswdDb.antt =====
-- src/PasswdDB.cpp and include/libsarus/PasswdDB.hpp: the password database. The parameters are
-- `boost::split`, `std::stoul`, the printing of unsigned numbers, and the lines of a stream as
-- `std::getline` gives them. The debug message of `getHomeDirectory` is left out.
pub mod RoundTrip
use libsarus.Base.{
  ℕ, ◌%◌, ◌^◌, Text, is_empty, List, [], ◌∷◌, ◌++◌, ◌==◌, if◌then◌else◌, Option, none, some,
}
use libsarus.Error.{Result, ok, throws, throw_error, format, text, number, end, ◌>>=◌}

pub record Entry : Type 0 where
  pub login_name : Text
  pub encrypted_password : Text
  pub uid : ℕ
  pub gid : ℕ
  pub user_name_or_comment_field : Text
  pub user_home_directory : Text
  pub user_command_interpreter : Option Text

-- An empty last token is no interpreter.
abbrev pub interpreter : Text → Option Text
interpreter t = if is_empty t then none else some t

abbrev pub printed : Option Text → Text
printed none = []
printed (some path) = path

-- The value of type `unsigned long` is stored in 32 bits.
abbrev pub to_id : ℕ → ℕ
to_id n = n % 2 ^ 32

unfoldable pub get_username : List Entry → ℕ → Result Text
get_username [] uid =
    throw_error "getUsername" (format "Failed to retrieve username for uid=%d" (number uid end))
get_username (entry ∷ entries) uid =
    let rest = get_username entries uid in if entry.uid == uid then ok entry.login_name else rest

unfoldable pub get_home_directory : List Entry → ℕ → Result Text
get_home_directory [] uid =
    throw_error "getHomeDirectory"
      (format "Failed to retrieve home directory for uid=%d" (number uid end))
get_home_directory (entry ∷ entries) uid =
    let rest = get_home_directory entries uid in
    if entry.uid == uid then ok entry.user_home_directory else rest

module _ (show : ℕ → Text) where
  -- What `write` prints of an entry, without the end of the line.
  unfoldable pub entry_line : Entry → Text
  entry_line e =
      e.login_name
      ++ (b':'
          ∷ (e.encrypted_password
              ++ (b':'
                  ∷ (show e.uid
                      ++ (b':'
                          ∷ (show e.gid
                              ++ (b':'
                                  ∷ (e.user_name_or_comment_field
                                      ++ (b':'
                                          ∷ (e.user_home_directory
                                              ++ (b':'
                                                  ∷ printed e.user_command_interpreter)))))))))))

  unfoldable pub write : List Entry → Text
  write [] = []
  write (e ∷ entries) = entry_line e ++ (b'\n' ∷ write entries)

module _ (split : ℕ → Text → List Text) (stoul : Text → Result ℕ) where
  -- The fields from the tokens; the last argument is the seventh token, or the empty text.
  unfoldable pub make_entry : Text → Text → Text → Text → Text → Text → Text → Result Entry
  make_entry login password uid gid comment home shell = do
    u ← stoul uid
    g ← stoul gid
    ok (record {
      login_name = login;
      encrypted_password = password;
      uid = to_id u;
      gid = to_id g;
      user_name_or_comment_field = comment;
      user_home_directory = home;
      user_command_interpreter = interpreter shell;
    })

  -- Six or seven tokens make an entry.
  unfoldable pub of_tokens : Text → List Text → Result Entry
  of_tokens line (a ∷ b ∷ c ∷ d ∷ e ∷ f ∷ []) = make_entry a b c d e f []
  of_tokens line (a ∷ b ∷ c ∷ d ∷ e ∷ f ∷ g ∷ []) = make_entry a b c d e f g
  of_tokens line _ =
      throw_error "parseLine"
        (format "Failed to parse line \"%s\": bad number of tokens" (text line end))

  unfoldable pub parse_line : Text → Result Entry
  parse_line line = of_tokens line (split b':' line)

  -- The loop of `read` over the lines.
  unfoldable pub parse_lines : List Text → Result (List Entry)
  parse_lines [] = ok []
  parse_lines (line ∷ lines) = do
    entry ← parse_line line
    entries ← parse_lines lines
    ok (entry ∷ entries)

  -- `read`, on the text of the stream; `lines` is the loop of `std::getline`.
  unfoldable pub read : (Text → List Text) → Text → Result (List Entry)
  read lines stream = parse_lines (lines stream)
