-- ===== src/Setup/Shell.antt =====
-- `shellEscape` of setup/run.js, and `run` of setup/main.js, which builds a command line from it.
pub mod Quoted
mod Tests
use cosmic_swingset.Base.{
  leb, nat_beq, if◌then◌else◌, any, Result, ok, err, ℕ, Bool, ◌&&◌, ◌||◌, List, [], ◌∷◌, ◌++◌,
}
use cosmic_swingset.Base.Text.{Text, codes}

-- `\s`
abbrev pub is_space : ℕ → Bool
is_space c =
    nat_beq c 32
    || (leb 9 c && leb c 13)
    || nat_beq c 160
    || nat_beq c 5760
    || (leb 8192 c && leb c 8202)
    || nat_beq c 8232
    || nat_beq c 8233
    || nat_beq c 8239
    || nat_beq c 8287
    || nat_beq c 12288
    || nat_beq c 65279

-- the characters of the class in `shellMetaRegexp`
abbrev pub listed : Text
listed = codes "[]'\"\\`$;*?{}"

-- a character that `shellMetaRegexp` matches
abbrev pub is_meta : ℕ → Bool
is_meta c = is_space c || any (λ d. nat_beq d c) listed

-- `arg.match(shellMetaRegexp)`
abbrev pub has_meta : Text → Bool
has_meta = any is_meta

-- `arg.replace(/(["\\])/g, '\\$1')`
unfoldable pub backslash : Text → Text
backslash [] = []
backslash (c ∷ cs) =
    if nat_beq c b'"' || nat_beq c b'\\' then b'\\' ∷ c ∷ backslash cs else c ∷ backslash cs

unfoldable pub shell_escape : Text → Text
unfolding backslash
shell_escape arg = if has_meta arg then b'"' ∷ (backslash arg ++ b'"' ∷ []) else arg

-- `escapedArgs.join(' ')`
pub join_escaped : List Text → Text
unfolding shell_escape
join_escaped [] = []
join_escaped (a ∷ []) = shell_escape a
join_escaped (a ∷ b ∷ rest) = shell_escape a ++ (32 ∷ join_escaped (b ∷ rest))

pub data Thrown : Type 0 where
  needs_host_and_cmd : Thrown

-- `runArg`, from the words of the command
pub run_arg : Text → List Text → Text
unfolding join_escaped
run_arg cmd [] = if has_meta cmd then codes "sh -c " ++ shell_escape cmd else cmd
run_arg cmd (a ∷ rest) = codes "sh -c " ++ shell_escape (join_escaped (cmd ∷ a ∷ rest))

-- `case 'run'`: the command that is run
pub run_command : List Text → Result Thrown (List Text)
unfolding run_arg
run_command [] = err needs_host_and_cmd
run_command ([] ∷ rest) = err needs_host_and_cmd
run_command ((c ∷ cs) ∷ []) = err needs_host_and_cmd
run_command ((c ∷ cs) ∷ cmd ∷ rest) =
    ok (codes "ansible" ∷ codes "-f10" ∷ (c ∷ cs) ∷ codes "-a" ∷ run_arg cmd rest ∷ [])
