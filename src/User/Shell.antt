-- ===== src/User/Shell.antt =====
-- The shell, syscalls/ece391shell.c. Its buffer is the list of the bytes up to the '\0' that it stores; a round is
-- one command.
pub mod Reports
mod Tests
use lime_os.Prelude.{
  ℕ, zero, suc, ◌-◌, ◌&&◌, List, [], ◌∷◌, take, minus_one, lt_signed, ◌==◌, if◌then◌else◌,
}
use lime_os.User.{
  World, User, pure, no_rounds, ◌>>=◌, ◌>>◌, ece391_read, ece391_execute, ece391_fdputs,
}
use lime_os.User.Support.{ece391_strcmp}
use lime_os.User.Texts

-- A byte of a buffer, with the '\0' at its end.
abbrev pub byte_at : List ℕ → ℕ → ℕ
byte_at [] i = 0
byte_at (c ∷ s) zero = c
byte_at (c ∷ s) (suc i) = byte_at s i

-- What the shell says of a program's value.
abbrev pub report : ℕ → User Unit
report rval =
    if rval == minus_one
    then ece391_fdputs 1 Texts.no_such_command
    else if rval == 256
    then ece391_fdputs 1 Texts.by_exception
    else if rval == 0
    then pure tt
    else ece391_fdputs 1 Texts.abnormally

-- The command typed, without its newline.
abbrev pub command : ℕ → List ℕ → List ℕ
command cnt buf =
    if lt_signed 0 cnt && (byte_at buf (cnt - 1) == b'\n') then take (cnt - 1) buf else take cnt buf

-- The loop, with its rounds.
unfoldable pub shell_loop : World → ℕ → User ℕ
shell_loop w zero = λ k. no_rounds
shell_loop w (suc rounds) = do
  ece391_fdputs 1 Texts.prompt
  r ← ece391_read w 0 1023
  if r.0 == minus_one
      then (ece391_fdputs 1 Texts.keyboard_failed >> pure 3)
      else if ece391_strcmp (command r.0 r.1) Texts.exit_command == 0
      then pure 0
      else if byte_at (command r.0 r.1) 0 == 0
      then shell_loop w rounds
      else (do rval ← ece391_execute w (command r.0 r.1); report rval; shell_loop w rounds)

-- `main` of the shell.
unfoldable pub shell_main : World → ℕ → User ℕ
shell_main w rounds = ece391_fdputs 1 Texts.shell_starts >> shell_loop w rounds
