-- ===== src/User/Cat.antt =====
-- The programs that copy a file or the directory to the screen, syscalls/ece391cat.c and syscalls/ece391ls.c. A
-- buffer is the list of the bytes that the last call stored in it.
pub mod Reads
pub mod Prints
pub mod Lists
mod Tests
use lime_os.Prelude.{ℕ, zero, suc, ◌+◌, List, [], ◌∷◌, ◌++◌, take, minus_one, ◌==◌, if◌then◌else◌}
use lime_os.User.{
  World, User, pure, no_rounds, ◌>>=◌, ◌>>◌, ece391_read, ece391_write, ece391_open, ece391_getargs,
  ece391_fdputs,
}
use lime_os.User.Texts

-- The string in a buffer.
abbrev pub text_of : List ℕ → List ℕ
text_of [] = []
text_of (c ∷ s) = let rest = text_of s in if c == 0 then [] else c ∷ rest

-- The loop of cat, with its rounds.
unfoldable pub cat_loop : World → ℕ → ℕ → User ℕ
cat_loop w zero fd = λ k. no_rounds
cat_loop w (suc rounds) fd = do
  r ← ece391_read w fd 1024
  if r.0 == 0
      then pure 0
      else if r.0 == minus_one
      then (ece391_fdputs 1 Texts.read_failed >> pure 3)
      else (do
        ret ← ece391_write 1 r.1 r.0
        if ret == minus_one then pure 3 else cat_loop w rounds fd)

-- `main` of cat.
unfoldable pub cat_main : World → ℕ → User ℕ
cat_main w rounds = do
  args ← ece391_getargs 1024
  if args.0 == 0
      then (do
        fd ← ece391_open (text_of args.1)
        if fd == minus_one
            then (ece391_fdputs 1 Texts.not_found >> pure 2)
            else cat_loop w rounds fd)
      else (ece391_fdputs 1 Texts.no_arguments >> pure 3)

-- The loop of ls: `buf[cnt] = '\n'` ends each name.
unfoldable pub ls_loop : World → ℕ → ℕ → User ℕ
ls_loop w zero fd = λ k. no_rounds
ls_loop w (suc rounds) fd = do
  r ← ece391_read w fd 32
  if r.0 == 0
      then pure 0
      else if r.0 == minus_one
      then (ece391_fdputs 1 Texts.entry_failed >> pure 3)
      else (do
        ret ← ece391_write 1 (take r.0 r.1 ++ b'\n' ∷ []) (r.0 + 1)
        if ret == minus_one then pure 3 else ls_loop w rounds fd)

-- `main` of ls.
unfoldable pub ls_main : World → ℕ → User ℕ
ls_main w rounds = do
  fd ← ece391_open (b'.' ∷ [])
  if fd == minus_one
      then (ece391_fdputs 1 Texts.directory_failed >> pure 2)
      else ls_loop w rounds fd
