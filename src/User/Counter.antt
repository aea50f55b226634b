-- ===== src/User/Counter.antt =====
-- The program that counts, syscalls/ece391counter.c. itoa is that of the kernel.
pub mod Counts
mod Tests
use lime_os.Prelude.{
  ℕ, Bool, zero, suc, ◌+◌, ◌&&◌, ◌||◌, List, [], ◌∷◌, take, ltb, minus_one, ◌==◌, if◌then◌else◌,
}
use lime_os.Strings.{itoa}
use lime_os.User.{World, User, pure, ◌>>=◌, ◌>>◌, ece391_read, ece391_fdputs}
use lime_os.User.Support.{ece391_strlen}
use lime_os.User.Shell.{byte_at}
use lime_os.User.Texts

-- The switch.
unfoldable pub counter_max : ℕ → ℕ
counter_max c =
    if c == b'0' then 100 else if c == b'1' then 10000 else if c == b'2' then 100000 else 0

-- The loop from `i` on, with the rounds left.
unfoldable pub counter_loop : ℕ → ℕ → User Unit
counter_loop zero i = pure tt
counter_loop (suc n) i = do
  ece391_fdputs 1 (itoa (i + 1) 10)
  ece391_fdputs 1 (b'\n' ∷ [])
  counter_loop n (i + 1)

-- The test of the choice.
abbrev pub is_wrong : List ℕ → Bool
is_wrong buf =
    ltb 2 (ece391_strlen buf)
    || (ece391_strlen buf == 2 && (ltb (byte_at buf 0) b'0' || ltb b'2' (byte_at buf 0)))

-- `main` of counter.
unfoldable pub counter_main : World → User ℕ
counter_main w = do
  ece391_fdputs 1 Texts.choose_test
  r ← ece391_read w 0 1023
  if r.0 == minus_one
      then (ece391_fdputs 1 Texts.number_failed >> pure 3)
      else if is_wrong (take r.0 r.1)
      then (ece391_fdputs 1 Texts.wrong_choice >> pure 0)
      else (counter_loop (counter_max (byte_at (take r.0 r.1) 0)) 0 >> pure 0)
