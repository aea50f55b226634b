-- ===== src/User/Puts.antt =====
-- ece391_fdputs of syscalls/ece391support.c on standard output.
use lime_os.Prelude.{
  ℕ, ◌<◌, ◌≡◌, refl, ap, ◌∙◌, false, List, [], ◌∷◌, ◌++◌, length, length-append, ◌==◌, arith,
}
use lime_os.Strings.Compare.{IsString}
use lime_os.Process.{stdout_table, Kernel, free, in_use}
use lime_os.Syscall.{entry}
use lime_os.Syscall.Written.{written, write-written}
use lime_os.User.{done, ece391_write, ece391_fdputs}
use lime_os.User.Support.{ece391_strlen}
use lime_os.User.Cat.Reads.{shown, written-shown, shown-text}

pub fdputs-written :
    (k : Kernel) (s : List ℕ)
    → (entry k 1).flags ≡ in_use
    → (entry k 1).operations ≡ stdout_table
    → ece391_strlen s ≡ length s
    → length s < 2147483648
    → ece391_fdputs 1 s k ≡ done tt (written k s)
unfolding ece391_fdputs ece391_write
fdputs-written k s used ops same small =
    rw (same, write-written k s (length s) (ap (λ f. f == free) used) ops refl small) refl

pub strlen-IsString : (s : List ℕ) → IsString s → ece391_strlen s ≡ length s
unfolding ece391_strlen
strlen-IsString [] h = refl
strlen-IsString (c ∷ s) h =
    let letter : (c == 0) ≡ false = ground (arith, h.0) in
    rw (letter, strlen-IsString s h.2) (omega arith)

-- A text behind those that stand.
pub fdputs-appends :
    (k : Kernel) (before s : List ℕ)
    → (entry k 1).flags ≡ in_use
    → (entry k 1).operations ≡ stdout_table
    → IsString s
    → 0 < length s
    → length s < 2147483648
    → ece391_fdputs 1 s (shown k before) ≡ done tt (shown k (before ++ s))
fdputs-appends k before s used ops h some_text small =
    fdputs-written (shown k before) s used ops (strlen-IsString s h) small
    ∙ ap (done tt) (
        written-shown k before s
        ∙ shown-text k (before ++ s) (omega (arith, length-append before s)))
