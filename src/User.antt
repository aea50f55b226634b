-- ===== src/User.antt =====
-- What the user programs of syscalls/ stand on: the system calls of ece391syscall.S as actions on the kernel's
-- state, and the functions of ece391support.c. A program runs alone but while it waits: what happens then is
-- given by a `World`.
pub mod Support
pub mod Logic
pub mod Syserr
pub mod Texts
pub mod Cat
pub mod Shell
pub mod Puts
pub mod Counter
use lime_os.Prelude.{
  ℕ, Bool, false, List, [], ◌∷◌, ◌||◌, Option, none, some, minus_one, lt_signed, if◌then◌else◌,
}
use lime_os.Process.{Kernel}
use lime_os.Syscall.{
  Reply, returned, waits_for_enter, waits_for_clock, fault, read, write, open_call, close, getargs,
  vidmap, finish_terminal_read,
}
use lime_os.Execute.{Stack, Executed, refused, enters, overflows, out_of_rounds, execute}
use lime_os.User.Support.{ece391_strlen}

-- How a part of a program ends: with a value; in a jump of the kernel through a NULL pointer, or a write past
-- a buffer or a program's page; in a wait that does not end; or with the rounds of a loop used up.
pub data Ran (A : Type 0) : Type 0 where
  done : A → Kernel → Ran A
  faults : Ran A
  sleeps : Ran A
  no_rounds : Ran A

abbrev pub User : Type 0 → Type 0
User A = Kernel → Ran A

abbrev pub pure : {A : Type 0} → A → User A
pure a k = done a k

abbrev pub continue_with : {A B : Type 0} → Ran A → (A → User B) → Ran B
continue_with (done a k) f = f a k
continue_with faults f = faults
continue_with sleeps f = sleeps
continue_with no_rounds f = no_rounds

infixl 5 ◌>>=◌ ◌>>◌
abbrev pub ◌>>=◌ : {A B : Type 0} → User A → (A → User B) → User B
(p >>= f) k = continue_with (p k) f

abbrev pub ◌>>◌ : {A B : Type 0} → User A → User B → User B
p >> q = p >>= λ _. q

-- What the rest of the system does to the kernel while the program waits for a line, and for the clock; the run
-- of a program that was entered, up to its halt; the stack on which the kernel's execute runs; and a system call
-- by its number, with whatever the registers hold.
pub record World : Type 0 where
  pub on_enter : Kernel → Kernel
  pub on_clock : Kernel → Kernel
  pub run_child : Kernel → Ran ℕ
  pub execute_stack : Stack
  pub numbered : ℕ → Kernel → Ran ℕ

abbrev pub typed : Kernel → Option (ℕ × List ℕ) → Ran (ℕ × List ℕ)
typed k none = sleeps
typed k (some line) = done line k

-- The value of a call, with the bytes that it stores to the buffer.
abbrev pub reading : World → Reply → Ran (ℕ × List ℕ)
reading w (returned ret bytes k) = done (ret, bytes) k
reading w (waits_for_enter k) = typed (w.on_enter k) (finish_terminal_read (w.on_enter k))
reading w (waits_for_clock k) = done (0, []) (w.on_clock k)
reading w fault = faults

-- The same of a call that does not wait.
abbrev pub storing : Reply → Ran (ℕ × List ℕ)
storing (returned ret bytes k) = done (ret, bytes) k
storing (waits_for_enter k) = sleeps
storing (waits_for_clock k) = sleeps
storing fault = faults

-- The value of a call that neither stores nor waits.
abbrev pub calling : Reply → Ran ℕ
calling (returned ret bytes k) = done ret k
calling (waits_for_enter k) = sleeps
calling (waits_for_clock k) = sleeps
calling fault = faults

abbrev executing : World → Executed → Ran ℕ
executing w (refused ret k) = done ret k
executing w (enters eip k) = w.run_child k
executing w overflows = faults
executing w out_of_rounds = no_rounds

unfoldable pub ece391_read : World → ℕ → ℕ → User (ℕ × List ℕ)
ece391_read w fd nbytes k = reading w (read k fd false nbytes)

unfoldable pub ece391_write : ℕ → List ℕ → ℕ → User ℕ
ece391_write fd buf nbytes k = calling (write k fd (some buf) nbytes)

unfoldable pub ece391_open : List ℕ → User ℕ
ece391_open filename k = calling (open_call k (some filename))

unfoldable pub ece391_close : ℕ → User ℕ
ece391_close fd k = calling (close k fd)

unfoldable pub ece391_getargs : ℕ → User (ℕ × List ℕ)
ece391_getargs nbytes k = storing (getargs k false nbytes)

unfoldable pub ece391_vidmap : ℕ → User ℕ
ece391_vidmap screen_start k = done (vidmap k screen_start).0 k

unfoldable pub ece391_execute : World → List ℕ → User ℕ
ece391_execute w command k = executing w (execute w.execute_stack k (some command))

-- sys_handler of student-distrib/system_wrapper.S: eax is a signed number, and its jump table has ten functions.
unfoldable pub sys_handler : World → ℕ → User ℕ
sys_handler w eax k =
    let call = w.numbered eax k in
    if lt_signed eax 1 || lt_signed 10 eax then done minus_one k else call

unfoldable pub ece391_fdputs : ℕ → List ℕ → User Unit
ece391_fdputs fd s = ece391_write fd s (ece391_strlen s) >>= λ _. pure tt
