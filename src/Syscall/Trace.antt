-- ===== src/Syscall/Trace.antt =====
-- Any sequence of the file calls of student-distrib/system_call.c by one process.
use lime_os.Prelude.{ℕ, ◌<◌, ◌≡◌, Bool, List, Option, none, some, subst}
use mathlib.Core.Option.{some-injective}
use lime_os.Process.{Kernel, pcb}
use lime_os.Syscall.{
  Reply, returned, waits_for_enter, waits_for_clock, fault, read, write, open_call, close, getargs,
}
use lime_os.Syscall.Fds.{IsFdTable, KeepsTable, close-KeepsTable}
use lime_os.Syscall.Calls.{
  read-KeepsTable, write-KeepsTable, open_call-KeepsTable, getargs-KeepsTable,
}

-- A system call with its arguments. A descriptor is a 32-bit register.
pub data Call : Type 0 where
  read_call : (fd : ℕ) → fd < 4294967296 → Bool → ℕ → Call
  write_call : (fd : ℕ) → fd < 4294967296 → Option (List ℕ) → ℕ → Call
  open_file_call : Option (List ℕ) → Call
  close_call : (fd : ℕ) → fd < 4294967296 → Call
  getargs_call : Bool → ℕ → Call

abbrev pub perform : Kernel → Call → Reply
perform k (read_call fd hw null_buf nbytes) = read k fd null_buf nbytes
perform k (write_call fd hw buf nbytes) = write k fd buf nbytes
perform k (open_file_call filename) = open_call k filename
perform k (close_call fd hw) = close k fd
perform k (getargs_call null_buf nbytes) = getargs k null_buf nbytes

-- The kernel's state when the call returns or goes to sleep.
abbrev pub after : Reply → Option Kernel
after (returned ret bytes k) = some k
after (waits_for_enter k) = some k
after (waits_for_clock k) = some k
after fault = none

-- `Runs k r`: the process makes any number of calls, from `k` to `r`.
pub data Runs : Kernel → Kernel → Type 0 where
  done : {k : Kernel} → Runs k k
  call : {k m r : Kernel} (c : Call) → after (perform k c) ≡ some m → Runs m r → Runs k r

perform-KeepsTable : (k : Kernel) (c : Call) → IsFdTable (pcb k).fd_entry → KeepsTable (perform k c)
perform-KeepsTable k (read_call fd hw null_buf nbytes) h = read-KeepsTable k fd null_buf nbytes hw h
perform-KeepsTable k (write_call fd hw buf nbytes) h = write-KeepsTable k fd buf nbytes hw h
perform-KeepsTable k (open_file_call filename) h = open_call-KeepsTable k filename h
perform-KeepsTable k (close_call fd hw) h = close-KeepsTable k fd hw h
perform-KeepsTable k (getargs_call null_buf nbytes) h = getargs-KeepsTable k null_buf nbytes h

after-IsFdTable :
    (reply : Reply) (m : Kernel)
    → KeepsTable reply
    → after reply ≡ some m
    → IsFdTable (pcb m).fd_entry
after-IsFdTable (returned ret bytes k) m h e =
    subst (λ (m : Kernel). IsFdTable (pcb m).fd_entry) (some-injective _ _ e) h
after-IsFdTable (waits_for_enter k) m h e =
    subst (λ (m : Kernel). IsFdTable (pcb m).fd_entry) (some-injective _ _ e) h
after-IsFdTable (waits_for_clock k) m h e =
    subst (λ (m : Kernel). IsFdTable (pcb m).fd_entry) (some-injective _ _ e) h
after-IsFdTable fault m h e = absurd h

Runs-IsFdTable : {k r : Kernel} → Runs k r → IsFdTable (pcb k).fd_entry → IsFdTable (pcb r).fd_entry
Runs-IsFdTable done h = h
Runs-IsFdTable {k = k} (call {m = m} c e rest) h =
    Runs-IsFdTable rest (after-IsFdTable (perform k c) m (perform-KeepsTable k c h) e)

-- Whatever sequence of read, write, open, close and getargs a process makes from a well-formed table,
-- its table stays well formed and its next call, whichever it is, does not jump through a NULL
-- pointer or to a function of another kind.
pub Runs-KeepsTable :
    {k r : Kernel}
    → Runs k r
    → IsFdTable (pcb k).fd_entry
    → (c : Call) → IsFdTable (pcb r).fd_entry × KeepsTable (perform r c)
Runs-KeepsTable {r = r} run h c =
    (Runs-IsFdTable run h, perform-KeepsTable r c (Runs-IsFdTable run h))
