-- ===== src/Idt/Faults.antt =====
-- A program that raises an exception: student-distrib/idt.h and halt_256 of system_call.c.
use lime_os.Prelude.{
  ℕ, ◌<◌, ◌≡◌, refl, ap, ◌∙◌, subst, sym, false, List, [], Option, none, some, ◌==◌, update, arith,
}
use lime_os.Strings.{printf}
use lime_os.Process.{Kernel, pcb, free, program_mapping}
use lime_os.Syscall.Fds.{IsFdTable}
use lime_os.Execute.{Stack, enters, execute, resumes, print}
use lime_os.Execute.Halting.{way_back, halt_256-resumes}
use lime_os.Idt.Gates.{handler_of}
use lime_os.Idt.Handlers.{halts, raise_exception, message, handle}

handle-exception :
    (n : ℕ) (l : Stack) (scancode : ℕ) (k : Kernel)
    → n < 20
    → handle (handler_of n) l scancode k ≡ halts (raise_exception (message (handler_of n)) l k)
unfolding handle handler_of
handle-exception n l scancode k h = ground arith

-- What a line of text on the screen does not change.
record KeepsProcesses (k m : Kernel) : Type 0 where
  same_pid : m.current_pid ≡ k.current_pid
  same_pcb : pcb m ≡ pcb k
  same_flags : m.pid_flags ≡ k.pid_flags

print-KeepsProcesses : (k : Kernel) (text : Option (List ℕ)) → KeepsProcesses k (print k text)
print-KeepsProcesses k none = record { same_pid = refl; same_pcb = refl; same_flags = refl }
print-KeepsProcesses k (some s) = record { same_pid = refl; same_pcb = refl; same_flags = refl }

-- A program that execute entered from a process in use, and that raises one of the twenty exceptions,
-- whatever it did to anything but its own way back, with its table of files well formed, is halted: the
-- parent runs again with its esp, ebp, kernel stack and page, execute returns 256, and of the flags only
-- that of the program is cleared.
pub exception-resumes :
    (n : ℕ) (l l' : Stack) (scancode : ℕ) (k k1 k2 : Kernel) (command : Option (List ℕ)) (eip : ℕ)
    → n < 20
    → (k.pid_flags k.current_pid == free) ≡ false
    → execute l k command ≡ enters eip k1
    → k2.current_pid ≡ k1.current_pid
    → way_back (pcb k2) ≡ way_back (pcb k1)
    → IsFdTable (pcb k2).fd_entry
    → (r : Kernel) × (handle (handler_of n) l' scancode k2 ≡ halts (resumes 256 r))
      × (r.current_pid ≡ k.current_pid)
      × (r.esp ≡ k.esp)
      × (r.ebp ≡ k.ebp)
      × (r.esp0 ≡ k.esp0)
      × (r.program_entry ≡ program_mapping k.current_pid)
      × (r.pid_flags ≡ update k2.pid_flags k1.current_pid 0)
unfolding raise_exception
exception-resumes n l l' scancode k k1 k2 command eip hn used he hc hw h =
    let kept : KeepsProcesses k2 (print k2 text) = print-KeepsProcesses k2 text in
    let (r, eq, pid, esp, ebp, esp0, entry, flags) =
      halt_256-resumes l l' k k1 (print k2 text) command eip 256 used he (kept.same_pid ∙ hc)
        (ap way_back kept.same_pcb ∙ hw)
        (subst (λ p. IsFdTable p.fd_entry) (sym kept.same_pcb) h) in
    (
      r,
      handle-exception n l' scancode k2 hn ∙ ap halts eq,
      pid,
      esp,
      ebp,
      esp0,
      entry,
      flags ∙ ap (λ f. update f k1.current_pid 0) kept.same_flags,
    )
  where
    text : Option (List ℕ)
    text = (printf (message (handler_of n)) []).0
