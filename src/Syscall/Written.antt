-- ===== src/Syscall/Written.antt =====
-- write on standard output as a change of the kernel, and several writes as one: student-distrib/system_call.c with
-- student-distrib/terminal.c.
use lime_os.Prelude.{
  ℕ, zero, suc, ◌<◌, ◌≡◌, refl, ap, ap₂, ◌∙◌, false, List, [], ◌∷◌, ◌++◌, some, length, take, ◌==◌,
  update, update_self, update_twice, arith,
}
use lime_os.Console.{terminal_write, write_chars, write_rounds}
use lime_os.Console.Append.{written_on, written_on-append, settle-terminal_num}
use lime_os.Process.{
  stdout_table, FdEntry, Pcb, Kernel, pcb, free, get_tty, terminal_num, with_console, with_entry,
}
use lime_os.Syscall.{returned, entry, write, on_own_terminal, back_on_screen}
use lime_os.Syscall.Output.{write_stdout}

-- The kernel behind a write of `text` on standard output.
abbrev pub written : Kernel → List ℕ → Kernel
written k text = with_console k (written_on (get_tty k) (terminal_num k) k.keyboard.console text)

pub take-length : (s : List ℕ) (n : ℕ) → n ≡ length s → take n s ≡ s
take-length [] zero e = refl
take-length [] (suc n) e = refl
take-length (c ∷ s) zero e = absurd (omega arith)
take-length (c ∷ s) (suc n) e = ap (λ l. c ∷ l) (take-length s n (omega arith))

pub write-written :
    (k : Kernel) (text : List ℕ) (n : ℕ)
    → ((entry k 1).flags == free) ≡ false
    → (entry k 1).operations ≡ stdout_table
    → n ≡ length text
    → n < 2147483648
    → write k 1 (some text) n ≡ returned n [] (written k text)
unfolding terminal_write
write-written k text n used ops long small =
    let rounds : write_rounds n ≡ n = ground arith in
    let whole : take (write_rounds n) text ≡ text = rw rounds (take-length text n long) in
    write_stdout k text n used ops
    ∙ ap₂
        (λ m t. returned m [] (
          back_on_screen (terminal_num k)
            (with_console k (write_chars (on_own_terminal k).keyboard.console t))))
        rounds whole

-- Two writes in a row are one write of both texts.
pub written-append :
    (k : Kernel) (first second : List ℕ)
    → written (written k first) second ≡ written k (first ++ second)
unfolding get_tty
written-append k first second =
    ap (λ t. with_console k (written_on (get_tty k) t (written k first).keyboard.console second))
      (settle-terminal_num (terminal_num k)
        (write_chars (on_own_terminal k).keyboard.console first))
    ∙ ap (with_console k)
        (written_on-append (get_tty k) (terminal_num k) k.keyboard.console first second)

pub written-with_entry :
    (k : Kernel) (fd : ℕ) (e : FdEntry) (text : List ℕ)
    → written (with_entry k fd e) text ≡ with_entry (written k text) fd e
unfolding get_tty
written-with_entry k fd e text =
    ap
      (λ (p : Pcb).
        with_console (with_entry k fd e)
          (written_on p.tty (terminal_num k) k.keyboard.console text))
      (update_self k.pcbs k.current_pid _)

pub with_entry_twice :
    (k : Kernel) (fd : ℕ) (e e' : FdEntry)
    → with_entry (with_entry k fd e) fd e' ≡ with_entry k fd e'
with_entry_twice k fd e e' =
    ap (λ pcbs. record k { pcbs = pcbs })
      (update_twice k.pcbs k.current_pid p _
        ∙ ap (λ r. update k.pcbs k.current_pid (record r { fd_entry = update r.fd_entry fd e' }))
            (update_self k.pcbs k.current_pid p)
        ∙ ap (λ f. update k.pcbs k.current_pid (record (pcb k) { fd_entry = f }))
            (update_twice (pcb k).fd_entry fd e e'))
  where
    p : Pcb
    p = record (pcb k) { fd_entry = update (pcb k).fd_entry fd e }
