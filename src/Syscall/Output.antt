-- ===== src/Syscall/Output.antt =====
-- write on standard output, from whatever terminal is shown: student-distrib/system_call.c with
-- student-distrib/terminal.c.
use lime_os.Prelude.{ℕ, ◌≡◌, refl, ap, ◌∙◌, false, List, [], Bool-cases, inl, inr, some, take, ◌==◌}
use lime_os.Console.{Console, terminal_write, update_cursor, write_rounds}
use lime_os.Console.Bounds.{InBounds, NoReturn}
use lime_os.Console.Isolation.{OffScreen, terminal_write_frame}
use lime_os.Process.{Operations, stdout_table, Kernel, terminal_num, with_console}
use lime_os.Syscall.{
  returned, entry, write, call_write, finish_write, on_own_terminal, back_on_screen,
}

-- The kernel behind a write on standard output.
pub write_stdout :
    (k : Kernel) (buf : List ℕ) (nbytes : ℕ)
    → ((entry k 1).flags == 0) ≡ false
    → (entry k 1).operations ≡ stdout_table
    → (let (c, ret) = terminal_write (on_own_terminal k).keyboard.console (some buf) nbytes in
        write k 1 (some buf) nbytes
        ≡ returned ret [] (back_on_screen (terminal_num k) (with_console k c)))
unfolding write
write_stdout k buf nbytes used ops = rw used (
    ap
      (λ (t : Operations).
        finish_write (terminal_num k) (call_write t.write_op (on_own_terminal k) (some buf) nbytes))
      ops)

update_cursor_keeps :
    (s : Console) (x y : ℕ)
    → ((update_cursor s x y).terminal_num ≡ s.terminal_num) × ((update_cursor s x y).mem ≡ s.mem)
unfolding update_cursor
update_cursor_keeps s x y = elim (Bool-cases (s.terminal_num == s.tty)) [
  | inl e ↦ rw e (refl, refl)
  | inr e ↦ rw e (refl, refl)
]

-- A process that writes on standard output gets the number of bytes back, whichever terminal is
-- shown; the terminal that is shown stays the same; and memory changes inside the 4 KB page of
-- the process's own terminal only, so that no byte of another screen does. The conditions: standard
-- output is open, the cursor of its terminal is on the screen, and no carriage return is written.
pub write_isolated :
    (k : Kernel) (buf : List ℕ) (nbytes : ℕ)
    → ((entry k 1).flags == 0) ≡ false
    → (entry k 1).operations ≡ stdout_table
    → NoReturn (take (write_rounds nbytes) buf)
    → InBounds (on_own_terminal k).keyboard.console
    → (r : Kernel) × (write k 1 (some buf) nbytes ≡ returned (write_rounds nbytes) [] r)
      × (terminal_num r ≡ terminal_num k)
      × ((a : ℕ)
          → OffScreen (on_own_terminal k).keyboard.console a
          → r.keyboard.console.mem a ≡ k.keyboard.console.mem a)
unfolding terminal_write
write_isolated k buf nbytes used ops plain inside = (
  back_on_screen (terminal_num k) (with_console k written),
  write_stdout k buf nbytes used ops,
  (update_cursor_keeps shown _ _).0,
  λ a off.
      ap (λ m. m a) (update_cursor_keeps shown _ _).1
      ∙ (terminal_write_frame own buf nbytes a plain inside off).0,
)
  where
    own : Console
    own = (on_own_terminal k).keyboard.console

    written : Console
    written = (terminal_write own (some buf) nbytes).0

    shown : Console
    shown = record written { terminal_num = terminal_num k }
