-- ===== src/Idt/Handlers.antt =====
-- The bodies of the handlers: the exceptions of student-distrib/idt.h, and the wrappers of idt.c that call
-- the drivers. What a handler does to the kernel is modelled, not how the wrapper keeps the registers.
use lime_os.Prelude.{ℕ, List, [], ◌∷◌}
use lime_os.Strings.{printf}
use lime_os.Keyboard.{keyboard_handler}
use lime_os.Rtc.{rtc_handler}
use lime_os.Process.{Kernel, sends}
use lime_os.Sched.{Switch, pit_handler}
use lime_os.Execute.{Stack, Halted, halt_256, print}
use lime_os.Idt.{
  Handler, undefined_interrupt, de, db, nmi, bp, overflow, br, ud, nm, df, cso, ts, np, ss, gp, pf,
  resr, mf, ac, mc, xf, sys_handler, k_handler, r_handler, p_handler,
}

-- How a handler ends: the interrupted program goes on; it stays in a loop for ever; the running program
-- is halted; the timer switches to another process; or the system call that eax names is made.
pub data Handled : Type 0 where
  continues : Kernel → Handled
  spins : Kernel → Handled
  halts : Halted → Handled
  switches : Switch → Handled
  calls : Kernel → Handled

-- An exception's printf, and its `halt_256(256)`.
unfoldable pub raise_exception : List ℕ → Stack → Kernel → Halted
raise_exception message l k = halt_256 l (print k (printf message []).0) 256

-- What each exception prints.
pub message : Handler → List ℕ
message de =
    b' ' ∷ b'D' ∷ b'i' ∷ b'v' ∷ b'i' ∷ b'd' ∷ b'e' ∷ b' ' ∷ b'E' ∷ b'r' ∷ b'r' ∷ b'o' ∷ b'r' ∷ b'!'
    ∷ b'!' ∷ b'!' ∷ b'\n' ∷ []
message db = b'R' ∷ b'E' ∷ b'S' ∷ b'E' ∷ b'R' ∷ b'V' ∷ b'E' ∷ b'D' ∷ b'!' ∷ b'!' ∷ b'!' ∷ b'\n' ∷ []
message nmi =
    b'N' ∷ b'o' ∷ b'n' ∷ b'm' ∷ b'a' ∷ b's' ∷ b'k' ∷ b'a' ∷ b'b' ∷ b'l' ∷ b'e' ∷ b' ' ∷ b'I' ∷ b'n'
    ∷ b't' ∷ b'e' ∷ b'r' ∷ b'r' ∷ b'u' ∷ b'p' ∷ b't' ∷ b' ' ∷ b'E' ∷ b'x' ∷ b'c' ∷ b'e' ∷ b'p'
    ∷ b't' ∷ b'i' ∷ b'o' ∷ b'n' ∷ b'!' ∷ b'!' ∷ b'!' ∷ b'\n' ∷ []
message bp =
    b'B' ∷ b'r' ∷ b'e' ∷ b'a' ∷ b'k' ∷ b'p' ∷ b'o' ∷ b'i' ∷ b'n' ∷ b't' ∷ b' ' ∷ b'E' ∷ b'x' ∷ b'c'
    ∷ b'e' ∷ b'p' ∷ b't' ∷ b'i' ∷ b'o' ∷ b'n' ∷ b'!' ∷ b'!' ∷ b'!' ∷ b'\n' ∷ []
message overflow =
    b'O' ∷ b'v' ∷ b'e' ∷ b'r' ∷ b'f' ∷ b'l' ∷ b'o' ∷ b'w' ∷ b' ' ∷ b'E' ∷ b'x' ∷ b'c' ∷ b'e' ∷ b'p'
    ∷ b't' ∷ b'i' ∷ b'o' ∷ b'n' ∷ b'!' ∷ b'!' ∷ b'!' ∷ b'\n' ∷ []
message br =
    b'B' ∷ b'O' ∷ b'U' ∷ b'N' ∷ b'D' ∷ b' ' ∷ b'R' ∷ b'a' ∷ b'n' ∷ b'g' ∷ b'e' ∷ b' ' ∷ b'E' ∷ b'x'
    ∷ b'c' ∷ b'e' ∷ b'e' ∷ b'd' ∷ b'e' ∷ b'd' ∷ b' ' ∷ b'E' ∷ b'x' ∷ b'c' ∷ b'e' ∷ b'p' ∷ b't'
    ∷ b'i' ∷ b'o' ∷ b'n' ∷ b'!' ∷ b'!' ∷ b'!' ∷ b'\n' ∷ []
message ud =
    b'I' ∷ b'n' ∷ b'v' ∷ b'a' ∷ b'l' ∷ b'i' ∷ b'd' ∷ b' ' ∷ b'O' ∷ b'p' ∷ b'c' ∷ b'o' ∷ b'd' ∷ b'e'
    ∷ b' ' ∷ b'E' ∷ b'x' ∷ b'c' ∷ b'e' ∷ b'p' ∷ b't' ∷ b'i' ∷ b'o' ∷ b'n' ∷ b'!' ∷ b'!' ∷ b'!'
    ∷ b'\n' ∷ []
message nm =
    b'D' ∷ b'e' ∷ b'v' ∷ b'i' ∷ b'c' ∷ b'e' ∷ b' ' ∷ b'N' ∷ b'o' ∷ b't' ∷ b' ' ∷ b'A' ∷ b'v' ∷ b'a'
    ∷ b'i' ∷ b'l' ∷ b'a' ∷ b'b' ∷ b'l' ∷ b'e' ∷ b' ' ∷ b'E' ∷ b'x' ∷ b'c' ∷ b'e' ∷ b'p' ∷ b't'
    ∷ b'i' ∷ b'o' ∷ b'n' ∷ b'!' ∷ b'!' ∷ b'!' ∷ b'\n' ∷ []
message df =
    b'D' ∷ b'o' ∷ b'u' ∷ b'b' ∷ b'l' ∷ b'e' ∷ b' ' ∷ b'F' ∷ b'a' ∷ b'u' ∷ b'l' ∷ b't' ∷ b' ' ∷ b'E'
    ∷ b'x' ∷ b'c' ∷ b'e' ∷ b'p' ∷ b't' ∷ b'i' ∷ b'o' ∷ b'n' ∷ b'!' ∷ b'!' ∷ b'!' ∷ b'\n' ∷ []
message cso =
    b'C' ∷ b'o' ∷ b'p' ∷ b'r' ∷ b'o' ∷ b'c' ∷ b'e' ∷ b's' ∷ b's' ∷ b'o' ∷ b'r' ∷ b' ' ∷ b'S' ∷ b'e'
    ∷ b'g' ∷ b'm' ∷ b'e' ∷ b'n' ∷ b't' ∷ b' ' ∷ b'O' ∷ b'v' ∷ b'e' ∷ b'r' ∷ b'r' ∷ b'u' ∷ b'n'
    ∷ b' ' ∷ b'E' ∷ b'x' ∷ b'c' ∷ b'e' ∷ b'p' ∷ b't' ∷ b'i' ∷ b'o' ∷ b'n' ∷ b'!' ∷ b'!' ∷ b'!'
    ∷ b'\n' ∷ []
message ts =
    b'I' ∷ b'n' ∷ b'v' ∷ b'a' ∷ b'l' ∷ b'i' ∷ b'd' ∷ b' ' ∷ b'T' ∷ b'S' ∷ b'S' ∷ b' ' ∷ b'E' ∷ b'x'
    ∷ b'c' ∷ b'e' ∷ b'p' ∷ b't' ∷ b'i' ∷ b'o' ∷ b'n' ∷ b'!' ∷ b'!' ∷ b'!' ∷ b'\n' ∷ []
message np =
    b'S' ∷ b'e' ∷ b'g' ∷ b'm' ∷ b'e' ∷ b'n' ∷ b't' ∷ b' ' ∷ b'N' ∷ b'o' ∷ b't' ∷ b' ' ∷ b'P' ∷ b'r'
    ∷ b'e' ∷ b's' ∷ b'e' ∷ b'n' ∷ b't' ∷ b'!' ∷ b'!' ∷ b'!' ∷ b'\n' ∷ []
message ss =
    b'S' ∷ b't' ∷ b'a' ∷ b'c' ∷ b'k' ∷ b'-' ∷ b'S' ∷ b'e' ∷ b'g' ∷ b'm' ∷ b'e' ∷ b'n' ∷ b't' ∷ b' '
    ∷ b'F' ∷ b'a' ∷ b'u' ∷ b'l' ∷ b't' ∷ b' ' ∷ b'E' ∷ b'x' ∷ b'c' ∷ b'e' ∷ b'p' ∷ b't' ∷ b'i'
    ∷ b'o' ∷ b'n' ∷ b'!' ∷ b'!' ∷ b'!' ∷ b'\n' ∷ []
message gp =
    b'G' ∷ b'e' ∷ b'n' ∷ b'e' ∷ b'r' ∷ b'a' ∷ b'l' ∷ b' ' ∷ b'P' ∷ b'r' ∷ b'o' ∷ b't' ∷ b'e' ∷ b'c'
    ∷ b't' ∷ b'i' ∷ b'o' ∷ b'n' ∷ b' ' ∷ b'E' ∷ b'x' ∷ b'c' ∷ b'e' ∷ b'p' ∷ b't' ∷ b'i' ∷ b'o'
    ∷ b'n' ∷ b'!' ∷ b'!' ∷ b'!' ∷ b'\n' ∷ []
message pf =
    b'P' ∷ b'a' ∷ b'g' ∷ b'e' ∷ b' ' ∷ b'F' ∷ b'a' ∷ b'u' ∷ b'l' ∷ b't' ∷ b' ' ∷ b'E' ∷ b'x' ∷ b'c'
    ∷ b'e' ∷ b'p' ∷ b't' ∷ b'i' ∷ b'o' ∷ b'n' ∷ b'!' ∷ b'!' ∷ b'!' ∷ b'\n' ∷ []
message resr =
    b'R' ∷ b'e' ∷ b's' ∷ b'e' ∷ b'r' ∷ b'v' ∷ b'e' ∷ b'd' ∷ b'!' ∷ b'!' ∷ b'!' ∷ b'\n' ∷ []
message mf =
    b'F' ∷ b'l' ∷ b'o' ∷ b'a' ∷ b't' ∷ b'i' ∷ b'n' ∷ b'g' ∷ b' ' ∷ b'P' ∷ b'o' ∷ b'i' ∷ b'n' ∷ b't'
    ∷ b' ' ∷ b'E' ∷ b'r' ∷ b'r' ∷ b'o' ∷ b'r' ∷ b' ' ∷ b'E' ∷ b'x' ∷ b'c' ∷ b'e' ∷ b'p' ∷ b't'
    ∷ b'i' ∷ b'o' ∷ b'n' ∷ b'!' ∷ b'!' ∷ b'!' ∷ b'\n' ∷ []
message ac =
    b'A' ∷ b'l' ∷ b'i' ∷ b'g' ∷ b'n' ∷ b'm' ∷ b'e' ∷ b'n' ∷ b't' ∷ b' ' ∷ b'C' ∷ b'h' ∷ b'e' ∷ b'c'
    ∷ b'k' ∷ b' ' ∷ b'E' ∷ b'x' ∷ b'c' ∷ b'e' ∷ b'p' ∷ b't' ∷ b'i' ∷ b'o' ∷ b'n' ∷ b'!' ∷ b'!'
    ∷ b'!' ∷ b'\n' ∷ []
message mc =
    b'M' ∷ b'a' ∷ b'c' ∷ b'h' ∷ b'i' ∷ b'n' ∷ b'e' ∷ b' ' ∷ b'C' ∷ b'h' ∷ b'e' ∷ b'c' ∷ b'k' ∷ b' '
    ∷ b'E' ∷ b'x' ∷ b'c' ∷ b'e' ∷ b'p' ∷ b't' ∷ b'i' ∷ b'o' ∷ b'n' ∷ b'!' ∷ b'!' ∷ b'!' ∷ b'\n' ∷ []
message xf =
    b'S' ∷ b'I' ∷ b'M' ∷ b'D' ∷ b' ' ∷ b'F' ∷ b'l' ∷ b'o' ∷ b'a' ∷ b't' ∷ b'i' ∷ b'n' ∷ b'g' ∷ b' '
    ∷ b'P' ∷ b'o' ∷ b'i' ∷ b'n' ∷ b't' ∷ b' ' ∷ b'E' ∷ b'x' ∷ b'c' ∷ b'e' ∷ b'p' ∷ b't' ∷ b'i'
    ∷ b'o' ∷ b'n' ∷ b'!' ∷ b'!' ∷ b'!' ∷ b'\n' ∷ []
message undefined_interrupt =
    b' ' ∷ b'U' ∷ b'n' ∷ b'd' ∷ b'e' ∷ b'f' ∷ b'i' ∷ b'n' ∷ b'e' ∷ b'd' ∷ b' ' ∷ b'I' ∷ b'n' ∷ b't'
    ∷ b'e' ∷ b'r' ∷ b'r' ∷ b'u' ∷ b'p' ∷ b't' ∷ b'!' ∷ b'!' ∷ b'!' ∷ b'\n' ∷ []
message _ = []

-- `scancode` is what the keyboard's data port holds.
unfoldable pub handle : Handler → Stack → ℕ → Kernel → Handled
handle undefined_interrupt l scancode k =
    spins (print k (printf (message undefined_interrupt) []).0)
handle sys_handler l scancode k = calls k
handle k_handler l scancode k =
    let (b, o) = keyboard_handler k.keyboard scancode in
    continues (sends (record k { keyboard = b }) o)
handle r_handler l scancode k =
    let (flags, o) = rtc_handler k.rtc_interrupt_occured in
    continues (sends (record k { rtc_interrupt_occured = flags }) o)
handle p_handler l scancode k = switches (pit_handler k)
handle exception l scancode k = halts (raise_exception (message exception) l k)
