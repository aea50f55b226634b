-- ===== src/User/Shell/Reports.antt =====
-- What the shell does with a command that is a program: syscalls/ece391shell.c with execute and halt of
-- student-distrib/system_call.c.
use lime_os.Prelude.{
  ℕ, suc, ◌+◌, ◌-◌, ◌<◌, ◌≡◌, ◌≢◌, inl, inr, true, Bool-cases, refl, ap, ap₂, subst, false, List,
  [], ◌∷◌, ◌++◌, some, length, take, minus_one, lt_signed, ◌==◌, if◌then◌else◌, arith,
}
use lime_os.Strings.Compare.{IsString}
use lime_os.Process.{stdout_table, Kernel, pcb, free, in_use, program_mapping}
use lime_os.Syscall.{entry}
use lime_os.Syscall.Fds.{IsFdTable}
use lime_os.Syscall.Written.{written}
use lime_os.Execute.{Stack, enters, Halted, resumes, restarts, faults, execute, halt_256}
use lime_os.Execute.Halting.{way_back, halt_256-resumes}
use lime_os.User.{
  World, User, Ran, done, sleeps, pure, ◌>>◌, ece391_read, ece391_execute, ece391_fdputs,
}
use lime_os.User.Support.{ece391_strlen, ece391_strcmp, byte_difference}
use lime_os.User.Puts.{fdputs-written}
use lime_os.User.Texts
use lime_os.User.Shell.{byte_at, command, report, shell_loop}

differs : (c d : ℕ) → c < 256 → d < 256 → byte_difference c d ≡ 0 → c ≡ d
differs c d hc hd e = omega arith

-- Only equal strings compare as 0.
strcmp-equal : (s t : List ℕ) → IsString s → IsString t → ece391_strcmp s t ≡ 0 → s ≡ t
unfolding ece391_strcmp
strcmp-equal [] [] hs ht e = refl
strcmp-equal [] (d ∷ t) hs ht e =
    let z = differs 0 d (omega arith) ht.1 e in absurd (omega (arith, z, ht.0))
strcmp-equal (c ∷ s) [] hs ht e =
    let z = differs c 0 hs.1 (omega arith) e in absurd (omega (arith, z, hs.0))
strcmp-equal (c ∷ s) (d ∷ t) hs ht e = elim (Bool-cases (c == d)) [
  | inl same ↦
      let letter : (c == 0) ≡ false = ground (arith, hs.0) in
      let rest : ece391_strcmp s t ≡ 0 =
        subst (λ x. (if x then ece391_strcmp s t else byte_difference c d) ≡ 0) same
          (subst
            (λ x.
              (if c == d then (if x then 0 else ece391_strcmp s t) else byte_difference c d) ≡ 0)
            letter e) in
      ap₂ (λ x r. x ∷ r) (ground arith) (strcmp-equal s t hs.2 ht.2 rest)
  | inr other ↦
      let differ : byte_difference c d ≡ 0 =
        subst
          (λ x. (if x then (if c == 0 then 0 else ece391_strcmp s t) else byte_difference c d) ≡ 0)
          other e in
      let z = differs c d hs.1 ht.1 differ in absurd (ground arith)
]

byte_at-end : (s : List ℕ) (c : ℕ) → byte_at (s ++ c ∷ []) (length s) ≡ c
byte_at-end [] c = refl
byte_at-end (d ∷ s) c = byte_at-end s c

take-front : (s t : List ℕ) → take (length s) (s ++ t) ≡ s
take-front [] t = refl
take-front (c ∷ s) t = ap (λ r. c ∷ r) (take-front s t)

-- The newline that ends the line is dropped.
command-line :
    (text : List ℕ) → length text < 1024 → command (length text + 1) (text ++ b'\n' ∷ []) ≡ text
command-line text h =
    let back : length text + 1 - 1 ≡ length text = omega arith in
    let some_read : lt_signed 0 (length text + 1) ≡ true = ground arith in
    rw (some_read, back, byte_at-end text b'\n') (take-front text (b'\n' ∷ []))

-- What becomes of a program, for the shell that waits for it.
abbrev pub halted : Halted → Ran ℕ
halted (resumes ret k) = done ret k
halted (restarts eip k) = sleeps
halted faults = Ran.faults

-- What the shell says of the status of a program that has run.
abbrev pub says : ℕ → User Unit
says status =
    if status == 0
    then pure tt
    else if status == 256
    then ece391_fdputs 1 Texts.by_exception
    else ece391_fdputs 1 Texts.abnormally

report-says : (status : ℕ) → status < 257 → report status ≡ says status
report-says status h =
    let ran : (status == minus_one) ≡ false = ground arith in
    rw ran (elim (Bool-cases (status == 0)) [
      | inl no_status ↦
          let other : (status == 256) ≡ false = ground arith in rw (no_status, other) refl
      | inr other ↦ rw other refl
    ])

exit_command-IsString : IsString Texts.exit_command
exit_command-IsString = (
  omega arith,
  omega arith,
  (omega arith, omega arith, (omega arith, omega arith, (omega arith, omega arith, tt))),
)

strlen-prompt : ece391_strlen Texts.prompt ≡ length Texts.prompt
unfolding ece391_strlen
strlen-prompt = refl

not_exit :
    (text : List ℕ)
    → IsString text
    → text ≢ Texts.exit_command
    → (ece391_strcmp text Texts.exit_command == 0) ≡ false
not_exit text h other =
    let differ : ece391_strcmp text Texts.exit_command ≢ 0 =
      λ e. other (strcmp-equal text Texts.exit_command h exit_command-IsString e) in
    ground (arith, differ)

not_empty : (text : List ℕ) → IsString text → 0 < length text → (byte_at text 0 == 0) ≡ false
not_empty [] h some_text = absurd (omega arith)
not_empty (c ∷ s) h some_text = ground (arith, h.0)

-- A command of less than 1024 characters, not empty and not "exit", that is read at the prompt by a shell in
-- use and that execute enters as a program, which runs, keeping its way back and a well formed table of
-- files, until it ends with a status: 256 for an exception, less for its halt. The shell runs again in its
-- own process with its stacks and page, says nothing if the status is 0, "program terminated by exception" if
-- it is 256 and "program terminated abnormally" if it is another, and goes on with the next round. Standard
-- output is open at the prompt.
pub shell_loop-says :
    (w : World) (rounds : ℕ) (l' : Stack) (k k0 k1 k2 : Kernel) (text : List ℕ) (eip status : ℕ)
    → ((entry k 1).flags ≡ in_use) × ((entry k 1).operations ≡ stdout_table)
    → ece391_read w 0 1023 (written k Texts.prompt) ≡ done (length text + 1, text ++ b'\n' ∷ []) k0
    → IsString text
    → 0 < length text
    → length text < 1024
    → text ≢ Texts.exit_command
    → (k0.pid_flags k0.current_pid == free) ≡ false
    → execute w.execute_stack k0 (some text) ≡ enters eip k1
    → k2.current_pid ≡ k1.current_pid
    → way_back (pcb k2) ≡ way_back (pcb k1)
    → IsFdTable (pcb k2).fd_entry
    → w.run_child k1 ≡ halted (halt_256 l' k2 status)
    → status < 257
    → (r : Kernel) × (shell_loop w (suc rounds) k ≡ (says status >> shell_loop w rounds) r)
      × (r.current_pid ≡ k0.current_pid)
      × (r.esp ≡ k0.esp)
      × (r.ebp ≡ k0.ebp)
      × (r.program_entry ≡ program_mapping k0.current_pid)
unfolding shell_loop ece391_execute
shell_loop-says w rounds l' k k0 k1 k2 text eip status out typed h some_text short other used he hc
      hw ht runs low =
    let (r, eq, pid, esp, ebp, esp0, page, flags) =
      halt_256-resumes w.execute_stack l' k0 k1 k2 (some text) eip status used he hc hw ht in
    (r, round eq, pid, esp, ebp, page)
  where
    valid : (length text + 1 == minus_one) ≡ false
    valid = ground arith

    round :
        {r : Kernel}
        → halt_256 l' k2 status ≡ resumes status r
        → shell_loop w (suc rounds) k ≡ (says status >> shell_loop w rounds) r
    round eq =
        rw
          (
            fdputs-written k Texts.prompt out.0 out.1 strlen-prompt (omega arith),
            typed,
            valid,
            command-line text short,
            not_exit text h other,
            not_empty text h some_text,
            he,
            runs,
            eq,
            report-says status low,
          )
          refl
