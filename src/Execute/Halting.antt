-- ===== src/Execute/Halting.antt =====
-- halt of a program that execute entered: student-distrib/system_call.c.
use lime_os.Prelude.{
  ℕ, ◌%◌, ◌≡◌, ◌≢◌, refl, ap, ◌∙◌, sym, subst, true, false, List, Option, some, ◌==◌, update,
  update_self, update_ne, arith,
}
use lime_os.Process.{Pcb, Kernel, pcb, free, with_pcb, program_mapping}
use lime_os.Syscall.Fds.{IsFdTable}
use lime_os.Execute.{
  Stack, enters, execute, close_all, resumes, halt, halt_256, finish_halt, resume_parent,
  parent_again,
}
use lime_os.Execute.Closing.{link, KeepsLinks, close_all-KeepsLinks}
use lime_os.Execute.Return.{Enters, EntersOr, execute-Enters}

-- Where a process returns to.
abbrev pub way_back : Pcb → ℕ × ℕ × ℕ × ℕ
way_back p = (p.parent_id, p.parent_esp, p.parent_ebp, p.parent_esp0)

finish_resumes :
    (l : Stack) (pid : ℕ) (k : Kernel)
    → k.current_pid ≡ pid
    → (k.pcbs pid).parent_id ≢ pid
    → finish_halt l pid (some k)
      ≡ resume_parent pid (record k { pid_flags = update k.pid_flags pid 0 })
finish_resumes l pid k hc hp =
    let other : (k.current_pid == (k.pcbs pid).parent_id) ≡ false = ground arith in rw other refl

-- halt_256 of a process that is not its own parent.
halt_resumes :
    (l : Stack) (k : Kernel) (status : ℕ)
    → (pcb k).parent_id ≢ k.current_pid
    → IsFdTable (pcb k).fd_entry
    → (r : Kernel) × (halt_256 l k status ≡ resumes status r)
      × (r.current_pid ≡ (pcb k).parent_id)
      × (r.esp ≡ (pcb k).parent_esp)
      × (r.ebp ≡ (pcb k).parent_ebp)
      × (r.esp0 ≡ (pcb k).parent_esp0)
      × (r.program_entry ≡ program_mapping r.current_pid)
      × (r.pid_flags ≡ update k.pid_flags k.current_pid 0)
unfolding halt_256
halt_resumes l k status hp h = (
  parent_again pid m',
  ap (finish_halt l pid) all.1
      ∙ finish_resumes l pid r0 kept.same_pid (λ e. hp (sym (ap (λ t. t.0) way) ∙ e))
      ∙ ap (λ v. resumes v (parent_again pid m')) value,
  ap (λ t. t.0) way,
  ap (λ t. t.1) way,
  ap (λ t. t.2) way,
  ap (λ t. t.3) way,
  refl,
  ap (λ f. update f pid 0) kept.same_flags,
)
  where
    pid : ℕ
    pid = k.current_pid

    parent : ℕ
    parent = (pcb k).parent_id

    m : Kernel
    m = with_pcb k parent (record (k.pcbs parent) { return_value = status })

    own : m.pcbs pid ≡ k.pcbs pid
    own = update_ne k.pcbs parent pid _ hp

    all : (r : Kernel) × (close_all 8 0 m ≡ some r) × KeepsLinks m r
    all =
        close_all-KeepsLinks 8 0 m (omega arith)
          (subst (λ (p : Pcb). IsFdTable p.fd_entry) (sym own) h)

    r0 : Kernel
    r0 = all.0

    kept : KeepsLinks m r0
    kept = all.2

    m' : Kernel
    m' = record r0 { pid_flags = update r0.pid_flags pid 0 }

    way : link (r0.pcbs pid) ≡ link (k.pcbs pid)
    way = kept.same_links pid ∙ ap link own

    value : (r0.pcbs (r0.pcbs pid).parent_id).return_value ≡ status
    value =
        ap (λ q. (r0.pcbs q).return_value) (ap (λ t. t.0) way)
        ∙ ap (λ t. t.4) (kept.same_links parent ∙ ap link (update_self k.pcbs parent _))

-- The same for any status, on the entered process: its parent runs again as it was when it called execute.
module _ (l l' : Stack) (k k1 k2 : Kernel) (command : Option (List ℕ)) (eip status : ℕ)
    (used : (k.pid_flags k.current_pid == free) ≡ false) (he : execute l k command ≡ enters eip k1)
    (hc : k2.current_pid ≡ k1.current_pid) (hw : way_back (pcb k2) ≡ way_back (pcb k1))
    (h : IsFdTable (pcb k2).fd_entry) where
  pub halt_256-resumes :
      (r : Kernel) × (halt_256 l' k2 status ≡ resumes status r)
      × (r.current_pid ≡ k.current_pid)
      × (r.esp ≡ k.esp)
      × (r.ebp ≡ k.ebp)
      × (r.esp0 ≡ k.esp0)
      × (r.program_entry ≡ program_mapping k.current_pid)
      × (r.pid_flags ≡ update k2.pid_flags k1.current_pid 0)
  halt_256-resumes =
      let (r, eq, pid, esp, ebp, esp0, entry, flags) = halt_resumes l' k2 status not_own h in
      (
        r,
        eq,
        pid ∙ ap (λ t. t.0) hw ∙ entered.parent,
        esp ∙ ap (λ t. t.1) hw ∙ entered.stack,
        ebp ∙ ap (λ t. t.2) hw ∙ entered.frame,
        esp0 ∙ ap (λ t. t.3) hw ∙ entered.kernel_stack,
        entry ∙ ap program_mapping (pid ∙ ap (λ t. t.0) hw ∙ entered.parent),
        flags ∙ ap (λ p. update k2.pid_flags p 0) hc,
      )
    where
      entered : Enters k k1
      entered = subst (EntersOr k) he (execute-Enters l k command)

      parent : (pcb k2).parent_id ≡ k.current_pid
      parent = ap (λ t. t.0) hw ∙ entered.parent

      not_own : (pcb k2).parent_id ≢ k2.current_pid
      not_own e =
          let was_free : (k.pid_flags k.current_pid == free) ≡ true =
            ap (λ p. k.pid_flags p == free) (sym (sym hc ∙ sym e ∙ parent)) ∙ entered.was_free in
          absurd (ground arith)

-- A program that execute entered from a process in use, and that halts, whatever it did to anything but
-- its own way back, with its table of files well formed: the parent runs again with its esp, ebp,
-- kernel stack and page, execute returns the low byte of the status, and of the flags only that of
-- the program is cleared.
pub execute-halt :
    (l l' : Stack) (k k1 k2 : Kernel) (command : Option (List ℕ)) (eip status : ℕ)
    → (k.pid_flags k.current_pid == free) ≡ false
    → execute l k command ≡ enters eip k1
    → k2.current_pid ≡ k1.current_pid
    → way_back (pcb k2) ≡ way_back (pcb k1)
    → IsFdTable (pcb k2).fd_entry
    → (r : Kernel) × (halt l' k2 status ≡ resumes (status % 256) r)
      × (r.current_pid ≡ k.current_pid)
      × (r.esp ≡ k.esp)
      × (r.ebp ≡ k.ebp)
      × (r.esp0 ≡ k.esp0)
      × (r.program_entry ≡ program_mapping k.current_pid)
      × (r.pid_flags ≡ update k2.pid_flags k1.current_pid 0)
unfolding halt
execute-halt l l' k k1 k2 command eip status used he hc hw h =
    halt_256-resumes l l' k k1 k2 command eip (status % 256) used he hc hw h
