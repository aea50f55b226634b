-- ===== src/Execute/Closing.antt =====
-- The loop of halt_256 that closes all files, student-distrib/system_call.c.
use lime_os.Prelude.{
  ℕ, zero, suc, ◌+◌, ◌<◌, ◌≡◌, refl, ap, ◌∙◌, ◌||◌, not, Option, none, some, lt_signed, ◌==◌,
  update_self, update_ne, choose, arith,
}
use native.Mathlib.Decide.{ℕ_discrete}
use lime_os.Process.{FdEntry, freed, Pcb, Kernel, pcb, free, with_entry}
use lime_os.Syscall.{
  Reply, returned, waits_for_enter, waits_for_clock, fault, entry, close, call_close, finish_close,
}
use lime_os.Syscall.Fds.{IsFdTable, KeepsTable, close-KeepsTable}
use lime_os.Execute.{closed, close_next, close_all}

-- The fields of a control block that execute and halt use.
abbrev pub link : Pcb → ℕ × ℕ × ℕ × ℕ × ℕ × ℕ
link p = (p.parent_id, p.parent_esp, p.parent_ebp, p.parent_esp0, p.return_value, p.tty)

-- All that the way back to the parent needs is the same.
pub record KeepsLinks (k r : Kernel) : Type 0 where
  pub same_pid : r.current_pid ≡ k.current_pid
  pub same_flags : r.pid_flags ≡ k.pid_flags
  pub same_links : (p : ℕ) → link (r.pcbs p) ≡ link (k.pcbs p)

abbrev KeepsLinksOr : Kernel → Reply → Type 0
KeepsLinksOr k (returned ret bytes r) = KeepsLinks k r
KeepsLinksOr k (waits_for_enter r) = KeepsLinks k r
KeepsLinksOr k (waits_for_clock r) = KeepsLinks k r
KeepsLinksOr k fault = Unit

KeepsLinks-refl : (k : Kernel) → KeepsLinks k k
KeepsLinks-refl k = record { same_pid = refl; same_flags = refl; same_links = λ p. refl }

KeepsLinks-trans : (k m r : Kernel) → KeepsLinks k m → KeepsLinks m r → KeepsLinks k r
KeepsLinks-trans k m r a b = record {
  same_pid = b.same_pid ∙ a.same_pid;
  same_flags = b.same_flags ∙ a.same_flags;
  same_links = λ p. b.same_links p ∙ a.same_links p;
}

with_entry-KeepsLinks : (k : Kernel) (fd : ℕ) (e : FdEntry) → KeepsLinks k (with_entry k fd e)
with_entry-KeepsLinks k fd e = record {
  same_pid = refl;
  same_flags = refl;
  same_links = λ p. elim (ℕ_discrete k.current_pid p) [
    | yes same ↦ rw (← same) (ap link (update_self k.pcbs k.current_pid _))
    | no other ↦ ap link (update_ne k.pcbs k.current_pid p _ other)
  ];
}

close-KeepsLinks : (k : Kernel) (fd : ℕ) → KeepsLinksOr k (close k fd)
unfolding close
close-KeepsLinks k fd =
    choose (KeepsLinksOr k) (lt_signed fd 2 || not (lt_signed fd 8)) _ _ (λ _. KeepsLinks-refl k)
      λ _.
        choose (KeepsLinksOr k) ((entry k fd).flags == free) _ _ (λ _. KeepsLinks-refl k)
          λ _. finish (call_close (entry k fd).operations.close_op)
  where
    finish : (ret : Option ℕ) → KeepsLinksOr k (finish_close k fd ret)
    finish none = tt
    finish (some ret) =
        choose (KeepsLinksOr k) (lt_signed ret 0) _ _ (λ _. KeepsLinks-refl k)
          λ _. with_entry-KeepsLinks k fd freed

closed-keeps :
    (k : Kernel) (reply : Reply)
    → KeepsTable reply
    → KeepsLinksOr k reply
    → (r : Kernel) × (closed reply ≡ some r) × KeepsLinks k r × IsFdTable (pcb r).fd_entry
closed-keeps k (returned ret bytes r) h kept = (r, refl, kept, h)
closed-keeps k (waits_for_enter r) h kept = (r, refl, kept, h)
closed-keeps k (waits_for_clock r) h kept = (r, refl, kept, h)
closed-keeps k fault h kept = absurd h

-- The loop gets through: no close faults, and nothing changes that the way back to the parent needs.
pub close_all-KeepsLinks :
    (n i : ℕ) (k : Kernel)
    → i + n < 100
    → IsFdTable (pcb k).fd_entry
    → (r : Kernel) × (close_all n i k ≡ some r) × KeepsLinks k r
unfolding close_all
close_all-KeepsLinks zero i k hi h = (k, refl, KeepsLinks-refl k)
close_all-KeepsLinks (suc n) i k hi h =
    let (m, em, km, hm) =
      closed-keeps k (close k i) (close-KeepsTable k i (omega arith) h) (close-KeepsLinks k i) in
    let (r, er, kr) = close_all-KeepsLinks n (i + 1) m (omega arith) hm in
    (r, ap (close_next (close_all n (i + 1))) em ∙ er, KeepsLinks-trans k m r km kr)
