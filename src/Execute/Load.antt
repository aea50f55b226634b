-- ===== src/Execute/Load.antt =====
-- The loop of execute that loads the program, student-distrib/system_call.c.
use lime_os.Prelude.{
  ℕ, zero, suc, ◌+◌, ◌-◌, ◌*◌, ◌<◌, ◌≤◌, ◌≡◌, ◌⊎◌, inl, inr, refl, ap, ap₂, ◌∙◌, sym, min, List, [],
  ◌∷◌, ◌++◌, length, u32, update, update_self, update_ne, arith, false, leb, if◌then◌else◌,
  Bool-cases,
}
use native.Mathlib.Decide.{ℕ_discrete, dec_le}
use lime_os.Filesystem.{Fs, inode_length, read_data}
use lime_os.Filesystem.Contents.{file_byte, slice, length-slice, slice-append, read_data_lem}
use lime_os.Execute.{Loaded, loaded, leaves_page, page_end, load_program, load_addr, load_rounds}
use lime_os.Execute.Parse.{write_bytes}

write_bytes-append :
    (buf : ℕ → ℕ) (i : ℕ) (s t : List ℕ)
    → write_bytes (write_bytes buf i s) (i + length s) t ≡ write_bytes buf i (s ++ t)
write_bytes-append buf i [] t = let e : i + 0 ≡ i = omega arith in rw e refl
write_bytes-append buf i (c ∷ s) t =
    let e : i + suc (length s) ≡ i + 1 + length s = omega arith in
    rw e (write_bytes-append (update buf i c) (i + 1) s t)

write_bytes_outside :
    (buf : ℕ → ℕ) (i a : ℕ) (s : List ℕ)
    → (a < i) ⊎ (i + length s ≤ a)
    → write_bytes buf i s a ≡ buf a
write_bytes_outside buf i a [] h = refl
write_bytes_outside buf i a (c ∷ s) h =
    write_bytes_outside (update buf i c) (i + 1) a s (ground arith)
    ∙ update_ne buf i a c (ground arith)

write_bytes-slice :
    (fs : Fs) (inode : ℕ) (buf : ℕ → ℕ) (i k n j : ℕ)
    → j < n
    → write_bytes buf i (slice fs inode k n) (i + j) ≡ file_byte fs inode (k + j)
write_bytes-slice fs inode buf i k zero j h = absurd (omega arith)
write_bytes-slice fs inode buf i k (suc n) zero h =
    let a : i + 0 ≡ i = omega arith in
    let b : k + 0 ≡ k = omega arith in
    rw (a, b)
      (write_bytes_outside (update buf i (file_byte fs inode k)) (i + 1) i
          (slice fs inode (k + 1) n) (inl (omega arith))
        ∙ update_self buf i _)
write_bytes-slice fs inode buf i k (suc n) (suc j) h =
    let a : i + suc j ≡ i + 1 + j = omega arith in
    let b : k + suc j ≡ k + 1 + j = omega arith in
    rw (a, b)
      (write_bytes-slice fs inode (update buf i (file_byte fs inode k)) (i + 1) (k + 1) n j
        (omega arith))

zero_add : (j : ℕ) → 0 + j ≡ j
zero_add j = omega arith

pick {ℓ} : {A : Type ℓ} (a : A) (b : A) (c : ℕ) → 0 < c → (elim c [ zero ↦ a | suc m ↦ b ]) ≡ b
pick a b zero h = absurd (omega arith)
pick a b (suc m) h = refl

-- Four bytes, or as many as there are, and then the rest.
one_round :
    (fs : Fs) (inode : ℕ) (page : ℕ → ℕ) (b n r : ℕ)
    → write_bytes
        (write_bytes page b (slice fs inode n (min 4 r)))
        (b + 4)
        (slice fs inode (n + 4) (r - 4))
      ≡ write_bytes page b (slice fs inode n r)
one_round fs inode page b n r = elim (Bool-cases (leb 4 r)) [
  | inl full ↦
      let c : min 4 r ≡ 4 = ground arith in
      let whole : 4 + (r - 4) ≡ r = ground arith in
      rw c (
        ap
          (λ k.
            write_bytes (write_bytes page b (slice fs inode n 4)) (b + k)
              (slice fs inode (n + 4) (r - 4)))
          (sym (length-slice fs inode n 4))
        ∙ write_bytes-append page b (slice fs inode n 4) (slice fs inode (n + 4) (r - 4))
        ∙ ap (write_bytes page b) (slice-append fs inode n 4 (r - 4) ∙ ap (slice fs inode n) whole))
  | inr part ↦
      let c : min 4 r ≡ r = ground arith in
      let none_left : r - 4 ≡ 0 = ground arith in rw (c, none_left) refl
]

-- What a round does with the result of read_data.
abbrev round : ℕ → Fs → ℕ → ℕ → (ℕ → ℕ) → ℕ × List ℕ → Loaded
round rounds fs inode i page d = elim (d.0) [
  | zero ↦ loaded page
  | suc m ↦
      let rest = load_program rounds fs inode (i + 1) (write_bytes page (load_addr + i * 4) d.1) in
      if leb page_end (load_addr + i * 4) then leaves_page else rest
]

module _ (fs : Fs) (inode : ℕ) (small : inode_length fs inode < 4294967280) where
  got :
      (i : ℕ)
      → i * 4 < inode_length fs inode + 4
      → read_data fs inode (u32 (i * 4)) 4 ≡ (
        min 4 (inode_length fs inode - i * 4),
        slice fs inode (i * 4) (min 4 (inode_length fs inode - i * 4)),
      )
  got i hi =
      let fits : u32 (i * 4) ≡ i * 4 = omega arith in
      rw fits (read_data_lem fs inode (omega arith) (i * 4) 4 (omega arith))

  loads :
      (rounds i : ℕ) (page : ℕ → ℕ)
      → load_addr + inode_length fs inode ≤ page_end
      → i * 4 < inode_length fs inode + 4
      → inode_length fs inode + 4 ≤ i * 4 + rounds * 4
      → load_program rounds fs inode i page
        ≡ loaded (
            write_bytes page
              (load_addr + i * 4)
              (slice fs inode (i * 4) (inode_length fs inode - i * 4)))
  unfolding load_program
  loads zero i page fits hi hr = absurd (omega arith)
  loads (suc rounds) i page fits hi hr = elim (ℕ_discrete (inode_length fs inode - i * 4) 0) [
    | yes e ↦
        let nothing : min 4 (inode_length fs inode - i * 4) ≡ 0 = omega (arith, e) in
        ap (round rounds fs inode i page) (got i hi) ∙ rw (nothing, e) refl
    | no ne ↦
        let left : 0 < inode_length fs inode - i * 4 = ground arith in
        let a : load_addr + (i + 1) * 4 ≡ load_addr + i * 4 + 4 = omega arith in
        let b : (i + 1) * 4 ≡ i * 4 + 4 = omega arith in
        let within : leb page_end (load_addr + i * 4) ≡ false = ground (arith, left) in
        let d : inode_length fs inode - (i * 4 + 4) ≡ inode_length fs inode - i * 4 - 4 =
          omega arith in
        ap (round rounds fs inode i page) (got i hi)
        ∙ pick (loaded page) _ (min 4 (inode_length fs inode - i * 4)) (omega (arith, left))
        ∙ rw within refl
        ∙ loads rounds (i + 1)
            (write_bytes page (load_addr + i * 4)
              (slice fs inode (i * 4) (min 4 (inode_length fs inode - i * 4))))
            fits (omega (arith, left)) (omega arith)
        ∙ rw (a, b, d)
            (ap loaded
              (one_round fs inode page (load_addr + i * 4) (i * 4) (inode_length fs inode - i * 4)))
  ]

  -- A file that does not fit reaches the page's end.
  leaves :
      (rounds i : ℕ) (page : ℕ → ℕ)
      → page_end < load_addr + inode_length fs inode
      → load_addr + i * 4 ≤ page_end
      → page_end < load_addr + i * 4 + rounds * 4
      → load_program rounds fs inode i page ≡ leaves_page
  unfolding load_program
  leaves zero i page big hi hr = absurd (omega arith)
  leaves (suc rounds) i page big hi hr =
      ap (round rounds fs inode i page) (got i (omega arith))
      ∙ pick (loaded page) _ (min 4 (inode_length fs inode - i * 4)) (omega arith)
      ∙ elim (Bool-cases (leb page_end (load_addr + i * 4))) [
        | inl at_end ↦ rw at_end refl
        | inr within ↦ rw within (
            leaves rounds (i + 1)
              (write_bytes page (load_addr + i * 4)
                (slice fs inode (i * 4) (min 4 (inode_length fs inode - i * 4))))
              big (ground arith) (omega arith))
      ]

  copies :
      (page : ℕ → ℕ)
      → load_addr + inode_length fs inode ≤ page_end
      → (memory : ℕ → ℕ) × (load_program (load_rounds fs inode) fs inode 0 page ≡ loaded memory)
        × ((j : ℕ) → j < inode_length fs inode → memory (load_addr + j) ≡ file_byte fs inode j)
        × ((a : ℕ) → (a < load_addr) ⊎ (load_addr + inode_length fs inode ≤ a) → memory a ≡ page a)
  copies page fits = (
    write_bytes page load_addr (slice fs inode 0 (inode_length fs inode)),
    loads (load_rounds fs inode) 0 page fits (omega arith) (omega arith)
        ∙ ap loaded (ap₂ (λ k n. write_bytes page k (slice fs inode 0 n)) at_start whole),
    (λ j h.
        write_bytes-slice fs inode page load_addr 0 (inode_length fs inode) j h
        ∙ ap (file_byte fs inode) (zero_add j)),
    (λ a h.
        write_bytes_outside page load_addr a (slice fs inode 0 (inode_length fs inode))
          (rw (length-slice fs inode 0 (inode_length fs inode)) h)),
  )
    where
      at_start : load_addr + 0 * 4 ≡ load_addr
      at_start = omega arith

      whole : inode_length fs inode - 0 * 4 ≡ inode_length fs inode
      whole = omega arith

  -- The loop ends, within length / 4 + 2 rounds. If the file fits the program's page behind LOAD_ADDR, it leaves in
  -- memory the whole file from LOAD_ADDR on, byte by byte, and what was there before everywhere else; if not, it
  -- writes behind the page. The file's length is less than 2 ^ 32 - 16.
  pub load_program_copies :
      (page : ℕ → ℕ)
      → ((load_addr + inode_length fs inode ≤ page_end)
          × ((memory : ℕ → ℕ) × (load_program (load_rounds fs inode) fs inode 0 page
                ≡ loaded memory)
              × ((j : ℕ)
                  → j < inode_length fs inode
                  → memory (load_addr + j) ≡ file_byte fs inode j)
              × ((a : ℕ)
                  → (a < load_addr) ⊎ (load_addr + inode_length fs inode ≤ a)
                  → memory a ≡ page a)))
        ⊎ ((page_end < load_addr + inode_length fs inode)
            × (load_program (load_rounds fs inode) fs inode 0 page ≡ leaves_page))
  load_program_copies page = elim (dec_le (load_addr + inode_length fs inode) page_end) [
    | yes fits ↦ inl (fits, copies page fits)
    | no over ↦
        let big : page_end < load_addr + inode_length fs inode = ground arith in
        inr (big, leaves (load_rounds fs inode) 0 page big (omega arith) (omega arith))
  ]
