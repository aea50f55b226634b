-- ===== src/Console/Switch.antt =====
-- terminal_switch: the screens' pages, the pointers to them and the users' page table stay in step.
use lime_os.Prelude.{
  ℕ, zero, suc, ◌+◌, ◌-◌, ◌*◌, ◌%◌, ◌<◌, ◌≤◌, ◌≡◌, ◌≢◌, ◌⊎◌, inl, inr, refl, ◌∙◌, ap, fun_ext, ◌&&◌,
  ltb, leb, ◌==◌, if◌then◌else◌, update, for_range, for_range_inv, arith, Bool-cases, update_self,
}
use lime_os.Console.Memcpy.{copied, memcpy_lem}
use lime_os.Console.{
  Console, screen_of, video, backup_mem_addr, vid_mem_backup, user_vid_mem_entry, screen_color,
  color_of, store, terminal_switch, update_cursor,
}

-- The attributes of the first `k` cells of the screen at `v` set to `c`.
colored : ℕ → ℕ → (ℕ → ℕ) → ℕ → ℕ → ℕ
colored v c m k a = if leb v a && (a - v) % 2 == 1 && ltb (a - v) (2 * k) then c else m a

colored-step :
    (v c : ℕ) (m : ℕ → ℕ) (k : ℕ)
    → update (colored v c m k) (v + k * 2 + 1) c ≡ colored v c m (k + 1)
unfolding colored
colored-step v c m k = fun_ext λ a. ground arith

color_loop :
    (s : Console)
    → for_range 2000 0 (λ i q. store q (screen_of q + i * 2 + 1) (color_of q)) s
      ≡ record s { mem = colored (screen_of s) (color_of s) s.mem 2000 }
color_loop s =
    for_range_inv (λ i q. q ≡ record s { mem = colored (screen_of s) (color_of s) s.mem i }) _ 0
      2000
      (λ i q lo hi e. rw e (
        ap (λ (m : ℕ → ℕ). record s { mem = m }) (colored-step (screen_of s) (color_of s) s.mem i)))
      2000 0 s (omega arith) refl (ap (λ (m : ℕ → ℕ). record s { mem = m }) start)
  where
    start : s.mem ≡ colored (screen_of s) (color_of s) s.mem 0
    start = fun_ext λ a. (unfold colored in ground arith)

backup_lem : (t : ℕ) → t < 3 → backup_mem_addr t ≡ 0xB9000 + 4096 * t
backup_lem zero h = refl
backup_lem (suc zero) h = refl
backup_lem (suc (suc zero)) h = refl
backup_lem (suc (suc (suc t))) h = absurd (omega arith)

-- The current terminal's screen is the video memory and each other terminal's its backup page, and the
-- users' page table maps each terminal's page to its screen.
abbrev pub WellPlaced : Console → Type 0
WellPlaced s =
    (s.terminal_num < 3)
    × ((t : ℕ)
        → t < 3
        → (s.video_mem t ≡ (if t == s.terminal_num then video else backup_mem_addr t))
          × (s.pt1 t ≡ (if t == s.terminal_num then user_vid_mem_entry else vid_mem_backup t)))

-- The memory after the two copies of a switch.
swapped : (ℕ → ℕ) → ℕ → ℕ → ℕ → ℕ
swapped m old new =
    copied (copied m (backup_mem_addr old) video 4096) video (backup_mem_addr new) 4096

-- A switch in terms of its parts.
terminal_switch_parts :
    (s : Console) (new : ℕ)
    → s.terminal_num < 3
    → new < 3
    → let r = terminal_switch s new in
      (r.mem ≡ colored video (screen_color new) (swapped s.mem s.terminal_num new) 2000)
      × (r.video_mem
          ≡ update (update s.video_mem s.terminal_num (backup_mem_addr s.terminal_num)) new video)
      × (r.pt1
          ≡ update
              (update s.pt1 s.terminal_num (vid_mem_backup s.terminal_num))
              new
              user_vid_mem_entry)
      × (r.terminal_num ≡ new)
unfolding terminal_switch update_cursor swapped
terminal_switch_parts s new ho hn =
    rw
      (
        color_loop,
        memcpy_lem s.mem (backup_mem_addr s.terminal_num) video 4096
            (inl (omega (arith, backup_lem s.terminal_num ho))),
        memcpy_lem _ video (backup_mem_addr new) 4096 (inr (omega (arith, backup_lem new hn))),
      )
      (elim (Bool-cases (new == s.tty)) [
        | inl e ↦ rw e (place, refl, refl, refl)
        | inr e ↦ rw e (place, refl, refl, refl)
      ])
  where
    place :
        colored
          (update
            (update s.video_mem s.terminal_num (backup_mem_addr s.terminal_num))
            new
            video
            new)
          (screen_color new)
          (copied
            (copied s.mem (backup_mem_addr s.terminal_num) video 4096)
            video
            (backup_mem_addr new)
            4096)
          2000
        ≡ colored video
            (screen_color new)
            (copied
              (copied s.mem (backup_mem_addr s.terminal_num) video 4096)
              video
              (backup_mem_addr new)
              4096)
            2000
    place =
        ap
          (λ v.
            colored v (screen_color new)
              (copied (copied s.mem (backup_mem_addr s.terminal_num) video 4096) video
                (backup_mem_addr new) 4096)
              2000)
          (update_self (update s.video_mem s.terminal_num (backup_mem_addr s.terminal_num)) new
            video)

copied_inside :
    (m : ℕ → ℕ) (dest src n o : ℕ) → o < n → copied m dest src n (dest + o) ≡ m (src + o)
unfolding copied
copied_inside m dest src n o h = ground arith

copied_outside :
    (m : ℕ → ℕ) (dest src n a : ℕ) → (a < dest) ⊎ (dest + n ≤ a) → copied m dest src n a ≡ m a
unfolding copied
copied_outside m dest src n a (inl h) = ground arith
copied_outside m dest src n a (inr h) = ground arith

-- Where the screen of terminal `t` is, if terminal `current` is on the display.
abbrev place : ℕ → ℕ → ℕ
place current t = if t == current then video else backup_mem_addr t

-- After the copies each terminal's page holds, at its new place, what it held at its old place.
swapped-place :
    (m : ℕ → ℕ) (old new t o : ℕ)
    → old < 3
    → new < 3
    → t < 3
    → o < 4096
    → swapped m old new (place new t + o) ≡ m (place old t + o)
unfolding swapped
swapped-place m old new t o h_old h_new ht ho = elim (Bool-cases (t == new)) [
  | inl shown ↦ rw shown (
      copied_inside (copied m (backup_mem_addr old) video 4096) video (backup_mem_addr new) 4096 o
        ho
      ∙ elim (Bool-cases (t == old)) [
        | inl same ↦ rw same (
            let e : backup_mem_addr new ≡ backup_mem_addr old =
              ap backup_mem_addr (let e' : new ≡ old = ground arith in e') in
            rw e (copied_inside m (backup_mem_addr old) video 4096 o ho))
        | inr other ↦ rw other (
            let e : t ≡ new = ground arith in
            rw e (
              copied_outside m (backup_mem_addr old) video 4096 (backup_mem_addr new + o)
                (apart new (ground arith) h_new)))
      ])
  | inr hidden ↦ rw hidden (
      copied_outside (copied m (backup_mem_addr old) video 4096) video (backup_mem_addr new) 4096
        (backup_mem_addr t + o) (inr (omega (arith, backup_lem t ht)))
      ∙ elim (Bool-cases (t == old)) [
        | inl same ↦ rw same (
            let e : t ≡ old = ground arith in
            rw e (copied_inside m (backup_mem_addr old) video 4096 o ho))
        | inr other ↦ rw other (
            copied_outside m (backup_mem_addr old) video 4096 (backup_mem_addr t + o)
              (apart t (ground arith) ht))
      ])
]
  where
    apart :
        (k : ℕ)
        → k ≢ old
        → k < 3
        → (backup_mem_addr k + o < backup_mem_addr old)
          ⊎ (backup_mem_addr old + 4096 ≤ backup_mem_addr k + o)
    apart k ne hk = grind (arith, backup_lem k hk, backup_lem old h_old)

-- The new pointer and page table entry of each terminal.
placed :
    (s : Console) (new t : ℕ)
    → new < 3
    → t < 3
    → WellPlaced s
    → let r = terminal_switch s new in
      (r.video_mem t ≡ place new t)
      × (r.pt1 t ≡ (if t == new then user_vid_mem_entry else vid_mem_backup t))
placed s new t hn ht (hs, w) =
    let (pm, pv, pp, pt) = terminal_switch_parts s new hs hn in
    rw (pv, pp) (ground (arith, w t ht), ground (arith, w t ht))

colored-place :
    (m : ℕ → ℕ) (c new t o : ℕ)
    → t < 3
    → o < 4096
    → colored video c m 2000 (place new t + o)
      ≡ (if t == new && o % 2 == 1 && ltb o 4000 then c else m (place new t + o))
unfolding colored
colored-place m c new t o ht ho = elim (Bool-cases (t == new)) [
  | inl e ↦ rw e (ground arith)
  | inr e ↦ rw e (ground (arith, backup_lem t ht))
]

-- A switch to any of the three terminals keeps the screens and the users' page table in step with the
-- terminal that is shown. The text of every terminal's screen stays what it was, the other terminals'
-- attributes too, and the shown terminal's cells all take its colour.
pub terminal_switch_lem :
    (s : Console) (new : ℕ)
    → new < 3
    → WellPlaced s
    → let r = terminal_switch s new in
      WellPlaced r
      × (r.terminal_num ≡ new)
      × ((t o : ℕ)
          → t < 3
          → o < 4096
          → r.mem (r.video_mem t + o) ≡ (
              if t == new && o % 2 == 1 && ltb o 4000
              then screen_color new
              else s.mem (s.video_mem t + o)))
terminal_switch_lem s new hn (hs, w) =
    let (pm, pv, pp, pt) = terminal_switch_parts s new hs hn in
    (
      (rw pt hn, λ t ht. rw pt (placed s new t hn ht (hs, w))),
      pt,
      λ t o ht ho.
          rw (pm, (placed s new t hn ht (hs, w)).0, colored-place, swapped-place, (w t ht).0),
    )
