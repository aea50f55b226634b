-- ===== src/Paging/Walk.antt =====
-- What the tables of student-distrib/paging.c map, walked as the processor walks them.
use lime_os.Prelude.{
  ℕ, ◌+◌, ◌-◌, ◌*◌, ◌/◌, ◌%◌, ◌<◌, ◌≡◌, ◌≢◌, refl, ap, ◌∙◌, ◌&&◌, Option, none, some, ◌==◌, ltb,
  leb, if◌then◌else◌, update, for_range, for_range_inv, fun_ext, arith, true, false,
}
use native.Mathlib.Decide.{ℕ_discrete}
use lime_os.Paging.{Tables, Places, init_paging, clear_entry, set_page}

-- The page that an entry of a table of pages maps: bit 0 is the present bit.
abbrev pub page_of : ℕ → ℕ → Option ℕ
page_of entry address = if entry % 2 == 0 then none else some (entry / 4096 * 4096 + address % 4096)

-- The table at an address.
abbrev pub table_at : Places → Tables → ℕ → ℕ → ℕ
table_at p t address = if address == p.pt0_addr then t.pt0 else t.pt1

-- The physical address of a virtual one below 2 ^ 32: bit 7 of an entry of the directory says that it
-- maps a page of 4 MB itself.
pub walk : Places → Tables → ℕ → Option ℕ
walk p t address =
    let entry = t.pdt (address / 0x400000) in
    if entry % 2 == 0
    then none
    else if entry / 128 % 2 == 1
    then some (entry / 0x400000 * 0x400000 + address % 0x400000)
    else page_of (table_at p t (entry / 4096 * 4096) (address / 4096 % 1024)) address

-- The places of the tables that the loader may choose.
pub record IsPlaced (p : Places) : Type 0 where
  pub aligned0 : p.pt0_addr % 4096 ≡ 0
  pub aligned1 : p.pt1_addr % 4096 ≡ 0
  pub apart : p.pt0_addr ≢ p.pt1_addr

cleared : (ℕ → ℕ) → ℕ → ℕ → ℕ
cleared f n j = if ltb j n then 0 else f j

cleared-step : (f : ℕ → ℕ) (n : ℕ) → update (cleared f n) n 0 ≡ cleared f (n + 1)
unfolding cleared
cleared-step f n = fun_ext λ j. ground arith

cleared-zero : (f : ℕ → ℕ) → cleared f 0 ≡ f
unfolding cleared
cleared-zero f = fun_ext λ j. ground arith

-- The tables with their first `n` entries cleared.
abbrev cleared_tables : Tables → ℕ → Tables
cleared_tables t n = record t {
  pdt = cleared t.pdt n;
  pt0 = cleared t.pt0 n;
  pt1 = cleared t.pt1 n;
}

clear_entry-cleared :
    (t : Tables) (n : ℕ) → clear_entry n (cleared_tables t n) ≡ cleared_tables t (n + 1)
clear_entry-cleared t n = rw (cleared-step t.pdt n, cleared-step t.pt0 n, cleared-step t.pt1 n) refl

clears : (t : Tables) → for_range 1024 0 clear_entry t ≡ cleared_tables t 1024
clears t =
    for_range_inv (λ n r. r ≡ cleared_tables t n) clear_entry 0 1024
      (λ n r lo hi e. ap (clear_entry n) e ∙ clear_entry-cleared t n) 1024 0 t (omega arith) refl
      (rw (cleared-zero t.pdt, cleared-zero t.pt0, cleared-zero t.pt1) refl)

three_pages : (t : Tables) → for_range 3 1 set_page t ≡ set_page 3 (set_page 2 (set_page 1 t))
unfolding for_range
three_pages t = refl

-- The entries that the walk meets.
entries_lem :
    (p : Places) (t : Tables) (i : ℕ)
    → i < 1024
    → (let r = init_paging p t in
        (r.pdt i ≡ (
          if i == 0
          then p.pt0_addr + 0x17
          else if i == 1
          then 0x400083
          else if i == 25
          then p.pt1_addr + 7
          else 0))
        × (r.pt0 i ≡ (
            if i == 184
            then 0xB8117
            else if i == 185
            then 0xB9003
            else if i == 186
            then 0xBA003
            else if i == 187
            then 0xBB003
            else 0))
        × (r.pt1 i ≡ (
            if i == 0 then 0xB8007 else if i == 1 then 0xBA007 else if i == 2 then 0xBB007 else 0)))
unfolding init_paging cleared
entries_lem p t i h = rw (clears t, three_pages) (ground arith, ground arith, ground arith)

-- The kernel's page of 4 MB and the four pages of video memory are mapped to themselves. The three pages
-- from 100 MB on are the screen and the other terminals' pages.
abbrev pub mapped : ℕ → Option ℕ
mapped v =
    if leb 0x400000 v && ltb v 0x800000
    then some v
    else if leb 0xB8000 v && ltb v 0xBC000
    then some v
    else if leb 0x6400000 v && ltb v 0x6401000
    then some (0xB8000 + v % 4096)
    else if leb 0x6401000 v && ltb v 0x6403000
    then some (0xBA000 + (v - 0x6401000))
    else none

module _ (p : Places) (t : Tables) (h : IsPlaced p) (v : ℕ) where
  walk_low : v / 0x400000 ≡ 0 → walk p (init_paging p t) v ≡ mapped v
  unfolding walk
  walk_low d =
      let e : (init_paging p t).pdt (v / 0x400000) ≡ p.pt0_addr + 0x17 =
        (entries_lem p t (v / 0x400000) (omega arith)).0 ∙ rw d refl in
      let present : ((p.pt0_addr + 0x17) % 2 == 0) ≡ false = ground (arith, h.aligned0) in
      let small : ((p.pt0_addr + 0x17) / 128 % 2 == 1) ≡ false = ground (arith, h.aligned0) in
      let table : ((p.pt0_addr + 0x17) / 4096 * 4096 == p.pt0_addr) ≡ true =
        ground (arith, h.aligned0) in
      let entry = (entries_lem p t (v / 4096 % 1024) (omega arith)).1 in
      rw (e, present, small, table, entry) (ground arith)

  walk_kernel : v / 0x400000 ≡ 1 → walk p (init_paging p t) v ≡ mapped v
  unfolding walk
  walk_kernel d =
      let e : (init_paging p t).pdt (v / 0x400000) ≡ 0x400083 =
        (entries_lem p t (v / 0x400000) (omega arith)).0 ∙ rw d refl in
      rw e (ground arith)

  walk_user : v / 0x400000 ≡ 25 → walk p (init_paging p t) v ≡ mapped v
  unfolding walk
  walk_user d =
      let e : (init_paging p t).pdt (v / 0x400000) ≡ p.pt1_addr + 7 =
        (entries_lem p t (v / 0x400000) (omega arith)).0 ∙ rw d refl in
      let present : ((p.pt1_addr + 7) % 2 == 0) ≡ false = ground (arith, h.aligned1) in
      let small : ((p.pt1_addr + 7) / 128 % 2 == 1) ≡ false = ground (arith, h.aligned1) in
      let table : ((p.pt1_addr + 7) / 4096 * 4096 == p.pt0_addr) ≡ false =
        ground (arith, h.aligned1, h.apart) in
      let entry = (entries_lem p t (v / 4096 % 1024) (omega arith)).2 in
      rw (e, present, small, table, entry) (ground arith)

  walk_nowhere :
      v < 4294967296
      → v / 0x400000 ≢ 0
      → v / 0x400000 ≢ 1
      → v / 0x400000 ≢ 25
      → walk p (init_paging p t) v ≡ mapped v
  unfolding walk
  walk_nowhere hv n0 n1 n25 =
      let e : (init_paging p t).pdt (v / 0x400000) ≡ 0 =
        (entries_lem p t (v / 0x400000) (omega arith)).0 ∙ ground arith in
      rw e (ground arith)

  -- With the tables that init_paging builds, at whatever places the loader gives them, the processor
  -- maps the kernel's 4 MB, the four pages of video memory and the users' three video pages, each to
  -- where it belongs, and no other address below 2 ^ 32.
  pub init_paging-walk : v < 4294967296 → walk p (init_paging p t) v ≡ mapped v
  init_paging-walk hv = elim (ℕ_discrete (v / 0x400000) 0) [
    | yes e ↦ walk_low e
    | no n0 ↦ elim (ℕ_discrete (v / 0x400000) 1) [
      | yes e ↦ walk_kernel e
      | no n1 ↦ elim (ℕ_discrete (v / 0x400000) 25) [
        | yes e ↦ walk_user e
        | no n25 ↦ walk_nowhere hv n0 n1 n25
      ]
    ]
  ]
