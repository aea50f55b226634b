-- ===== src/Startup/Tests.antt =====
-- The kernel started by a loader with a memory map of two entries, and with a keyboard that asks once for the
-- command again.
use lime_os.Prelude.{
  ℕ, ◌+◌, ◌<◌, ◌≡◌, ◌⊎◌, inl, inr, refl, sym, ap, subst, [], ◌∷◌, u32, ◌==◌, ◌||◌, if◌then◌else◌,
  arith,
}
use lime_os.Filesystem.{load_word}
use lime_os.Samples.{image, kernel}
use lime_os.Startup.{SegDesc, Boot, Machine, spins, entry}
use lime_os.Startup.Report.{Visits, first_entry, next_entry, MapGood}
use lime_os.Startup.Entry.{IsStarted, entry-spins}

abbrev no_desc : SegDesc
no_desc = record {
  seg_lim_15_00 = 0;
  base_15_00 = 0;
  base_23_16 = 0;
  type_bits = 0;
  sys = 0;
  dpl = 0;
  present = 0;
  seg_lim_19_16 = 0;
  avail = 0;
  reserved = 0;
  opsize = 0;
  granularity = 0;
  base_31_24 = 0;
}

abbrev boot : Boot
boot = record {
  magic = 0x2BADB002;
  addr = 0x10000;
  text_at = λ _. [];
  ldt = 0x400120;
  ldt_size = 31;
  tss = 0x400080;
  tss_size = 103;
  places = record { pdt_addr = 0x401000; pt0_addr = 0x402000; pt1_addr = 0x403000 };
  answers = 0x1C ∷ 0xFE ∷ 0xFA ∷ [];
  reg_b = 2;
  local_desc = no_desc;
}

-- At `addr` flag 6, and the length and the address of the map: two entries of 20 bytes behind their sizes.
abbrev info_byte : ℕ → ℕ
info_byte a =
    if a == 0x10000
    then 0x40
    else if a == 0x1002C
    then 48
    else if a == 0x10032
    then 2
    else if a == 0x20000 || a == 0x20018
    then 20
    else image.mem a

abbrev machine : Machine
machine = record {
  kernel = record kernel { fs = record image { mem = info_byte } };
  pic = record { master_mask = 255; slave_mask = 255 };
  tables = record { pdt = λ _. 1; pt0 = λ _. 1; pt1 = λ _. 1; cr0 = 0x11; cr3 = 0; cr4 = 0 };
  ldt_desc = no_desc;
  tss_desc = no_desc;
  ldt_segment_selector = 0;
}

-- The loop over the map comes to the two entries and to its end.
visited :
    (a : ℕ) → Visits info_byte 0x20000 0x20030 a → (a ≡ 0x20000) ⊎ ((a ≡ 0x20018) ⊎ (a ≡ 0x20030))
visited a first_entry = inl refl
visited a (next_entry v below) = elim (visited _ v) [
  | inl e ↦ inr (inl (ap (λ x. u32 (x + load_word info_byte x + 4)) e))
  | inr (inl e) ↦ inr (inr (ap (λ x. u32 (x + load_word info_byte x + 4)) e))
  | inr (inr e) ↦ absurd (omega arith)
]

map_good : MapGood info_byte 0x10000
map_good flag = (
  omega arith,
  λ a v below. elim (visited a v) [
    | inl e ↦ subst (λ x. x + load_word info_byte x + 4 < 4294967296) (sym e) (omega arith)
    | inr (inl e) ↦ subst (λ x. x + load_word info_byte x + 4 < 4294967296) (sym e) (omega arith)
    | inr (inr e) ↦ absurd (omega arith)
  ],
)

entry-spins_example : (r : Machine) × (entry boot machine ≡ spins r) × IsStarted boot machine r
entry-spins_example =
    entry-spins boot machine (0x1C ∷ 0xFE ∷ []) [] refl refl map_good refl refl
      (omega arith, (omega arith, tt)) (omega arith, omega arith, omega arith, omega arith)
