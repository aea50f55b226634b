-- ===== src/Startup/Descriptors.antt =====
-- The segment descriptors that entry of student-distrib/kernel.c builds, as the processor reads them.
use lime_os.Prelude.{ℕ, ◌+◌, ◌*◌, ◌<◌, ◌≡◌, refl, arith}
use lime_os.Startup.{SegDesc, ldt_descriptor, tss_descriptor}

-- The base and the limit of a segment, and the byte with its type, level and present bit.
abbrev pub base : SegDesc → ℕ
base d = d.base_31_24 * 16777216 + d.base_23_16 * 65536 + d.base_15_00

abbrev pub limit : SegDesc → ℕ
limit d = d.seg_lim_19_16 * 65536 + d.seg_lim_15_00

abbrev pub access : SegDesc → ℕ
access d = d.type_bits + 16 * d.sys + 32 * d.dpl + 128 * d.present

-- A descriptor of a system segment.
pub record Describes (d : SegDesc) (addr lim rights : ℕ) : Type 0 where
  pub its_base : base d ≡ addr
  pub its_limit : limit d ≡ lim
  pub its_rights : access d ≡ rights
  pub in_bytes : d.granularity ≡ 0

pub ldt_descriptor-Describes :
    (d : SegDesc) (ldt ldt_size : ℕ)
    → ldt < 4294967296
    → ldt_size < 1048576
    → Describes (ldt_descriptor d ldt ldt_size) ldt ldt_size 0x82
unfolding ldt_descriptor
ldt_descriptor-Describes d ldt ldt_size ha hl = record {
  its_base = omega arith;
  its_limit = omega arith;
  its_rights = refl;
  in_bytes = refl;
}

pub tss_descriptor-Describes :
    (d : SegDesc) (tss tss_size : ℕ)
    → tss < 4294967296
    → tss_size < 1048576
    → Describes (tss_descriptor d tss tss_size) tss tss_size 0x89
unfolding tss_descriptor
tss_descriptor-Describes d tss tss_size ha hl = record {
  its_base = omega arith;
  its_limit = omega arith;
  its_rights = refl;
  in_bytes = refl;
}
