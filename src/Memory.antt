-- ===== src/Memory.antt =====
-- The string instructions of student-distrib/lib.c that fill and move memory: memset, memset_word,
-- memset_dword and memmove. Memory is a function from addresses to bytes; a region that is filled or
-- moved does not run past the last address.
pub mod Fill
pub mod Move
mod Tests
use lime_os.Prelude.{
  ℕ, zero, suc, ◌+◌, ◌-◌, ◌*◌, ◌/◌, ◌%◌, ◌==◌, leb, if◌then◌else◌, update, for_range,
}

-- movb, stosw and stosl: the low byte of a register, its low two bytes and its four, at an address.
abbrev pub store_byte : ℕ → ℕ → (ℕ → ℕ) → ℕ → ℕ
store_byte eax edi m = update m edi (eax % 256)

abbrev pub store_word : ℕ → ℕ → (ℕ → ℕ) → ℕ → ℕ
store_word eax edi m = store_byte (eax / 256) (edi + 1) (store_byte eax edi m)

abbrev pub store_dword : ℕ → ℕ → (ℕ → ℕ) → ℕ → ℕ
store_dword eax edi m =
    store_byte (eax / 16777216) (edi + 3)
      (store_byte (eax / 65536) (edi + 2) (store_word eax edi m))

-- rep stosw and rep stosl, with the direction flag clear.
pub rep_stosw : ℕ → ℕ → ℕ → (ℕ → ℕ) → ℕ → ℕ
rep_stosw ecx eax edi m = for_range ecx 0 (λ i. store_word eax (edi + i * 2)) m

pub rep_stosl : ℕ → ℕ → ℕ → (ℕ → ℕ) → ℕ → ℕ
rep_stosl ecx eax edi m = for_range ecx 0 (λ i. store_dword eax (edi + i * 4)) m

-- `.memset_aligned` and `.memset_bottom`: the words of four bytes, then the bytes that are left.
pub memset_aligned : ℕ → ℕ → ℕ → (ℕ → ℕ) → ℕ → ℕ
memset_aligned ecx eax edi m =
    let filled = rep_stosl (ecx / 4) eax edi m in
    for_range (ecx % 4) 0 (λ i. store_byte eax (edi + ecx / 4 * 4 + i)) filled

-- `.memset_top`: bytes until none is left or the address is a multiple of four.
pub memset_top : ℕ → ℕ → ℕ → (ℕ → ℕ) → ℕ → ℕ
memset_top zero eax edi m = m
memset_top (suc ecx) eax edi m =
    let rest = memset_top ecx eax (edi + 1) (store_byte eax edi m) in
    if edi % 4 == 0 then memset_aligned (suc ecx) eax edi m else rest

-- The low byte of `c`, in each of the four bytes of eax.
abbrev pub replicated : ℕ → ℕ
replicated c = c % 256 * 16777216 + c % 256 * 65536 + c % 256 * 256 + c % 256

pub memset : (ℕ → ℕ) → ℕ → ℕ → ℕ → ℕ → ℕ
memset m s c n = memset_top n (replicated c) s m

pub memset_word : (ℕ → ℕ) → ℕ → ℕ → ℕ → ℕ → ℕ
memset_word m s c n = rep_stosw n c s m

pub memset_dword : (ℕ → ℕ) → ℕ → ℕ → ℕ → ℕ → ℕ
memset_dword m s c n = rep_stosl n c s m

-- rep movsb, with the direction flag clear and with it set.
pub rep_movsb_up : ℕ → ℕ → ℕ → (ℕ → ℕ) → ℕ → ℕ
rep_movsb_up ecx edi esi m = for_range ecx 0 (λ i q. update q (edi + i) (q (esi + i))) m

pub rep_movsb_down : ℕ → ℕ → ℕ → (ℕ → ℕ) → ℕ → ℕ
rep_movsb_down ecx edi esi m = for_range ecx 0 (λ i q. update q (edi - i) (q (esi - i))) m

-- Upwards from the first byte when the source is not below the destination, else downwards from the
-- last.
pub memmove : (ℕ → ℕ) → ℕ → ℕ → ℕ → ℕ → ℕ
memmove m dest src n =
    if leb dest src
    then rep_movsb_up n dest src m
    else rep_movsb_down n (dest + n - 1) (src + n - 1) m
