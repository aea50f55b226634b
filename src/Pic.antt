-- ===== src/Pic.antt =====
-- The interrupt controllers, student-distrib/i8259.c. A function returns the bytes that it sends, with
-- their ports, in order.
pub mod Masks
mod Tests
use Prim.Native.Nat.{bit_and, bit_or}
use lime_os.Prelude.{
  ℕ, ◌+◌, ◌-◌, ◌^◌, ◌%◌, List, [], ◌∷◌, u8, u32, minus_one, ltb, leb, if◌then◌else◌,
}

-- `outb(data, port)`.
pub record Out : Type 0 where
  pub byte : ℕ
  pub port : ℕ

abbrev pub outb : ℕ → ℕ → Out
outb d p = record { byte = u8 d; port = p }

abbrev pub act_low : ℕ
act_low = 0xFF

abbrev pub master_port : ℕ
master_port = 0x20

abbrev pub slave_port : ℕ
slave_port = 0xA0

abbrev pub eoi : ℕ
eoi = 0x60

-- `master_mask` and `slave_mask`.
pub record Pic : Type 0 where
  pub master_mask : ℕ
  pub slave_mask : ℕ

pub i8259_init : List Out
i8259_init =
    outb act_low (master_port + 1)
    ∷ outb act_low (slave_port + 1)
    ∷ outb 0x11 master_port
    ∷ outb 0x11 slave_port
    ∷ outb 0x20 (master_port + 1)
    ∷ outb 0x28 (slave_port + 1)
    ∷ outb 0x04 (master_port + 1)
    ∷ outb 0x02 (slave_port + 1)
    ∷ outb 0x01 (master_port + 1)
    ∷ outb 0x01 (slave_port + 1)
    ∷ []

-- `mask & ~(1 << k)` and `mask | (1 << k)`, kept in a uint8_t.
unfoldable pub unmask : ℕ → ℕ → ℕ
unmask mask k = u8 (bit_and mask (minus_one - u32 (2 ^ k)))

pub mask_bit : ℕ → ℕ → ℕ
mask_bit mask k = u8 (bit_or mask (u32 (2 ^ k)))

unfoldable pub enable_irq : Pic → ℕ → Pic × List Out
enable_irq p irq_num =
    if ltb irq_num 8
    then (let m = unmask p.master_mask irq_num in
        (record p { master_mask = m }, outb m (master_port + 1) ∷ []))
    else (let m = unmask p.slave_mask (irq_num - 8) in
        (record p { slave_mask = m }, outb m (slave_port + 1) ∷ []))

pub disable_irq : Pic → ℕ → Pic × List Out
disable_irq p irq_num =
    if ltb irq_num 8
    then (let m = mask_bit p.master_mask irq_num in
        (record p { master_mask = m }, outb m (master_port + 1) ∷ []))
    else (let m = mask_bit p.slave_mask (irq_num - 8) in
        (record p { slave_mask = m }, outb m (slave_port + 1) ∷ []))

unfoldable pub send_eoi : ℕ → List Out
send_eoi irq_num =
    if leb 8 irq_num
    then outb (bit_or eoi (irq_num - 8)) slave_port ∷ outb (bit_or eoi 2) master_port ∷ []
    else outb (bit_or eoi irq_num) master_port ∷ []
