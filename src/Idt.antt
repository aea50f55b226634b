-- ===== src/Idt.antt =====
-- The interrupt descriptor table of student-distrib/idt.c and x86_desc.h, with the handlers it names. The
-- address that the linker gives to a handler is a parameter.
pub mod Gates
pub mod Handlers
pub mod Faults
mod Tests
use lime_os.Prelude.{
  ℕ, ◌+◌, ◌*◌, ◌/◌, ◌%◌, List, [], ◌∷◌, ltb, ◌==◌, if◌then◌else◌, update, for_range,
}

abbrev pub num_vec : ℕ
num_vec = 256

abbrev pub kernel_cs : ℕ
kernel_cs = 0x10

abbrev pub system_call_vec_num : ℕ
system_call_vec_num = 0x80

abbrev pub exception_defined_by_intel : ℕ
exception_defined_by_intel = 0x20

abbrev pub pit_vec_num : ℕ
pit_vec_num = 0x20

abbrev pub keyboard_vec_num : ℕ
keyboard_vec_num = 0x21

abbrev pub rtc_vec_num : ℕ
rtc_vec_num = 0x28

-- The functions that the table points to. `overflow` is OF.
pub data Handler : Type 0 where
  undefined_interrupt : Handler
  de db nmi bp overflow br ud nm df cso ts np ss gp pf resr mf ac mc xf : Handler
  sys_handler k_handler r_handler p_handler : Handler

-- `idt_desc_t`.
pub record Gate : Type 0 where
  pub offset_15_00 : ℕ
  pub seg_selector : ℕ
  pub reserved4 : ℕ
  pub reserved3 : ℕ
  pub reserved2 : ℕ
  pub reserved1 : ℕ
  pub size : ℕ
  pub reserved0 : ℕ
  pub dpl : ℕ
  pub present : ℕ
  pub offset_31_16 : ℕ

-- SET_IDT_ENTRY: the high and the low half of the address.
abbrev pub set_idt_entry : Gate → ℕ → Gate
set_idt_entry g handler = record g {
  offset_31_16 = handler / 65536 % 65536;
  offset_15_00 = handler % 65536;
}

-- A round of the loop of init_idt.
abbrev pub init_gate : ℕ → ℕ → Gate → Gate
init_gate i handler g =
    let g1 = record g {
      present = 1;
      dpl = 0;
      reserved0 = 0;
      size = 1;
      reserved1 = 1;
      reserved2 = 1;
      reserved3 = 0;
      reserved4 = 0;
      seg_selector = kernel_cs;
    } in
    let g2 = if ltb i exception_defined_by_intel then record g1 { reserved3 = 0 } else g1 in
    let g3 = if i == system_call_vec_num then record g2 { reserved3 = 1; dpl = 3 } else g2 in
    set_idt_entry g3 handler

-- `SET_IDT_ENTRY(idt[i], handler)`.
unfoldable pub set_entry : ℕ → ℕ → (ℕ → Gate) → ℕ → Gate
set_entry i handler idt = update idt i (set_idt_entry (idt i) handler)

module _ (address : Handler → ℕ) where
  -- The loop.
  pub init_gates : (ℕ → Gate) → ℕ → Gate
  init_gates idt =
      for_range num_vec 0 (λ i t. update t i (init_gate i (address undefined_interrupt) (t i))) idt

  -- The statements behind the loop, in their order.
  pub set_exceptions : (ℕ → Gate) → ℕ → Gate
  set_exceptions t0 =
      let t1 = set_entry 0 (address de) t0 in
      let t2 = set_entry 1 (address db) t1 in
      let t3 = set_entry 2 (address nmi) t2 in
      let t4 = set_entry 3 (address bp) t3 in
      let t5 = set_entry 4 (address overflow) t4 in
      let t6 = set_entry 5 (address br) t5 in
      let t7 = set_entry 6 (address ud) t6 in
      let t8 = set_entry 7 (address nm) t7 in
      let t9 = set_entry 8 (address df) t8 in
      let t10 = set_entry 9 (address cso) t9 in
      let t11 = set_entry 10 (address ts) t10 in
      let t12 = set_entry 11 (address np) t11 in
      let t13 = set_entry 12 (address ss) t12 in
      let t14 = set_entry 13 (address gp) t13 in
      let t15 = set_entry 14 (address pf) t14 in
      let t16 = set_entry 15 (address resr) t15 in
      let t17 = set_entry 16 (address mf) t16 in
      let t18 = set_entry 17 (address ac) t17 in
      let t19 = set_entry 18 (address mc) t18 in let t20 = set_entry 19 (address xf) t19 in t20

  pub init_idt : (ℕ → Gate) → ℕ → Gate
  init_idt idt =
      let t0 = set_exceptions (init_gates idt) in
      let t1 = set_entry system_call_vec_num (address sys_handler) t0 in
      let t2 = set_entry keyboard_vec_num (address k_handler) t1 in
      let t3 = set_entry rtc_vec_num (address r_handler) t2 in
      set_entry pit_vec_num (address p_handler) t3
