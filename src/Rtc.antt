-- ===== src/Rtc.antt =====
-- The real-time clock driver, student-distrib/rtc.c. What `inb(COMS_PORT)` reads is an argument; what
-- is sent to the ports is returned in order.
pub mod Rates
mod Tests
use Prim.Native.Nat.{bit_and, bit_or}
use lime_os.Prelude.{
  ℕ, zero, suc, ◌+◌, ◌-◌, ◌*◌, ◌/◌, ◌^◌, Bool, not, List, [], ◌∷◌, ◌++◌, Option, none, some, u8,
  u32, minus_one, ltb, ◌==◌, if◌then◌else◌, update,
}
use lime_os.Pic.{Pic, Out, outb, enable_irq, send_eoi}

abbrev pub rtc_port : ℕ
rtc_port = 0x70

abbrev pub coms_port : ℕ
coms_port = 0x71

abbrev pub rtc_reg_a : ℕ
rtc_reg_a = 0x8A

abbrev pub rtc_reg_b : ℕ
rtc_reg_b = 0x8B

abbrev pub rtc_reg_c : ℕ
rtc_reg_c = 0x0C

abbrev pub max_freq : ℕ
max_freq = 1024

abbrev pub freq_for_rate_calc : ℕ
freq_for_rate_calc = 32768

-- `initialize_RTC`: `reg_b` is what register B holds.
unfoldable pub initialize_rtc : Pic → ℕ → Pic × List Out
initialize_rtc p reg_b =
    let (p2, out2) = enable_irq p 2 in
    let (p8, out8) = enable_irq p2 8 in
    (
      p8,
      outb rtc_reg_b rtc_port
          ∷ outb rtc_reg_b rtc_port
          ∷ outb (bit_or reg_b 0x40) coms_port
          ∷ (out2 ++ (out8 ++ (outb rtc_reg_c rtc_port ∷ []))),
    )

-- The loop over `rate`; the first number counts the rounds before `rate` passes 15.
find_rate : ℕ → ℕ → ℕ → Option ℕ
find_rate zero rate freq = if freq_for_rate_calc / 2 ^ (rate - 1) == freq then some rate else none
find_rate (suc n) rate freq =
    let rest = find_rate n (rate + 1) freq in
    if freq_for_rate_calc / 2 ^ (rate - 1) == freq then some rate else rest

-- What is sent for a rate, `reg_a` being what register A holds.
abbrev pub send_rate : ℕ → Option ℕ → List Out
send_rate reg_a none = []
send_rate reg_a (some rate) =
    outb rtc_reg_a rtc_port
    ∷ outb rtc_reg_a rtc_port
    ∷ outb (bit_or (bit_and reg_a 0xF0) rate) coms_port
    ∷ []

pub change_freq_rtc : ℕ → ℕ → List Out
unfolding find_rate
change_freq_rtc reg_a freq = if ltb max_freq freq then [] else send_rate reg_a (find_rate 14 1 freq)

unfoldable pub open_rtc : ℕ → ℕ × List Out
open_rtc reg_a = (0, change_freq_rtc reg_a 2)

-- `read_RTC` before its loop: the flags, by terminal.
unfoldable pub begin_read_rtc : (ℕ → ℕ) → ℕ → ℕ → ℕ
begin_read_rtc rtc_interrupt_occured tty = update rtc_interrupt_occured tty 1

-- The test that ends the loop of `read_RTC`; it then returns 0.
unfoldable pub read_rtc_ready : (ℕ → ℕ) → ℕ → Bool
read_rtc_ready rtc_interrupt_occured tty = not (rtc_interrupt_occured tty == 1)

-- `*((int32_t*)buf)`.
abbrev pub word_of : List ℕ → ℕ
word_of (a ∷ b ∷ c ∷ d ∷ l) = a + 256 * b + 65536 * c + 16777216 * d
word_of l = 0

-- `none` is NULL; the buffer holds four bytes at least where `nbytes` is 4.
unfoldable pub write_rtc : ℕ → Option (List ℕ) → ℕ → ℕ × List Out
write_rtc reg_a none nbytes = (minus_one, [])
write_rtc reg_a (some buf) nbytes =
    if not (nbytes == 4) then (minus_one, []) else (nbytes, change_freq_rtc reg_a (word_of buf))

unfoldable pub close_rtc : ℕ
close_rtc = 0

unfoldable pub rtc_handler : (ℕ → ℕ) → (ℕ → ℕ) × List Out
rtc_handler rtc_interrupt_occured = (
  update (update (update rtc_interrupt_occured 0 0) 1 0) 2 0,
  outb rtc_reg_c rtc_port ∷ send_eoi 8,
)
