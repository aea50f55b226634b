-- ===== src/Rtc/Rates.antt =====
-- The frequencies that the clock can be set to, and what is sent for them.
use Prim.Native.Nat.{bit_and, bit_or}
use lime_os.Prelude.{
  ℕ, ◌+◌, ◌-◌, ◌*◌, ◌/◌, ◌^◌, ◌<◌, ◌≤◌, ◌≡◌, ◌≢◌, ◌⊎◌, inl, inr, refl, ap, sym, ◌∙◌, Bool, true,
  false, List, [], ◌∷◌, Option, none, some, ltb, leb, not, ◌&&◌, ◌||◌, ◌==◌, ==_iff, if◌then◌else◌,
  all_below, all_below_lem, arith, Bool-cases, Option-cases,
}
use native.Mathlib.Decide.{dec_lt}
use lime_os.Pic.{Out, outb}
use lime_os.Rtc.{
  rtc_reg_a, rtc_port, coms_port, find_rate, send_rate, change_freq_rtc, begin_read_rtc,
  read_rtc_ready, rtc_handler,
}

-- The rate for a frequency: the powers of two from 2 to 1024, and no other frequency.
unfoldable pub rate_for : ℕ → Option ℕ
rate_for freq =
    if freq == 2
    then some 15
    else if freq == 4
    then some 14
    else if freq == 8
    then some 13
    else if freq == 16
    then some 12
    else if freq == 32
    then some 11
    else if freq == 64
    then some 10
    else if freq == 128
    then some 9
    else if freq == 256
    then some 8
    else if freq == 512
    then some 7
    else if freq == 1024
    then some 6
    else none

same_rate : Option ℕ → Option ℕ → Bool
same_rate none none = true
same_rate none (some b) = false
same_rate (some a) none = false
same_rate (some a) (some b) = a == b

same_rate_lem : (p q : Option ℕ) → same_rate p q ≡ true → p ≡ q
unfolding same_rate
same_rate_lem none none h = refl
same_rate_lem none (some b) h = cc
same_rate_lem (some a) none h = cc
same_rate_lem (some a) (some b) h = ap some ((==_iff a b).0 h)

rate_row : ℕ → Bool
rate_row freq = same_rate (find_rate 14 1 freq) (rate_for freq)

rate_table : all_below 1025 rate_row ≡ true
unfolding all_below rate_row same_rate find_rate rate_for
rate_table = refl

find_rate-rate_for : (freq : ℕ) → freq < 1025 → find_rate 14 1 freq ≡ rate_for freq
find_rate-rate_for freq h =
    same_rate_lem _ _ (unfold rate_row in all_below_lem 1025 rate_row freq rate_table h)

rate_for-high : (freq : ℕ) → 1024 < freq → rate_for freq ≡ none
unfolding rate_for
rate_for-high freq h = ground arith

-- The high half of a byte with a low half of four bits.
nibble_row : ℕ → ℕ → Bool
nibble_row a r = bit_or (bit_and a 0xF0) r == a / 16 * 16 + r

nibble_table : all_below 256 (λ a. all_below 16 (nibble_row a)) ≡ true
unfolding all_below nibble_row
nibble_table = refl

nibble : (a r : ℕ) → a < 256 → r < 16 → bit_or (bit_and a 0xF0) r ≡ a / 16 * 16 + r
nibble a r ha hr = (==_iff _ _).0 (
    unfold nibble_row in
    all_below_lem 16 (nibble_row a) r
      (all_below_lem 256 (λ x. all_below 16 (nibble_row x)) a nibble_table ha) hr)

-- What reaches the clock: register A is selected, read, selected again, and given the rate in its low
-- half, its high half unchanged.
abbrev pub sent : ℕ → Option ℕ → List Out
sent reg_a none = []
sent reg_a (some rate) =
    outb rtc_reg_a rtc_port ∷ outb rtc_reg_a rtc_port ∷ outb (reg_a / 16 * 16 + rate) coms_port ∷ []

rate_for-lt : (freq r : ℕ) → rate_for freq ≡ some r → r < 16
unfolding rate_for
rate_for-lt freq r h = ground arith

sent-send_rate :
    (reg_a : ℕ) (o : Option ℕ)
    → reg_a < 256
    → ((r : ℕ) → o ≡ some r → r < 16)
    → send_rate reg_a o ≡ sent reg_a o
sent-send_rate reg_a none ha hr = refl
sent-send_rate reg_a (some r) ha hr = rw (nibble reg_a r ha (hr r refl))

-- changeFreq_RTC sends the rate that `rate_for` gives each power of two from 2 to 1024, and for any other
-- frequency nothing.
pub change_freq_rtc-sent :
    (reg_a freq : ℕ) → reg_a < 256 → change_freq_rtc reg_a freq ≡ sent reg_a (rate_for freq)
unfolding change_freq_rtc
change_freq_rtc-sent reg_a freq ha = elim (Bool-cases (ltb 1024 freq)) [
  | inl high ↦ rw (high, rate_for-high freq (ground arith))
  | inr low ↦
      rw (low, find_rate-rate_for freq (ground arith))
        (sent-send_rate reg_a (rate_for freq) ha (rate_for-lt freq))
]

-- The frequency of each rate, and the rate of each frequency.
fits_rate : ℕ → Option ℕ → Bool
fits_rate freq none = true
fits_rate freq (some r) = leb 6 r && ltb r 16 && (2 ^ (16 - r) == freq)

fits_table : all_below 1025 (λ freq. fits_rate freq (rate_for freq)) ≡ true
unfolding all_below fits_rate rate_for
fits_table = refl

rate_for-some : (freq r : ℕ) → rate_for freq ≡ some r → (6 ≤ r) × (r < 16) × (freq ≡ 2 ^ (16 - r))
unfolding fits_rate
rate_for-some freq r h = elim (dec_lt freq 1025) [
  | yes low ↦
      let fits : (leb 6 r && ltb r 16 && (2 ^ (16 - r) == freq)) ≡ true =
        sym (ap (fits_rate freq) h)
        ∙ all_below_lem 1025 (λ f. fits_rate f (rate_for f)) freq fits_table low in
      ground (arith, fits)
  | no high ↦ let e = rate_for-high freq (omega arith) in cc
]

has_rate : ℕ → Bool
has_rate r = not (leb 6 r) || same_rate (rate_for (2 ^ (16 - r))) (some r)

has_table : all_below 16 has_rate ≡ true
unfolding all_below has_rate rate_for same_rate
has_table = refl

rate_for-power : (r : ℕ) → 6 ≤ r → r < 16 → rate_for (2 ^ (16 - r)) ≡ some r
unfolding has_rate
rate_for-power r lo hi =
    let row : (not (leb 6 r) || same_rate (rate_for (2 ^ (16 - r))) (some r)) ≡ true =
      all_below_lem 16 has_rate r has_table hi in
    same_rate_lem _ _ (ground (arith, row))

-- A process that waits in read_RTC is let go by the next interrupt and not before: setting a flag
-- again on any terminal does not end the wait, and the handler ends it on each of the three.
pub read_rtc_waits :
    (flags : ℕ → ℕ) (tty other : ℕ)
    → tty < 3
    → (read_rtc_ready (begin_read_rtc flags tty) tty ≡ false)
      × (read_rtc_ready (begin_read_rtc (begin_read_rtc flags tty) other) tty ≡ false)
      × (read_rtc_ready (rtc_handler (begin_read_rtc flags tty)).0 tty ≡ true)
unfolding begin_read_rtc read_rtc_ready rtc_handler
read_rtc_waits flags tty other h = ground arith

-- changeFreq_RTC sets the clock to each power of two from 2 to 1024: it selects register A, and gives its low half
-- the rate r from 6 to 15 for 2 ^ (16 - r), the high half unchanged. For any other frequency it sends nothing. What
-- register A holds is a byte.
pub change_freq_rtc-sets :
    (reg_a freq : ℕ)
    → reg_a < 256
    → ((r : ℕ) × (6 ≤ r)
        × (r < 16)
        × (freq ≡ 2 ^ (16 - r))
        × (change_freq_rtc reg_a freq ≡ sent reg_a (some r)))
      ⊎ (((r : ℕ) → 6 ≤ r → r < 16 → freq ≢ 2 ^ (16 - r)) × (change_freq_rtc reg_a freq ≡ []))
change_freq_rtc-sets reg_a freq h = elim (Option-cases (rate_for freq)) [
  | inl e ↦ inr (
    (λ r lo hi power.
        let there : rate_for freq ≡ some r = ap rate_for power ∙ rate_for-power r lo hi in cc),
    change_freq_rtc-sent reg_a freq h ∙ ap (sent reg_a) e,
  )
  | inr (r, e) ↦
      let (lo, hi, power) = rate_for-some freq r e in
      inl (r, lo, hi, power, change_freq_rtc-sent reg_a freq h ∙ ap (sent reg_a) e)
]
