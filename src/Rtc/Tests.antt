-- ===== src/Rtc/Tests.antt =====
-- The theorems on the real-time clock at concrete settings.
use lime_os.Prelude.{ℕ, ◌-◌, ◌^◌, ◌<◌, ◌≤◌, ◌≡◌, ◌≢◌, ◌⊎◌, true, false, [], some, arith}
use lime_os.Rtc.{change_freq_rtc, begin_read_rtc, read_rtc_ready, rtc_handler}
use lime_os.Rtc.Rates.{sent, change_freq_rtc-sets, read_rtc_waits}

change_freq_rtc-sets_example :
    ((r : ℕ) × (6 ≤ r)
      × (r < 16)
      × (512 ≡ 2 ^ (16 - r))
      × (change_freq_rtc 0x26 512 ≡ sent 0x26 (some r)))
    ⊎ (((r : ℕ) → 6 ≤ r → r < 16 → 512 ≢ 2 ^ (16 - r)) × (change_freq_rtc 0x26 512 ≡ []))
change_freq_rtc-sets_example = change_freq_rtc-sets 0x26 512 (omega arith)

read_rtc_waits_example :
    (read_rtc_ready (begin_read_rtc (λ _. 0) 1) 1 ≡ false)
    × (read_rtc_ready (begin_read_rtc (begin_read_rtc (λ _. 0) 1) 2) 1 ≡ false)
    × (read_rtc_ready (rtc_handler (begin_read_rtc (λ _. 0) 1)).0 1 ≡ true)
read_rtc_waits_example = read_rtc_waits (λ _. 0) 1 2 (omega arith)
