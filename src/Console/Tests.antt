-- ===== src/Console/Tests.antt =====
-- The theorems on the console at small screens.
use lime_os.Prelude.{
  ℕ, zero, suc, ◌+◌, ◌%◌, ◌<◌, ◌≡◌, refl, inr, List, [], ◌∷◌, some, take, update, ltb, ◌==◌, ◌&&◌,
  if◌then◌else◌, arith,
}
use lime_os.Console.{
  video, backup_mem_addr, user_vid_mem_entry, vid_mem_backup, y_of, screen_color, memcpy,
  scroll_screen, write_char, write_rounds, terminal_write, terminal_switch,
}
use lime_os.Console.Scroll.{scrolled, scroll_screen_lem}
use lime_os.Console.Bounds.{
  InBounds, NoReturn, position, positions, terminal_write-position, write_char-return_leaves,
}
use lime_os.Console.Memcpy.{copied, memcpy_lem}
use lime_os.Console.Switch.{WellPlaced, terminal_switch_lem}
use lime_os.Samples.{console, cursor_at}

-- "a", a line feed, "b".
abbrev text : List ℕ
text = b'a' ∷ b'\n' ∷ b'b' ∷ []

text-NoReturn : NoReturn (take (write_rounds 3) text)
text-NoReturn = (omega arith, (omega arith, (omega arith, tt)))

console-InBounds : InBounds console
console-InBounds = record { column = omega arith; row = omega arith }

scroll_screen_lem_example : scroll_screen (cursor_at 5 24) ≡ record (cursor_at 5 24) {
  mem = scrolled 0xB8000 (λ _. 0x20);
  screen_y = update (λ _. 24) 0 23;
}
scroll_screen_lem_example = scroll_screen_lem (cursor_at 5 24)

terminal_write-position_example :
    let (r, ret) = terminal_write console (some text) 3 in
    InBounds r
    × (position r ≡ positions (take (write_rounds 3) text) (position console))
    × (ret ≡ write_rounds 3)
terminal_write-position_example =
    terminal_write-position console text 3 text-NoReturn console-InBounds

write_char-return_leaves_example :
    (y_of (write_char (cursor_at 5 24) b'\r') ≡ 25)
    × (¬ InBounds (write_char (cursor_at 5 24) b'\r'))
write_char-return_leaves_example = write_char-return_leaves (cursor_at 5 24) refl (omega arith)

placed :
    (t : ℕ)
    → t < 3
    → (console.video_mem t ≡ (if t == 0 then video else backup_mem_addr t))
      × (console.pt1 t ≡ (if t == 0 then user_vid_mem_entry else vid_mem_backup t))
placed zero h = (refl, refl)
placed (suc zero) h = (refl, refl)
placed (suc (suc zero)) h = (refl, refl)
placed (suc (suc (suc t))) h = absurd (omega arith)

console-WellPlaced : WellPlaced console
console-WellPlaced = (omega arith, placed)

terminal_switch_lem_example :
    let r = terminal_switch console 2 in
    WellPlaced r
    × (r.terminal_num ≡ 2)
    × ((t o : ℕ)
        → t < 3
        → o < 4096
        → r.mem (r.video_mem t + o) ≡ (
            if t == 2 && o % 2 == 1 && ltb o 4000
            then screen_color 2
            else console.mem (console.video_mem t + o)))
terminal_switch_lem_example = terminal_switch_lem console 2 (omega arith) console-WellPlaced

memcpy_lem_example :
    memcpy (λ a. a % 256) 0xB8001 0xB9000 10 ≡ copied (λ a. a % 256) 0xB8001 0xB9000 10
memcpy_lem_example = memcpy_lem (λ a. a % 256) 0xB8001 0xB9000 10 (inr (omega arith))
