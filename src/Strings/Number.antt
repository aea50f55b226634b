-- ===== src/Strings/Number.antt =====
-- itoa prints numbers that read back.
use native.Mathlib.Nat.{pow-suc, mod-lt, div-add-mod', div-lt_iff_lt-mul}
use lime_os.Prelude.{
  ℕ, zero, suc, ◌+◌, ◌-◌, ◌*◌, ◌/◌, ◌%◌, ◌^◌, ◌<◌, ◌≤◌, ◌≡◌, refl, ap, ◌∙◌, List, [], ◌∷◌, ◌++◌,
  reverse, reverse-append, ltb, ◌==◌, if◌then◌else◌, arith, Bool-cases, inl, inr,
}
use lime_os.Strings.{lookup_digit, digits_from, itoa}
use lime_os.Strings.Reverse.{strrev-reverse}

-- The digit that a character stands for.
unfoldable pub digit_of : ℕ → ℕ
digit_of c = if ltb c b'A' then c - b'0' else c - b'A' + 10

digit_of-lookup_digit : (i : ℕ) → i < 36 → digit_of (lookup_digit i) ≡ i
unfolding digit_of lookup_digit
digit_of-lookup_digit i h = ground arith

-- The number that a string of digits stands for, highest place first.
unfoldable pub value_of : ℕ → ℕ → List ℕ → ℕ
value_of radix acc [] = acc
value_of radix acc (c ∷ s) = value_of radix (acc * radix + digit_of c) s

value_of-snoc :
    (radix acc : ℕ) (s : List ℕ) (c : ℕ)
    → value_of radix acc (s ++ c ∷ []) ≡ value_of radix acc s * radix + digit_of c
unfolding value_of
value_of-snoc radix acc [] c = refl
value_of-snoc radix acc (d ∷ s) c = value_of-snoc radix (acc * radix + digit_of d) s c

-- The same, lowest place first.
low_value : ℕ → List ℕ → ℕ
low_value radix [] = 0
low_value radix (c ∷ s) = low_value radix s * radix + digit_of c

value_of-reverse : (radix : ℕ) (s : List ℕ) → value_of radix 0 (reverse s) ≡ low_value radix s
unfolding low_value value_of
value_of-reverse radix [] = refl
value_of-reverse radix (c ∷ s) =
    ap (value_of radix 0) (reverse-append (c ∷ []) s)
    ∙ value_of-snoc radix 0 (reverse s) c
    ∙ ap (λ v. v * radix + digit_of c) (value_of-reverse radix s)

div-lt : (v radix p : ℕ) → 2 ≤ radix → v < 2 * p → v / radix < p
div-lt v radix p h hv = (div-lt_iff_lt-mul (omega arith)).1 (grind arith)

mod-below : (v radix : ℕ) → 2 ≤ radix → radix ≤ 36 → v % radix < 36
mod-below v radix hr hm = let below : v % radix < radix = mod-lt v (omega arith) in omega arith

low_value-digits_from :
    (f radix v : ℕ)
    → 2 ≤ radix
    → radix ≤ 36
    → v < 2 ^ f
    → low_value radix (digits_from f radix v) ≡ v
unfolding low_value digits_from
low_value-digits_from zero radix v hr hm hv = omega arith
low_value-digits_from (suc f) radix v hr hm hv = elim (Bool-cases (v == 0)) [
  | inl none ↦ rw none (ground arith)
  | inr more ↦ rw more (
      let ih =
        low_value-digits_from f radix (v / radix) hr hm
          (div-lt v radix (2 ^ f) hr (omega (arith, pow-suc 2 f))) in
      let digit = digit_of-lookup_digit (v % radix) (mod-below v radix hr hm) in
      rw (ih, digit) (div-add-mod' v radix))
]

-- What itoa prints of a word, in any radix from 2 to 36, reads back as the word.
pub itoa-value_of :
    (value radix : ℕ)
    → value < 4294967296
    → 2 ≤ radix
    → radix ≤ 36
    → value_of radix 0 (itoa value radix) ≡ value
unfolding itoa
itoa-value_of value radix hv hr hm = elim (Bool-cases (value == 0)) [
  | inl none ↦ rw none (unfold value_of digit_of in ground arith)
  | inr more ↦ rw more (
      ap (value_of radix 0) (strrev-reverse (digits_from 33 radix value))
      ∙ value_of-reverse radix (digits_from 33 radix value)
      ∙ low_value-digits_from 33 radix value hr hm (omega arith))
]
