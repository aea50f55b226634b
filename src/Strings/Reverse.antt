-- ===== src/Strings/Reverse.antt =====
-- strrev reverses a string in place.
use lime_os.Prelude.{
  ℕ, zero, suc, ◌+◌, ◌-◌, ◌<◌, ◌≤◌, ◌≡◌, refl, ap, ap₂, ◌∙◌, sym, ◌&&◌, ◌||◌, true, List, [], ◌∷◌,
  ◌++◌, reverse, reverse-append, length, length-append, length-set, get_or, set, ltb, ◌==◌,
  if◌then◌else◌, arith, Bool-cases, inl, inr,
}
use lime_os.Strings.{reverse_from, strrev}

get_or-set :
    (l : List ℕ) (i j v : ℕ)
    → get_or (set l i v) j 0 ≡ (if i == j && ltb j (length l) then v else get_or l j 0)
get_or-set [] i j v = ground arith
get_or-set (x ∷ l) zero zero v = ground arith
get_or-set (x ∷ l) zero (suc j) v = ground arith
get_or-set (x ∷ l) (suc i) zero v = ground arith
get_or-set (x ∷ l) (suc i) (suc j) v = get_or-set l i j v ∙ ground arith

list-ext :
    (l r : List ℕ)
    → length l ≡ length r
    → ((j : ℕ) → j < length r → get_or l j 0 ≡ get_or r j 0)
    → l ≡ r
list-ext [] [] h e = refl
list-ext [] (y ∷ r) h e = absurd (omega arith)
list-ext (x ∷ l) [] h e = absurd (omega arith)
list-ext (x ∷ l) (y ∷ r) h e =
    ap₂ ◌∷◌ (e 0 (omega arith)) (list-ext l r (omega arith) (λ j hj. e (suc j) (omega arith)))

get_or-snoc :
    (l : List ℕ) (x j : ℕ)
    → j ≤ length l
    → get_or (l ++ x ∷ []) j 0 ≡ (if j == length l then x else get_or l j 0)
get_or-snoc [] x j h = let e : j ≡ 0 = omega arith in rw e (ground arith)
get_or-snoc (y ∷ l) x zero h = ground arith
get_or-snoc (y ∷ l) x (suc j) h = get_or-snoc l x j (omega arith) ∙ ground arith

pub length-reverse : (l : List ℕ) → length (reverse l) ≡ length l
length-reverse [] = refl
length-reverse (x ∷ l) =
    ap length (reverse-append (x ∷ []) l)
    ∙ length-append (reverse l) (x ∷ [])
    ∙ omega (arith, length-reverse l)

get_or-reverse :
    (l : List ℕ) (j : ℕ) → j < length l → get_or (reverse l) j 0 ≡ get_or l (length l - 1 - j) 0
get_or-reverse [] j h = absurd (omega arith)
get_or-reverse (x ∷ l) j h =
    ap (λ r. get_or r j 0) (reverse-append (x ∷ []) l)
    ∙ get_or-snoc (reverse l) x j (omega (arith, length-reverse l))
    ∙ last (λ lt. get_or-reverse l j lt)
  where
    last :
        (j < length l → get_or (reverse l) j 0 ≡ get_or l (length l - 1 - j) 0)
        → (if j == length (reverse l) then x else get_or (reverse l) j 0)
          ≡ get_or (x ∷ l) (length (x ∷ l) - 1 - j) 0
    last ih = elim (Bool-cases (j == length (reverse l))) [
      | inl e ↦
          let first : length (x ∷ l) - 1 - j ≡ 0 = ground (arith, length-reverse l) in rw (e, first)
      | inr e ↦
          let inner : length (x ∷ l) - 1 - j ≡ suc (length l - 1 - j) =
            ground (arith, length-reverse l) in
          rw (e, inner) (ih (ground (arith, length-reverse l)))
    ]

-- In the middle of the loop the bytes outside `beg` to `end` are swapped.
abbrev IsMirrored : List ℕ → List ℕ → ℕ → ℕ → Type 0
IsMirrored s t beg end =
    (length t ≡ length s)
    × ((j : ℕ)
        → j < length s
        → get_or t j 0 ≡ get_or s (if ltb j beg || ltb end j then length s - 1 - j else j) 0)

swap :
    (s t : List ℕ) (beg end : ℕ)
    → beg + end + 1 ≡ length s
    → beg < end
    → IsMirrored s t beg end
    → IsMirrored s (set (set t end (get_or t beg 0)) beg (get_or t end 0)) (beg + 1) (end - 1)
swap s t beg end hs lt (hl, hj) = (
  length-set (set t end (get_or t beg 0)) beg (get_or t end 0)
      ∙ length-set t end (get_or t beg 0)
      ∙ hl,
  λ j h. ground (
    arith,
    get_or-set (set t end (get_or t beg 0)) beg j (get_or t end 0),
    get_or-set t end j (get_or t beg 0),
    length-set t end (get_or t beg 0),
    hj j h,
    hj beg,
    hj end,
  ),
)

reverse_from-IsMirrored :
    (s : List ℕ) (f beg end : ℕ) (t : List ℕ)
    → beg + end + 1 ≡ length s
    → end < beg + f
    → IsMirrored s t beg end
    → (length (reverse_from f beg end t) ≡ length s)
      × ((j : ℕ)
          → j < length s
          → get_or (reverse_from f beg end t) j 0 ≡ get_or s (length s - 1 - j) 0)
unfolding reverse_from
reverse_from-IsMirrored s zero beg end t hs hf (hl, hj) =
    (hl, λ j h. hj j h ∙ ap (λ k. get_or s k 0) (ground arith))
reverse_from-IsMirrored s (suc f) beg end t hs hf (hl, hj) = elim (Bool-cases (ltb beg end)) [
  | inl more ↦ rw more (
      reverse_from-IsMirrored s f (beg + 1) (end - 1) _ (ground arith) (omega arith)
        (swap s t beg end hs (ground arith) (hl, hj)))
  | inr done ↦ rw done (hl, λ j h. hj j h ∙ ap (λ k. get_or s k 0) (ground arith))
]

-- strrev leaves the bytes of the string in the opposite order.
pub strrev-reverse : (s : List ℕ) → strrev s ≡ reverse s
unfolding strrev
strrev-reverse s = elim (Bool-cases (length s == 0)) [
  | inl empty ↦
      rw empty (list-ext s (reverse s) (sym (length-reverse s)) (λ j h. absurd (never j h empty)))
  | inr more ↦
      let (hl, hj) =
        reverse_from-IsMirrored s (length s) 0 (length s - 1) s (ground arith) (ground arith)
          (refl, λ j h. ap (λ k. get_or s k 0) (ground arith)) in
      rw more (
        list-ext _ (reverse s) (hl ∙ sym (length-reverse s))
          (λ j h. hj j (below j h) ∙ sym (get_or-reverse s j (below j h))))
]
  where
    below : (j : ℕ) → j < length (reverse s) → j < length s
    below j h = omega (arith, length-reverse s)

    never : (j : ℕ) → j < length (reverse s) → (length s == 0) ≡ true → ⊥
    never j h e = ground (arith, length-reverse s)
