-- ===== src/User/Logic.antt =====
-- What a part of a user program ensures, and how such facts are put together.
use lime_os.Prelude.{◌≡◌, refl, ap, ◌∙◌}
use lime_os.Process.{Kernel}
use lime_os.User.{done, User, pure, continue_with, ◌>>=◌}

-- From every kernel with `P`, `p` ends with a value, and the value and the kernel then have `Q`.
abbrev pub Ensures : {A : Type 0} → (Kernel → Type 0) → User A → (A → Kernel → Type 0) → Type 0
Ensures {A} P p Q = (k : Kernel) → P k → (a : A) × (r : Kernel) × (p k ≡ done a r) × Q a r

module _ {A : Type 0} {P : Kernel → Type 0} where
  pub pure-Ensures :
      {Q : A → Kernel → Type 0} (a : A) → ((k : Kernel) → P k → Q a k) → Ensures P (pure a) Q
  pure-Ensures a h k p = (a, k, refl, h k p)

  pub bind-Ensures :
      {B : Type 0} {R : A → Kernel → Type 0} {Q : B → Kernel → Type 0} {p : User A} {f : A → User B}
      → Ensures P p R
      → ((a : A) → Ensures (R a) (f a) Q)
      → Ensures P (p >>= f) Q
  bind-Ensures {f = f} first next k h =
      let (a, r, e, q) = first k h in
      let (b, s, e', q') = next a r q in (b, s, ap (λ t. continue_with t f) e ∙ e', q')
