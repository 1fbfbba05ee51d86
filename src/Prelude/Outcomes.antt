-- ===== src/Prelude/Outcomes.antt =====
-- What a Rust call can do: return, return an `Err`, or panic. Slices and indices are the checked
-- accesses `&xs[a..b]` and `xs[i]`, which panic out of range.
use Prim.Native.Nat.{ℕ, ◌+◌, ◌-◌, ◌≤◌}
use mathlib.Core.Path.{◌≡◌, refl, ◌∙◌}
use mathlib.Core.Logic.{◌≢◌, ◌⊎◌, inl, inr}
use mathlib.Core.Bool.{◌&&◌}
use mathlib.Core.Option.{Option, none, some}
use mathlib.Core.List.{List, ◌++◌}
use native.Mathlib.Omega.{arith}
use aion_utils.Prelude.Tests.{leb, le→leb, if◌then◌else◌}
use aion_utils.Prelude.Lists.{
  length, length-append, get_elem?, take, drop, drop-length_append, take-length_append,
}

pub data Outcome {ℓ} (E : Type ℓ) (A : Type ℓ) : Type ℓ where
  ok : A → Outcome E A
  err : E → Outcome E A
  panic : Outcome E A

infixl 5 ◌>>=◌
-- A call with no error value, which returns or panics.
abbrev pub Run : Type 0 → Type 0
Run A = Outcome (Unit {0}) A

abbrev pub ◌>>=◌ {ℓ} : {E A B : Type ℓ} → Outcome E A → (A → Outcome E B) → Outcome E B
ok a >>= f = f a
err e >>= f = err e
panic >>= f = panic

-- `Result::map`, which a panic passes through.
abbrev pub map_ok {ℓ} : {E A B : Type ℓ} → (A → B) → Outcome E A → Outcome E B
map_ok f (ok a) = ok (f a)
map_ok f (err e) = err e
map_ok f panic = panic

-- A call with no error value, in a function that has one.
abbrev pub lift_run : {E A : Type 0} → Run A → Outcome E A
lift_run (ok a) = ok a
lift_run (err e) = panic
lift_run panic = panic

-- `Option::or`
abbrev pub or_else {ℓ} : {A : Type ℓ} → Option A → Option A → Option A
or_else none o = o
or_else (some a) o = some a

-- `Result::unwrap`, a panic on an `Err`.
abbrev pub unwrap {ℓ} : {E A : Type ℓ} → Outcome E A → Outcome E A
unwrap (ok a) = ok a
unwrap (err e) = panic
unwrap panic = panic

-- An access that panics where the value is absent.
abbrev pub expect {ℓ} : {E A : Type ℓ} → Option A → Outcome E A
expect none = panic
expect (some a) = ok a

-- The elements from index `a` up to index `b`, which is not among them.
abbrev pub between {ℓ} : {A : Type ℓ} → List A → ℕ → ℕ → List A
between xs a b = take (b - a) (drop a xs)

-- `&xs[a..b]`
abbrev pub slice {ℓ} : {E A : Type ℓ} → List A → ℕ → ℕ → Outcome E (List A)
slice xs a b = if leb a b && leb b (length xs) then ok (between xs a b) else panic

-- `xs[i]`
abbrev pub index {ℓ} : {E A : Type ℓ} → List A → ℕ → Outcome E A
index xs i = expect (get_elem? xs i)

pub slice-ok {ℓ} :
    {E A : Type ℓ} (xs : List A) (a b : ℕ)
    → a ≤ b
    → b ≤ length xs
    → slice {E = E} xs a b ≡ ok (between xs a b)
slice-ok xs a b h k = rw (le→leb a b h, le→leb b (length xs) k)

module _ {ℓ} {E A B : Type ℓ} where
  pub bind_cong :
      (m : Outcome E A) {f g : A → Outcome E B} → ((a : A) → f a ≡ g a) → (m >>= f) ≡ (m >>= g)
  bind_cong (ok a) h = h a
  bind_cong (err e) h = refl
  bind_cong panic h = refl

  -- Inversion of a bind that succeeds.
  pub bind-eq-ok :
      (m : Outcome E A) (f : A → Outcome E B) {b : B}
      → (m >>= f) ≡ ok b
      → (a : A) × (m ≡ ok a) × (f a ≡ ok b)
  bind-eq-ok (ok a) f h = (a, refl, h)
  bind-eq-ok (err e) f h = cc
  bind-eq-ok panic f h = cc

  pub map_ok-eq-ok :
      (f : A → B) (m : Outcome E A) {b : B} → map_ok f m ≡ ok b → (a : A) × (m ≡ ok a) × (f a ≡ b)
  map_ok-eq-ok f (ok a) h = (a, refl, cc)
  map_ok-eq-ok f (err e) h = cc
  map_ok-eq-ok f panic h = cc

pub bind_assoc {ℓ} :
    {E A B C : Type ℓ} (m : Outcome E A) (f : A → Outcome E B) (g : B → Outcome E C)
    → ((m >>= f) >>= g) ≡ (m >>= λ a. f a >>= g)
bind_assoc (ok a) f g = refl
bind_assoc (err e) f g = refl
bind_assoc panic f g = refl

pub bind-map_ok {ℓ} :
    {E A B C : Type ℓ} (f : A → B) (m : Outcome E A) (g : B → Outcome E C)
    → (map_ok f m >>= g) ≡ (m >>= λ a. g (f a))
bind-map_ok f (ok a) g = refl
bind-map_ok f (err e) g = refl
bind-map_ok f panic g = refl

pub bind_ok {ℓ} : {E A : Type ℓ} (m : Outcome E A) → (m >>= λ a. ok a) ≡ m
bind_ok (ok a) = refl
bind_ok (err e) = refl
bind_ok panic = refl

-- A slice between two positions of which the list's parts are known.
pub slice-middle {ℓ} :
    {E A : Type ℓ} (front mid rest : List A) (a b : ℕ)
    → a ≡ length front
    → b ≡ length front + length mid
    → slice {E = E} (front ++ (mid ++ rest)) a b ≡ ok mid
slice-middle {E} front mid rest a b ea eb =
    let outer = length-append front (mid ++ rest) in
    let inner = length-append mid rest in
    let size : length front + length mid - length front ≡ length mid = omega arith in
    rw (ea, eb)
      (slice-ok {E = E} (front ++ (mid ++ rest)) (length front) (length front + length mid)
          (omega arith) (omega arith)
        ∙ rw (size, drop-length_append front (mid ++ rest), take-length_append mid rest) refl)

-- A chain panics only where a step does.
pub bind-ne-panic {ℓ} :
    {E A B : Type ℓ} (m : Outcome E A) (f : A → Outcome E B)
    → m ≢ panic
    → ((a : A) → m ≡ ok a → f a ≢ panic)
    → (m >>= f) ≢ panic
bind-ne-panic (ok a) f h k = k a refl
bind-ne-panic (err e) f h k = λ p. cc
bind-ne-panic panic f h k = λ p. h refl

pub Outcome-cases {ℓ} :
    {E A : Type ℓ} (m : Outcome E A) → m ≢ panic → ((a : A) × (m ≡ ok a)) ⊎ ((e : E) × (m ≡ err e))
Outcome-cases (ok a) h = inl (a, refl)
Outcome-cases (err e) h = inr (e, refl)
Outcome-cases panic h = absurd (h refl)
