-- ===== src/Outcome.antt =====
-- The result of a Rust function that may return an error or panic.
use avalanche_ops.Prelude.{
  String, refl, Bool, true, false, Option, none, some, ◌≡◌, ◌≢◌, ◌⊎◌, inl, inr, ◌↔◌,
}

pub data Outcome {ℓ} (E : Type 0) (A : Type ℓ) : Type ℓ where
  ok : A → Outcome E A
  err : E → Outcome E A
  -- `panic!`, a failed `unwrap`, `expect` or `assert_eq!`, an index out of bounds
  panic : Outcome E A

-- A call of a library that returns a value, or an error with its text.
pub data Attempt {ℓ} (A : Type ℓ) : Type ℓ where
  done : A → Attempt A
  failed : String → Attempt A

infixl 5 ◌>>=◌ ◌>>◌
abbrev pub ◌>>=◌ {ℓ κ} :
    {E : Type 0} {A : Type ℓ} {B : Type κ} → Outcome E A → (A → Outcome E B) → Outcome E B
ok a >>= f = f a
err e >>= f = err e
panic >>= f = panic

abbrev pub ◌>>◌ {ℓ} : {E : Type 0} {B : Type ℓ} → Outcome E (Unit {0}) → Outcome E B → Outcome E B
m >> k = m >>= λ _. k

-- an early `return Err(e)` under a test
abbrev pub refuse_if : {E : Type 0} → Bool → E → Outcome E (Unit {0})
refuse_if true e = err e
refuse_if false e = ok tt

-- an `assert!`, or what panics when the test fails
abbrev pub assert : {E : Type 0} → Bool → Outcome E (Unit {0})
assert true = ok tt
assert false = panic

-- `Option::unwrap` and `Option::expect`
abbrev pub unwrap {ℓ} : {E : Type 0} {A : Type ℓ} → Option A → Outcome E A
unwrap none = panic
unwrap (some a) = ok a

-- `Result::expect`
abbrev pub expect {ℓ} : {E : Type 0} {A : Type ℓ} → Outcome E A → Outcome E A
expect (ok a) = ok a
expect (err e) = panic
expect panic = panic

-- `map_err`
abbrev pub map_err {ℓ} : {E F : Type 0} {A : Type ℓ} → (E → F) → Outcome E A → Outcome F A
map_err f (ok a) = ok a
map_err f (err e) = err (f e)
map_err f panic = panic

-- A library's error under the function that turns it into one of the program's own.
abbrev pub attempt_or {ℓ} : {E : Type 0} {A : Type ℓ} → (String → E) → Attempt A → Outcome E A
attempt_or f (done a) = ok a
attempt_or f (failed e) = err (f e)

pub Outcome-cases {ℓ} :
    {E : Type 0} {A : Type ℓ} (m : Outcome E A)
    → ((a : A) × (m ≡ ok a)) ⊎ ((e : E) × (m ≡ err e)) ⊎ (m ≡ panic)
Outcome-cases (ok a) = inl (a, refl)
Outcome-cases (err e) = inr (inl (e, refl))
Outcome-cases panic = inr (inr refl)

pub Attempt-cases {ℓ} :
    {A : Type ℓ} (m : Attempt A) → ((a : A) × (m ≡ done a)) ⊎ ((e : String) × (m ≡ failed e))
Attempt-cases (done a) = inl (a, refl)
Attempt-cases (failed e) = inr (e, refl)

-- Inversions of a block that returned.
pub >>=-eq-ok {ℓ κ} :
    {E : Type 0} {A : Type ℓ} {B : Type κ} {b : B} (run : Outcome E A) (next : A → Outcome E B)
    → run >>= next ≡ ok b
    → (a : A) × (run ≡ ok a) × (next a ≡ ok b)
>>=-eq-ok panic next returned = cc
>>=-eq-ok (err _) next returned = cc
>>=-eq-ok (ok found) next returned = (found, refl, returned)

-- A step without a value, and what follows it.
pub >>-eq-ok_iff {ℓ} :
    {E : Type 0} {B : Type ℓ} (m : Outcome E (Unit {0})) (k : Outcome E B) (b : B)
    → (m >> k) ≡ ok b ↔ ((m ≡ ok tt) × (k ≡ ok b))
>>-eq-ok_iff (ok u) k b = (λ h. (refl, h), λ h. h.1)
>>-eq-ok_iff (err e) k b = (λ h. cc, λ h. cc (h.0))
>>-eq-ok_iff panic k b = (λ h. cc, λ h. cc (h.0))

pub >>-eq-panic_iff {ℓ} :
    {E : Type 0} {B : Type ℓ} (m : Outcome E (Unit {0})) (k : Outcome E B)
    → (m >> k) ≡ panic ↔ ((m ≡ panic) ⊎ ((m ≡ ok tt) × (k ≡ panic)))
>>-eq-panic_iff (ok u) k = (λ h. inr (refl, h), λ h. elim h [ inl e ↦ cc (e) | inr e ↦ e.1 ])
>>-eq-panic_iff (err e) k = (λ h. cc, λ h. elim h [ inl e ↦ cc (e) | inr e ↦ cc (e.0) ])
>>-eq-panic_iff panic k = (λ h. inl refl, λ h. refl)

pub refuse_if-eq-ok {ℓ} :
    {E : Type 0} {B : Type ℓ} (t : Bool) (e : E) (m : Outcome E B) {b : B}
    → (refuse_if t e >> m) ≡ ok b
    → (t ≡ false) × (m ≡ ok b)
refuse_if-eq-ok true e m h = cc
refuse_if-eq-ok false e m h = (refl, h)

-- A block that does not panic.
pub >>=-ne-panic {ℓ κ} :
    {E : Type 0} {A : Type ℓ} {B : Type κ} (m : Outcome E A) (f : A → Outcome E B)
    → m ≢ panic
    → ((a : A) → f a ≢ panic)
    → (m >>= f) ≢ panic
>>=-ne-panic (ok a) f h k e = k a e
>>=-ne-panic (err x) f h k e = cc
>>=-ne-panic panic f h k e = h refl

pub refuse_if-ne-panic {ℓ} :
    {E : Type 0} {B : Type ℓ} (t : Bool) (e : E) (m : Outcome E B)
    → m ≢ panic
    → (refuse_if t e >> m) ≢ panic
refuse_if-ne-panic true e m h k = cc
refuse_if-ne-panic false e m h k = h k

-- what a library gave, from what was made of it
pub unwrap-eq :
    {F : Type 0} {A : Type 0} (o : Option A) {a : A} → unwrap {E = F} o ≡ ok a → o ≡ some a
unwrap-eq none h = cc
unwrap-eq (some b) h = cc

pub attempt_or-eq {ℓ} :
    {E : Type 0} {A : Type ℓ} (f : String → E) (found : Attempt A) {a : A}
    → attempt_or f found ≡ ok a
    → found ≡ done a
attempt_or-eq f (done b) h = cc
attempt_or-eq f (failed e) h = cc
