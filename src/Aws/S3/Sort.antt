-- ===== src/Aws/S3/Sort.antt =====
-- The order of a listing: newest first, and as listed where the times agree.
use mathlib.Core.List.{Perm}
use mathlib.Core.List.Perm
use avalanche_ops.Aws.S3.{Object, modified, insert_newest, sort_newest, List, ℕ, ◌∷◌, ◌≡◌, leb}
use avalanche_ops.Prelude.{
  inr, ◌∷◌, ◌≡◌, ◌≤◌, All, Bool-cases, [], arith, if◌then◌else◌, ◌∙◌, refl, ◌==◌, inl, inr,
}

abbrev pub IsNewestFirst : List Object → Type 0
IsNewestFirst [] = Unit
IsNewestFirst (o ∷ os) = All (λ p. modified p ≤ modified o) os × IsNewestFirst os

-- The objects of one time, in order.
pub at_time : ℕ → List Object → List Object
at_time t [] = []
at_time t (o ∷ os) = if modified o == t then o ∷ at_time t os else at_time t os

insert_newest-All :
    (m : ℕ) (o : Object) (os : List Object)
    → modified o ≤ m
    → All (λ p. modified p ≤ m) os
    → All (λ p. modified p ≤ m) (insert_newest o os)
unfolding insert_newest
insert_newest-All m o [] h a = (h, tt)
insert_newest-All m o (p ∷ ps) h (q, a) = ground (arith, insert_newest-All m o ps h a)

All-older :
    (m n : ℕ) (os : List Object)
    → m ≤ n
    → All (λ p. modified p ≤ m) os
    → All (λ p. modified p ≤ n) os
All-older m n [] h a = tt
All-older m n (p ∷ ps) h (q, a) = (omega arith, All-older m n ps h a)

insert_newest-IsNewestFirst :
    (o : Object) (os : List Object) → IsNewestFirst os → IsNewestFirst (insert_newest o os)
unfolding insert_newest
insert_newest-IsNewestFirst o [] s = (tt, tt)
insert_newest-IsNewestFirst o (p ∷ ps) (a, s) = elim (Bool-cases (leb (modified p) (modified o))) [
  | inl first ↦
      rw first ((ground arith, All-older (modified p) (modified o) ps (ground arith) a), (a, s))
  | inr later ↦
      rw later
        (insert_newest-All (modified p) o ps (ground arith) a, insert_newest-IsNewestFirst o ps s)
]

pub sort_newest-IsNewestFirst : (os : List Object) → IsNewestFirst (sort_newest os)
unfolding sort_newest
sort_newest-IsNewestFirst [] = tt
sort_newest-IsNewestFirst (o ∷ os) =
    insert_newest-IsNewestFirst o (sort_newest os) (sort_newest-IsNewestFirst os)

insert_newest-at_time :
    (t : ℕ) (o : Object) (os : List Object) → at_time t (insert_newest o os) ≡ at_time t (o ∷ os)
unfolding insert_newest at_time
insert_newest-at_time t o [] = refl
insert_newest-at_time t o (p ∷ ps) = ground (arith, insert_newest-at_time t o ps)

pub sort_newest-at_time : (t : ℕ) (os : List Object) → at_time t (sort_newest os) ≡ at_time t os
unfolding sort_newest at_time
sort_newest-at_time t [] = refl
sort_newest-at_time t (o ∷ os) =
    insert_newest-at_time t o (sort_newest os)
    ∙ (unfold at_time in ground (arith, sort_newest-at_time t os))

insert_newest-perm : (o : Object) (os : List Object) → Perm (insert_newest o os) (o ∷ os)
unfolding insert_newest
insert_newest-perm o [] = Perm.refl _
insert_newest-perm o (p ∷ ps) = elim (Bool-cases (leb (modified p) (modified o))) [
  | inl first ↦ rw first (Perm.refl _)
  | inr later ↦ rw later (Perm.trans (Perm.cons p (insert_newest-perm o ps)) (Perm.swap o p ps))
]

pub sort_newest-perm : (os : List Object) → Perm (sort_newest os) os
unfolding sort_newest
sort_newest-perm [] = Perm.refl _
sort_newest-perm (o ∷ os) =
    Perm.trans (insert_newest-perm o (sort_newest os)) (Perm.cons o (sort_newest-perm os))
