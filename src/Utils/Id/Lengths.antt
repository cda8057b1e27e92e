-- ===== src/Utils/Id/Lengths.antt =====
-- How long an id with the time is.
use text.Mathlib.TextLemmas
use avalanche_ops.Utils.Id.{shorten, with_time, get, string, DateTime, ok}
use avalanche_ops.Prelude.{
  [], ℕ, String, ◌≡◌, ◌≤◌, Bool-cases, ◌+◌, ltb, inl, inr, arith, ◌∷◌, Char, false, eq_iff,
}
use avalanche_ops.Outcome.{ok, >>=-eq-ok, ◌>>=◌}
use avalanche_ops.Text.{byte_length, format, is_empty}
use avalanche_ops.Text.Lengths.{byte_length-truncate, byte_length-append}
use Prim.Native.String.{[]}

shorten-le : {E : Type 0} (n : ℕ) (d t : String) → shorten {E = E} n d ≡ ok t → byte_length t ≤ n
unfolding shorten
shorten-le n d t h = elim (Bool-cases (ltb n (byte_length d))) [
  | inl long ↦ byte_length-truncate n d t (rw long at h)
  | inr short ↦ let e : d ≡ t = (let g = rw short at h in cc) in rw (← e) (ground arith)
]

with_time_parts :
    {E : Type 0} (now : DateTime) (encoded pfx id : String)
    → with_time {E = E} now encoded pfx ≡ ok id
    → (time : String) × (random : String) × (get {E = E} now 6 ≡ ok time)
      × (string {E = E} encoded 6 ≡ ok random)
      × (format (pfx ∷ "-" ∷ time ∷ "-" ∷ random ∷ []) ≡ id)
unfolding with_time
with_time_parts now encoded pfx id h =
    let (time, t, h1) =
      >>=-eq-ok (get now 6)
        (λ time. string encoded 6 >>= λ random. ok (format (pfx ∷ "-" ∷ time ∷ "-" ∷ random ∷ [])))
        h in
    let (random, r, h2) =
      >>=-eq-ok (string encoded 6) (λ random. ok (format (pfx ∷ "-" ∷ time ∷ "-" ∷ random ∷ [])))
        h1 in
    (time, random, t, r, cc)

-- An id with the time has at most 14 bytes more than its prefix.
pub with_time-le :
    {E : Type 0} (now : DateTime) (encoded pfx id : String)
    → with_time {E = E} now encoded pfx ≡ ok id
    → byte_length id ≤ byte_length pfx + 14
unfolding get string byte_length
with_time-le now encoded pfx id h =
    let (time, random, t, r, e) = with_time_parts now encoded pfx id h in
    let a = shorten-le 6 _ time t in
    let b = shorten-le 6 encoded random r in
    rw
      (
        ← e,
        byte_length-append pfx,
        byte_length-append "-",
        byte_length-append time,
        byte_length-append "-",
      )
      (omega arith)

is_empty-cons : (c : Char) (s : String) → is_empty (String.◌∷◌ c s) ≡ false
is_empty-cons c s = elim (Bool-cases (is_empty (String.◌∷◌ c s))) [
  | inl e ↦ cc ((eq_iff (String.◌∷◌ c s) "").0 e)
  | inr e ↦ e
]

-- An id with the time is not empty if its prefix is not.
pub is_empty-with_time :
    {E : Type 0} (now : DateTime) (encoded : String) (c : Char) (pfx id : String)
    → with_time {E = E} now encoded (String.◌∷◌ c pfx) ≡ ok id
    → is_empty id ≡ false
is_empty-with_time now encoded c pfx id h =
    let (time, random, t, r, e) = with_time_parts now encoded (String.◌∷◌ c pfx) id h in
    rw (← e, TextLemmas.cons-append) (is_empty-cons c _)
