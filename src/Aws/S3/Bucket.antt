-- ===== src/Aws/S3/Bucket.antt =====
-- src/aws/s3.rs: creating and deleting a bucket, deleting objects, and directory prefixes.
use mathlib.Core.List.{Perm}
use avalanche_ops.Prelude.{
  [], ◌∷◌, inr, inl, ◌≡◌, code, ◌⊎◌, if◌then◌else◌, arith, ◌==◌, refl, List, Bool, ℕ, true, false,
  map, leb, not, unwrap_or, String, sym, Char, ap, ◌≢◌, ◌∙◌,
}
use avalanche_ops.Aws.S3.{
  bucket_already_owned_by_you, Object, ErrorKind, delete_objects, bucket_already_exists,
}
use avalanche_ops.Aws.S3.Listing.{IsListing}
use avalanche_ops.Aws.Sdk.{
  Answer, SdkError, service_error, success, failure, api_failure, is_error_retryable,
}
use avalanche_ops.Outcome.{Outcome, ok, panic}
use avalanche_ops.Aws.Error.{Error}
use avalanche_ops.Text.{contains, format}
use mathlib.Core.List.Perm
use Prim.Native.String
use text.Mathlib.TextEquality.{Char-path}
use text.Mathlib.TextLemmas

-- The requests that set up a bucket.
pub data BucketRequest : Type 0 where
  create put_public_access_block put_bucket_encryption : BucketRequest

unfoldable pub is_error_bucket_already_exist : SdkError ErrorKind → Bool
is_error_bucket_already_exist (service_error bucket_already_exists debug) = true
is_error_bucket_already_exist (service_error bucket_already_owned_by_you debug) = true
is_error_bucket_already_exist e = false

unfoldable pub is_error_bucket_does_not_exist : SdkError ErrorKind → Bool
is_error_bucket_does_not_exist (service_error e debug) = contains debug "bucket does not exist"
is_error_bucket_does_not_exist e = false

encrypt_bucket : Answer ErrorKind (Unit {0}) → Outcome Error (Unit {0})
encrypt_bucket (success _) = ok tt
encrypt_bucket (failure e debug) =
    api_failure "failed put_bucket_encryption" debug (is_error_retryable e)

secure_bucket :
    Answer ErrorKind (Unit {0})
    → Answer ErrorKind (Unit {0})
    → Outcome Error (Unit {0}) × List BucketRequest
secure_bucket (success _) encrypted =
    (encrypt_bucket encrypted, create ∷ put_public_access_block ∷ put_bucket_encryption ∷ [])
secure_bucket (failure e debug) encrypted = (
  api_failure "failed put_public_access_block" debug (is_error_retryable e),
  create ∷ put_public_access_block ∷ [],
)

-- `Manager::create_bucket`, from the service's answer to each of the three requests: the result, and
-- the requests that were sent.
unfoldable pub create_bucket :
    (created blocked encrypted : Answer ErrorKind (Unit {0}))
    → Outcome Error (Unit {0}) × List BucketRequest
unfolding secure_bucket encrypt_bucket is_error_bucket_already_exist
create_bucket (success _) blocked encrypted = secure_bucket blocked encrypted
create_bucket (failure e debug) blocked encrypted =
    if not (is_error_bucket_already_exist e)
    then (api_failure "failed create_bucket" debug (is_error_retryable e), create ∷ [])
    else (ok tt, create ∷ [])

-- `Manager::delete_bucket`, from the answer to the request
unfoldable pub delete_bucket : Answer ErrorKind (Unit {0}) → Outcome Error (Unit {0})
unfolding is_error_bucket_does_not_exist
delete_bucket (success _) = ok tt
delete_bucket (failure e debug) =
    if not (is_error_bucket_does_not_exist e)
    then api_failure "failed delete_bucket" debug (is_error_retryable e)
    else ok tt

-- If the bucket's creation returns `Ok`, then either the bucket was new and all three requests were
-- accepted, or it existed and nothing but its creation was requested.
pub create_bucket-ok :
    (created blocked encrypted : Answer ErrorKind (Unit {0}))
    → (create_bucket created blocked encrypted).0 ≡ ok tt
    → ((created ≡ success tt)
        × (blocked ≡ success tt)
        × (encrypted ≡ success tt)
        × ((create_bucket created blocked encrypted).1
            ≡ create ∷ put_public_access_block ∷ put_bucket_encryption ∷ []))
      ⊎ ((e : SdkError ErrorKind) × (debug : String) × (created ≡ failure e debug)
          × (is_error_bucket_already_exist e ≡ true)
          × ((create_bucket created blocked encrypted).1 ≡ create ∷ []))
unfolding create_bucket
create_bucket-ok (success a) (success b) (success c) h = inl (refl, refl, refl, refl)
create_bucket-ok (success a) (success b) (failure e debug) h = cc
create_bucket-ok (success a) (failure e debug) encrypted h = cc
create_bucket-ok (failure e debug) blocked encrypted h =
    inr (e, debug, refl, ground arith, ground arith)

-- If the objects that are listed for deletion are deleted with `Ok`, one request named the keys of
-- exactly the listed objects, or there was no object and no request.
pub delete_objects-ok :
    (delete : List String → Answer ErrorKind (Unit {0})) (objects listed : List Object)
    → IsListing listed objects
    → (delete_objects delete (ok listed)).0 ≡ ok tt
    → ((objects ≡ []) × ((delete_objects delete (ok listed)).1 ≡ []))
      ⊎ ((keys : List String) × ((delete_objects delete (ok listed)).1 ≡ keys ∷ [])
          × (delete keys ≡ success tt)
          × Perm keys (map (λ o. unwrap_or o.key "") objects))
unfolding delete_objects
delete_objects-ok delete objects [] l h = inl (sym (Perm.nil-eq l.same), ground arith)
delete_objects-ok delete objects (o ∷ os) l h =
    inr (map (λ p. unwrap_or p.key "") (o ∷ os), ground arith, ground arith, Perm.map _ l.same)

last_code : String → ℕ → ℕ
last_code String.[] c = c
last_code (String.◌∷◌ d s) c = last_code s (code d)

-- `append_slash`: the slice `&k[n - 1..]` panics on an empty string, and inside a character of several
-- bytes.
unfoldable pub append_slash : String → Outcome Error String
unfolding last_code
append_slash String.[] = panic
append_slash (String.◌∷◌ c s) =
    let last = last_code s (code c) in
    if leb 128 last
    then panic
    else if last == b'/'
    then ok (String.◌∷◌ c s)
    else ok (format (String.◌∷◌ c s ∷ "/" ∷ []))

last_code-slash : (s : String) (c : ℕ) → last_code (String.◌++◌ s "/") c ≡ b'/'
unfolding last_code
last_code-slash String.[] c = refl
last_code-slash (String.◌∷◌ d s) c = rw TextLemmas.cons-append (last_code-slash s (code d))

-- a string that is another one and a slash
abbrev pub EndsInSlash : String → Type 0
EndsInSlash s = (t : String) × (s ≡ String.◌++◌ t "/")

EndsInSlash-last_code :
    (s : String) (c : Char) → last_code s (code c) ≡ b'/' → EndsInSlash (String.◌∷◌ c s)
unfolding last_code
EndsInSlash-last_code String.[] c h = let slash : c ≡ "/" = Char-path c "/" h in ("", rw slash refl)
EndsInSlash-last_code (String.◌∷◌ d s) c h =
    let (t, e) = EndsInSlash-last_code s d h in
    (String.◌∷◌ c t, rw TextLemmas.cons-append (ap (λ u. String.◌∷◌ c u) e))

-- the last code of a string, 0 of an empty one
abbrev last_of : String → ℕ
last_of String.[] = 0
last_of (String.◌∷◌ c s) = last_code s (code c)

last_of-slash : (t : String) → last_of (String.◌++◌ t "/") ≡ b'/'
unfolding last_code
last_of-slash String.[] = refl
last_of-slash (String.◌∷◌ c t) = rw TextLemmas.cons-append (last_code-slash t (code c))

last_code-EndsInSlash :
    (c : Char) (s : String) → EndsInSlash (String.◌∷◌ c s) → last_code s (code c) ≡ b'/'
last_code-EndsInSlash c s (t, e) = ap last_of e ∙ last_of-slash t

append_slash_again :
    (c : Char) (s : String)
    → append_slash (format (String.◌∷◌ c s ∷ "/" ∷ [])) ≡ ok (format (String.◌∷◌ c s ∷ "/" ∷ []))
unfolding append_slash
append_slash_again c s = rw (TextLemmas.cons-append, last_code-slash s (code c)) refl

append_slash_cases :
    (c : Char) (s : String)
    → (append_slash (String.◌∷◌ c s) ≡ panic)
      ⊎ ((append_slash (String.◌∷◌ c s) ≡ ok (String.◌∷◌ c s)) × (last_code s (code c) ≡ b'/'))
      ⊎ ((append_slash (String.◌∷◌ c s) ≡ ok (format (String.◌∷◌ c s ∷ "/" ∷ [])))
          × (last_code s (code c) ≢ b'/'))
unfolding append_slash
append_slash_cases c s = ground arith

-- What `append_slash` returns is a string and a slash. It is the argument when that ends in a slash
-- already, and otherwise the argument with a slash added; a second call returns it unchanged.
pub append_slash-ok :
    (k r : String)
    → append_slash k ≡ ok r
    → EndsInSlash r
      × (EndsInSlash k → r ≡ k)
      × (¬ EndsInSlash k → r ≡ String.◌++◌ k "/")
      × (append_slash r ≡ ok r)
append_slash-ok String.[] r h = unfold append_slash in cc h
append_slash-ok (String.◌∷◌ c s) r h = elim (append_slash_cases c s) [
  | inl e ↦ cc (e, h)
  | inr (inl (e, slash)) ↦
      let same : String.◌∷◌ c s ≡ r = cc (e, h) in
      let ends = EndsInSlash-last_code s c slash in
      rw (← same) (ends, λ already. refl, λ bare. absurd (bare ends), e)
  | inr (inr (e, other)) ↦
      let same : String.◌++◌ (String.◌∷◌ c s) "/" ≡ r = cc (e, h) in
      rw (← same) (
        (String.◌∷◌ c s, refl),
        λ already. absurd (other (last_code-EndsInSlash c s already)),
        λ bare. refl,
        append_slash_again c s,
      )
]
