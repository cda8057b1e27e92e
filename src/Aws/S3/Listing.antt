-- ===== src/Aws/S3/Listing.antt =====
-- Listing follows the continuation tokens to the last page, and returns every object, newest first.
use mathlib.Core.List.{Perm}
use mathlib.Core.List.Perm
use avalanche_ops.Prelude.{
  zero, String, suc, All, ◌≡◌, ◌++◌, ◌+◌, ◌≤◌, ap, arith, [], append-nil, sym, refl, ◌∙◌,
  append_assoc,
}
use avalanche_ops.Aws.S3.{
  Object, Page, ErrorKind, push_objects, finish_listing, list_from, list_objects, non_empty,
  any_untimed, List, Option, is_empty, is_none, Answer, unwrap_or, ℕ, false, ok, some, success, ◌∷◌,
  [], ltb, length, none, true, sort_newest, on_page,
}
use avalanche_ops.Aws.S3.Sort.{
  IsNewestFirst, at_time, sort_newest-IsNewestFirst, sort_newest-perm, sort_newest-at_time,
}
use avalanche_ops.Text.{is_empty}
use avalanche_ops.Aws.Sdk.{Answer, success}
use avalanche_ops.Outcome.{ok}

abbrev pub HasKey : Object → Type 0
HasKey o = is_empty (unwrap_or o.key "") ≡ false

abbrev pub HasTime : Object → Type 0
HasTime o = is_none o.last_modified ≡ false

-- The pages that the service answers with from a token on, and the objects that they hold: a page with
-- no keys or no contents ends the listing, and so does an empty token.
pub data Pages (list_v2 : Option String → Option String → Answer ErrorKind Page)
    (prefix : Option String) : String → List Object → Type 0 where
  no_keys :
      {token : String} (page : Page)
      → list_v2 prefix (non_empty (some token)) ≡ success page
      → page.key_count ≡ 0
      → Pages list_v2 prefix token []
  no_contents :
      {token : String} (page : Page)
      → list_v2 prefix (non_empty (some token)) ≡ success page
      → page.contents ≡ none
      → Pages list_v2 prefix token []
  last :
      {token : String} (page : Page) (n : ℕ) (os : List Object)
      → list_v2 prefix (non_empty (some token)) ≡ success page
      → page.key_count ≡ suc n
      → page.contents ≡ some os
      → is_empty (unwrap_or page.next_continuation_token "") ≡ true
      → Pages list_v2 prefix token os
  more :
      {token : String} (page : Page) (n : ℕ) (os rest : List Object)
      → list_v2 prefix (non_empty (some token)) ≡ success page
      → page.key_count ≡ suc n
      → page.contents ≡ some os
      → is_empty (unwrap_or page.next_continuation_token "") ≡ false
      → Pages list_v2 prefix (unwrap_or page.next_continuation_token "") rest
      → Pages list_v2 prefix token (os ++ rest)

unfoldable pub count_pages :
    {list_v2 : Option String → Option String → Answer ErrorKind Page} {prefix : Option String}
    {token : String} {objects : List Object}
    → Pages list_v2 prefix token objects
    → ℕ
count_pages (no_keys page a k) = 1
count_pages (no_contents page a k) = 1
count_pages (last page n os a k c t) = 1
count_pages (more page n os rest a k c t p) = count_pages p + 1

push_objects_lem : (acc os : List Object) → All HasKey os → push_objects acc os ≡ ok (acc ++ os)
unfolding push_objects
push_objects_lem acc [] h = ap ok (sym (append-nil acc))
push_objects_lem acc (o ∷ os) (k, h) =
    rw k (push_objects_lem (acc ++ o ∷ []) os h ∙ ap ok (append_assoc acc (o ∷ []) os))

All-append {ℓ} :
    {A : Type ℓ} (P : A → Type 0) (xs ys : List A) → All P (xs ++ ys) → All P xs × All P ys
All-append P [] ys h = (tt, h)
All-append P (x ∷ xs) ys (p, h) = let (a, b) = All-append P xs ys h in ((p, a), b)

any_untimed_lem : (os : List Object) → All HasTime os → any_untimed os ≡ false
unfolding any_untimed
any_untimed_lem [] h = refl
any_untimed_lem (o ∷ os) (t, h) = rw t (any_untimed_lem os h)

-- What a listing of the objects is: all of them, newest first, in the service's order at each time.
pub record IsListing (r objects : List Object) : Type 0 where
  pub newest_first : IsNewestFirst r
  pub same : Perm r objects
  pub stable : (t : ℕ) → at_time t r ≡ at_time t objects

finish_listing_lem :
    (os : List Object)
    → All HasTime os
    → (r : List Object) × (finish_listing os ≡ ok r) × IsListing r os
unfolding finish_listing
finish_listing_lem [] h =
    ([], refl, record { newest_first = tt; same = Perm.refl _; stable = λ t. refl })
finish_listing_lem (o ∷ []) h =
    (o ∷ [], refl, record { newest_first = (tt, tt); same = Perm.refl _; stable = λ t. refl })
finish_listing_lem (o ∷ p ∷ os) h =
    let several : ltb 1 (length (o ∷ p ∷ os)) ≡ true = ground arith in
    (
      sort_newest (o ∷ p ∷ os),
      rw (several, any_untimed_lem (o ∷ p ∷ os) h) refl,
      record {
        newest_first = sort_newest-IsNewestFirst _;
        same = sort_newest-perm _;
        stable = λ t. sort_newest-at_time t _;
      },
    )

module _ (list_v2 : Option String → Option String → Answer ErrorKind Page)
    (prefix : Option String) where
  on_page-none :
      (fuel : ℕ) (acc : List Object) (n : ℕ) (token : Option String)
      → on_page list_v2 (λ t os. list_from list_v2 fuel prefix t os) acc n none token
        ≡ some (finish_listing acc)
  on_page-none fuel acc zero token = refl
  on_page-none fuel acc (suc n) token = refl

  list_from_lem :
      (fuel : ℕ) (acc : List Object) {token : String} {objects : List Object}
      (p : Pages list_v2 prefix token objects)
      → count_pages p ≤ fuel
      → All HasKey objects
      → list_from list_v2 fuel prefix token acc ≡ some (finish_listing (acc ++ objects))
  unfolding list_from count_pages
  list_from_lem zero acc (no_keys page a k) l h = absurd (omega arith)
  list_from_lem zero acc (no_contents page a k) l h = absurd (omega arith)
  list_from_lem zero acc (last page n os a k c t) l h = absurd (omega arith)
  list_from_lem zero acc (more page n os rest a k c t p) l h = absurd (omega arith)
  list_from_lem (suc fuel) acc (no_keys page a k) l h = rw (a, k, append-nil acc) refl
  list_from_lem (suc fuel) acc (no_contents page a c) l h =
      rw (a, c, append-nil acc) (on_page-none fuel acc page.key_count page.next_continuation_token)
  list_from_lem (suc fuel) acc (last page n os a k c t) l h =
      rw (a, k, c, push_objects_lem acc os h, t) refl
  list_from_lem (suc fuel) acc (more page n os rest a k c t p) l h =
      let (h1, h2) = All-append HasKey os rest h in
      rw (a, k, c, push_objects_lem acc os h1, t)
        (list_from_lem fuel (acc ++ os) p (omega arith) h2
          ∙ ap (λ x. some (finish_listing x)) (append_assoc acc os rest))

-- If the pages from the empty token on hold these objects, each with a non-empty key and a time, then
-- with a round for each page the listing returns all of them, newest first, and those of one time
-- in the order of the pages.
pub list_objects_lem :
    (list_v2 : Option String → Option String → Answer ErrorKind Page) (prefix : Option String)
    (fuel : ℕ) (objects : List Object) (p : Pages list_v2 (non_empty prefix) "" objects)
    → count_pages p ≤ fuel
    → All HasKey objects
    → All HasTime objects
    → (r : List Object) × (list_objects list_v2 fuel prefix ≡ some (ok r)) × IsListing r objects
unfolding list_objects
list_objects_lem list_v2 prefix fuel objects p l k t =
    let (r, e, done) = finish_listing_lem objects t in
    (r, list_from_lem list_v2 (non_empty prefix) fuel [] p l k ∙ ap some e, done)
