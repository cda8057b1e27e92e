-- ===== src/Aws/S3.antt =====
-- src/aws/s3.rs: buckets and objects.
-- The SDK's client is a parameter: functions from requests to answers.
pub mod Sort
pub mod Listing
pub mod Bucket
mod Tests
use avalanche_ops.Prelude.{
  ℕ, zero, suc, ◌<◌, ◌≡◌, String, Bool, true, false, not, ◌&&◌, Option, none, some, List, [], ◌∷◌,
  ◌++◌, map, length, leb, ltb, ◌==◌, is_none, unwrap_or, if◌then◌else◌,
}
use avalanche_ops.Outcome.{Outcome, ok, err, panic, ◌>>=◌}
use avalanche_ops.Text.{is_empty, contains, format}
use avalanche_ops.Aws.Error.{Error, api}
use avalanche_ops.Aws.Sdk.{
  SdkError, service_error, Answer, success, failure, is_error_retryable, api_failure,
}

-- The service errors that the source tells apart.
pub data ErrorKind : Type 0 where
  bucket_already_exists bucket_already_owned_by_you unhandled : ErrorKind

-- An object of the SDK; `last_modified` in nanoseconds.
pub record Object : Type 0 where
  pub key : Option String
  pub last_modified : Option ℕ

-- A response of `list_objects_v2`.
pub record Page : Type 0 where
  pub key_count : ℕ
  pub contents : Option (List Object)
  pub next_continuation_token : Option String

abbrev pub modified : Object → ℕ
modified o = unwrap_or o.last_modified 0

-- `sort_by` with the reversed comparison of `last_modified`. The standard library's sort is stable, so
-- an insertion sort that puts an item before those not newer gives the same list.
unfoldable pub insert_newest : Object → List Object → List Object
insert_newest o [] = o ∷ []
insert_newest o (p ∷ ps) =
    if leb (modified p) (modified o) then o ∷ p ∷ ps else p ∷ insert_newest o ps

unfoldable pub sort_newest : List Object → List Object
unfolding insert_newest
sort_newest [] = []
sort_newest (o ∷ os) = insert_newest o (sort_newest os)

unfoldable pub any_untimed : List Object → Bool
any_untimed [] = false
any_untimed (o ∷ os) = if is_none o.last_modified then true else any_untimed os

-- The end of `list_objects`: more than one object is sorted, and each comparison unwraps the times.
unfoldable pub finish_listing : List Object → Outcome Error (List Object)
unfolding any_untimed
finish_listing objects =
    if ltb 1 (length objects)
    then if any_untimed objects then panic else ok (sort_newest objects)
    else ok objects

-- The loop over the objects of a page, which refuses an empty key.
unfoldable pub push_objects : List Object → List Object → Outcome Error (List Object)
push_objects objects [] = ok objects
push_objects objects (o ∷ os) =
    let rest = push_objects (objects ++ o ∷ []) os in
    if is_empty (unwrap_or o.key "") then err (api "empty key returned" false) else rest

-- An empty prefix counts as none, an empty token too.
abbrev pub non_empty : Option String → Option String
non_empty none = none
non_empty (some s) = if is_empty s then none else some s

module _ (list_v2 : Option String → Option String → Answer ErrorKind Page) where
  -- What a round does with its page, given the rounds after it.
  abbrev pub on_contents :
      (String → List Object → Option (Outcome Error (List Object)))
      → List Object
      → Option String
      → Outcome Error (List Object)
      → Option (Outcome Error (List Object))
  on_contents next objects token (ok pushed) =
      let t = unwrap_or token "" in
      let rest = next t pushed in if is_empty t then some (finish_listing pushed) else rest
  on_contents next objects token (err e) = some (err e)
  on_contents next objects token panic = some panic

  abbrev pub on_page :
      (String → List Object → Option (Outcome Error (List Object)))
      → List Object
      → ℕ
      → Option (List Object)
      → Option String
      → Option (Outcome Error (List Object))
  on_page next objects zero contents token = some (finish_listing objects)
  on_page next objects (suc n) none token = some (finish_listing objects)
  on_page next objects (suc n) (some contents) token =
      on_contents next objects token (push_objects objects contents)

  abbrev pub on_answer :
      (String → List Object → Option (Outcome Error (List Object)))
      → List Object
      → Answer ErrorKind Page
      → Option (Outcome Error (List Object))
  on_answer next objects (success page) =
      on_page next objects page.key_count page.contents page.next_continuation_token
  on_answer next objects (failure e debug) =
      some (api_failure "failed list_objects_v2" debug (is_error_retryable e))

  -- The loop of `list_objects` from a token on; `none` is out of fuel.
  pub list_from : ℕ → Option String → String → List Object → Option (Outcome Error (List Object))
  list_from zero prefix token objects = none
  list_from (suc fuel) prefix token objects =
      on_answer (λ t os. list_from fuel prefix t os) objects
        (list_v2 prefix (non_empty (some token)))

  -- `Manager::list_objects`
  pub list_objects : ℕ → Option String → Option (Outcome Error (List Object))
  unfolding list_from finish_listing push_objects
  list_objects fuel prefix = list_from fuel (non_empty prefix) "" []

abbrev object_ids : List Object → List String
object_ids = map (λ o. unwrap_or o.key "")

after_delete : Answer ErrorKind (Unit {0}) → Outcome Error (Unit {0})
after_delete (success _) = ok tt
after_delete (failure e debug) = api_failure "failed delete_bucket" debug (is_error_retryable e)

-- `Manager::delete_objects`, from the listing: the result, and the requests to delete.
unfoldable pub delete_objects :
    (List String → Answer ErrorKind (Unit {0}))
    → Outcome Error (List Object)
    → Outcome Error (Unit {0}) × List (List String)
unfolding after_delete
delete_objects delete (ok objects) =
    if ltb 0 (length (object_ids objects))
    then (after_delete (delete (object_ids objects)), object_ids objects ∷ [])
    else (ok tt, [])
delete_objects delete (err e) = (err e, [])
delete_objects delete panic = (panic, [])
