-- ===== src/Aws/S3/Tests.antt =====
-- Listings, deletions and buckets at concrete inputs.
use mathlib.Core.List.{Perm}
use avalanche_ops.Prelude.{
  List, Option, String, none, some, ◌≡◌, [], ℕ, ◌∷◌, refl, ◌++◌, ◌⊎◌, map, unwrap_or, true, arith,
}
use avalanche_ops.Aws.S3.{
  Object, Page, ErrorKind, list_objects, delete_objects, sort_newest, bucket_already_owned_by_you,
}
use avalanche_ops.Aws.S3.Listing.{Pages, last, more, IsListing, count_pages, list_objects_lem}
use avalanche_ops.Aws.S3.Bucket.{
  create_bucket, create_bucket-ok, delete_objects-ok, append_slash, append_slash-ok, EndsInSlash,
  create, put_public_access_block, put_bucket_encryption, is_error_bucket_already_exist,
}
use avalanche_ops.Aws.Sdk.{Answer, failure, service_error, success, timeout_error, SdkError}
use avalanche_ops.Aws.S3.Sort.{sort_newest-IsNewestFirst, sort_newest-perm, sort_newest-at_time}
use avalanche_ops.Outcome.{ok, panic}

abbrev object : String → ℕ → Object
object k t = record { key = some k; last_modified = some t }

abbrev first_page : Page
first_page = record {
  key_count = 2;
  contents = some (object "a" 1 ∷ object "b" 5 ∷ []);
  next_continuation_token = some "t";
}

abbrev second_page : Page
second_page = record {
  key_count = 1;
  contents = some (object "c" 3 ∷ []);
  next_continuation_token = none;
}

abbrev toy_list : Option String → Option String → Answer ErrorKind Page
toy_list prefix none = success first_page
toy_list prefix (some t) = success second_page

abbrev stored : List Object
stored = (object "a" 1 ∷ object "b" 5 ∷ []) ++ (object "c" 3 ∷ [])

abbrev newest_first : List Object
newest_first = object "b" 5 ∷ object "c" 3 ∷ object "a" 1 ∷ []

listed : list_objects toy_list 2 none ≡ some (ok newest_first)
unfolding list_objects sort_newest
listed = refl

abbrev toy_pages : Pages toy_list none "" stored
toy_pages =
    more first_page 1 (object "a" 1 ∷ object "b" 5 ∷ []) (object "c" 3 ∷ []) refl refl refl refl
      (last second_page 0 (object "c" 3 ∷ []) refl refl refl refl)

list_objects_lem_example :
    (r : List Object) × (list_objects toy_list 2 none ≡ some (ok r)) × IsListing r stored
unfolding count_pages
list_objects_lem_example =
    list_objects_lem toy_list none 2 stored toy_pages (omega arith) (refl, (refl, (refl, tt)))
      (refl, (refl, (refl, tt)))

abbrev deleting : List String → Answer ErrorKind (Unit {0})
deleting keys = success tt

sorted-IsListing : IsListing (sort_newest newest_first) newest_first
sorted-IsListing = record {
  newest_first = sort_newest-IsNewestFirst newest_first;
  same = sort_newest-perm newest_first;
  stable = λ t. sort_newest-at_time t newest_first;
}

delete_objects-ok_example :
    (newest_first ≡ []) × ((delete_objects deleting (ok (sort_newest newest_first))).1 ≡ [])
    ⊎ ((keys : List String) × ((delete_objects deleting (ok (sort_newest newest_first))).1
          ≡ keys ∷ [])
        × (deleting keys ≡ success tt)
        × Perm keys (map (λ o. unwrap_or o.key "") newest_first))
unfolding delete_objects sort_newest
delete_objects-ok_example =
    delete_objects-ok deleting newest_first (sort_newest newest_first) sorted-IsListing refl

abbrev taken : Answer ErrorKind (Unit {0})
taken = failure (service_error bucket_already_owned_by_you "owned") "owned"

-- A bucket that exists is left as it is: nothing blocks public access to it or encrypts it.
existing_bucket :
    create_bucket taken (failure timeout_error "") (failure timeout_error "") ≡ (ok tt, create ∷ [])
unfolding create_bucket
existing_bucket = refl

create_bucket-ok_example :
    ((taken ≡ success tt)
      × (taken ≡ success tt)
      × (taken ≡ success tt)
      × ((create_bucket taken taken taken).1
          ≡ create ∷ put_public_access_block ∷ put_bucket_encryption ∷ []))
    ⊎ ((e : SdkError ErrorKind) × (debug : String) × (taken ≡ failure e debug)
        × (is_error_bucket_already_exist e ≡ true)
        × ((create_bucket taken taken taken).1 ≡ create ∷ []))
unfolding create_bucket
create_bucket-ok_example = create_bucket-ok taken taken taken refl

slashes : (append_slash "hello" ≡ ok "hello/") × (append_slash "" ≡ panic)
unfolding append_slash
slashes = (refl, refl)

append_slash-ok_example :
    EndsInSlash "hello/"
    × (EndsInSlash "hello" → ◌≡◌ {A = String} "hello/" "hello")
    × (¬ EndsInSlash "hello" → ◌≡◌ {A = String} "hello/" "hello/")
    × (append_slash "hello/" ≡ ok "hello/")
append_slash-ok_example = append_slash-ok "hello" "hello/" slashes.0
