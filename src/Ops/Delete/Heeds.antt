-- ===== src/Ops/Delete/Heeds.antt =====
-- A deletion goes on only after the answer to its last request.
use avalanche_ops.Prelude.{
  String, ℕ, Bool, true, false, Option, none, some, List, ◌∷◌, [], ◌++◌, ◌≡◌, if◌then◌else◌,
}
use avalanche_ops.Outcome.{ok, done, unwrap}
use avalanche_ops.Run.{Run, request, lift, ◌>>=◌}
use avalanche_ops.Run.Triple.{Triple, >>=-Triple, lift-Triple, request-Triple, Triple-any}
use avalanche_ops.Aws.CloudFormation.{Stack}
use avalanche_ops.Aws.Resources.{Resources}
use avalanche_ops.Spec.{Spec}
use avalanche_ops.Ops.Requests.{Request, World, Stop, poll_stack}
use avalanche_ops.Ops.Delete.{
  Flags, key_files, delete_resources, delete_key, delete_kms_key, remove_files, trigger, confirm,
  when_set,
}

module _ {S : Type 0} (world : World S) where
  -- The newest request was answered with success: a poll with the stack that it waited for.
  abbrev pub IsAnswered : Request S → List (Request S) → Type 0
  IsAnswered (poll_stack name status timeout interval) log =
      (stack : Stack) × (world.polled (poll_stack name status timeout interval ∷ log) ≡ done stack)
  IsAnswered v log = world.sent (v ∷ log) ≡ done tt

  -- all of them were, each when it was the newest
  abbrev pub AllAnswered : List (Request S) → Type 0
  AllAnswered [] = Unit
  AllAnswered (v ∷ log) = IsAnswered v log × AllAnswered log

  -- all but the newest were
  abbrev pub AllButLast : List (Request S) → Type 0
  AllButLast [] = Unit
  AllButLast (v ∷ log) = AllAnswered log

  AllAnswered-AllButLast : (log : List (Request S)) → AllAnswered log → AllButLast log
  AllAnswered-AllButLast [] h = tt
  AllAnswered-AllButLast (v ∷ log) h = h.1

  AllAnswered-earlier :
      (later earlier : List (Request S)) → AllAnswered (later ++ earlier) → AllAnswered earlier
  AllAnswered-earlier [] earlier h = h
  AllAnswered-earlier (v ∷ later) earlier h = AllAnswered-earlier later earlier h.1

  pub AllButLast-earlier :
      (later earlier : List (Request S)) (v : Request S)
      → AllButLast (later ++ v ∷ earlier)
      → AllAnswered earlier
  AllButLast-earlier [] earlier v h = h
  AllButLast-earlier (w ∷ later) earlier v h = (AllAnswered-earlier later (v ∷ earlier) h).1

  -- a command that stops at the first request without a successful answer
  abbrev pub Heeds : Run (Request S) Stop (Unit {0}) → Type 0
  Heeds m = Triple AllAnswered m (λ u log. AllAnswered log) AllButLast

  returns : Heeds (lift (ok tt))
  returns = lift-Triple _ (λ log p. (λ u e. p, AllAnswered-AllButLast log p))

  panics_or :
      {A : Type 0} (o : Option A) (f : A → Run (Request S) Stop (Unit {0}))
      → ((a : A) → Heeds (f a))
      → Heeds (lift (unwrap o) >>= f)
  panics_or o f h =
      >>=-Triple
        (lift-Triple {Q = λ a log. AllAnswered log} _
          (λ log p. (λ a e. p, AllAnswered-AllButLast log p)))
        h

module _ {C E : Type 0} (world : World (Spec C E)) where
  remove_file-Heeds :
      (file : String) (b : Bool)
      → Heeds world (if b then request (Request.remove_file file) world.sent else lift (ok tt))
  remove_file-Heeds file true = request-Triple _ _ (λ log p. (λ a e. (e, p), p))
  remove_file-Heeds file false = returns world

  remove_files-Heeds : (files : List String) → Heeds world (remove_files world files)
  unfolding remove_files
  remove_files-Heeds [] = returns world
  remove_files-Heeds (file ∷ files) =
      >>=-Triple (remove_file-Heeds file (world.exists file)) (λ u. remove_files-Heeds files)

  delete_key-Heeds : (name path : Option String) → Heeds world (delete_key world name path)
  unfolding delete_key
  delete_key-Heeds none path = returns world
  delete_key-Heeds (some name) none = returns world
  delete_key-Heeds (some name) (some path) =
      >>=-Triple (remove_files-Heeds (key_files path))
        (λ u. request-Triple _ _ (λ log p. (λ a e. (e, p), p)))

  delete_kms_key-Heeds : (id arn : Option String) → Heeds world (delete_kms_key world id arn)
  unfolding delete_kms_key
  delete_kms_key-Heeds none arn = returns world
  delete_kms_key-Heeds (some id) none = returns world
  delete_kms_key-Heeds (some id) (some arn) = request-Triple _ _ (λ log p. (λ a e. (e, p), p))

  trigger-Heeds :
      (recorded : Bool) (name : Option String) → Heeds world (trigger world recorded name)
  unfolding trigger
  trigger-Heeds false name = returns world
  trigger-Heeds true name =
      panics_or world name _ (λ n. request-Triple _ _ (λ log p. (λ a e. (e, p), p)))

  confirm-Heeds :
      (recorded : Bool) (name : Option String) (secs : ℕ)
      → Heeds world (confirm world recorded name secs)
  unfolding confirm
  confirm-Heeds false name secs = returns world
  confirm-Heeds true name secs = panics_or world name _ (λ n.
      >>=-Triple
        (request-Triple {Q = λ a log. AllAnswered world log} _ _ (λ log p. (λ a e. ((a, e), p), p)))
        (λ stack. returns world))

  when_set-Heeds :
      (b : Bool) (v : Request (Spec C E))
      → ((log : List (Request (Spec C E)))
          → world.sent (v ∷ log) ≡ done tt
          → IsAnswered world v log)
      → Heeds world (when_set world b v)
  unfolding when_set
  when_set-Heeds false v h = returns world
  when_set-Heeds true v h = request-Triple _ _ (λ log p. (λ a e. (h log e, p), p))

  pub delete_resources-Heeds :
      (flags : Flags) (spec : Spec C E) (r : Resources)
      → Heeds world (delete_resources world flags spec r)
  unfolding delete_resources
  delete_resources-Heeds flags spec r = >>=-Triple (delete_key-Heeds _ _) (λ u.
      >>=-Triple (delete_kms_key-Heeds _ _) (λ u. >>=-Triple (trigger-Heeds _ _) (λ u.
        >>=-Triple (trigger-Heeds _ _) (λ u. >>=-Triple (trigger-Heeds _ _) (λ u.
          >>=-Triple (confirm-Heeds _ _ _) (λ u. >>=-Triple (confirm-Heeds _ _ _) (λ u.
            >>=-Triple (trigger-Heeds _ _) (λ u. >>=-Triple (confirm-Heeds _ _ _) (λ u.
              >>=-Triple (confirm-Heeds _ _ _) (λ u.
                >>=-Triple (when_set-Heeds _ _ (λ log e. e)) (λ u.
                  >>=-Triple (when_set-Heeds _ _ (λ log e. e))
                    (λ u. when_set-Heeds _ _ (λ log e. e)))))))))))))

  -- Whatever was sent before another request was answered.
  pub delete_resources-earlier :
      (flags : Flags) (spec : Spec C E) (r : Resources) (later earlier : List (Request (Spec C E)))
      (v : Request (Spec C E))
      → (delete_resources world flags spec r []).1 ≡ later ++ v ∷ earlier
      → AllAnswered world earlier
  delete_resources-earlier flags spec r later earlier v e =
      AllButLast-earlier world later earlier v (
        rw (← e) (
          Triple-any [] (delete_resources-Heeds flags spec r)
            (λ u log h. AllAnswered-AllButLast world log h) tt))
