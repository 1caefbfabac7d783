-- ===== src/Worker/Uploads.antt =====
-- What the uploads of a run leave in the object store.
use beetle_shield_backend.Prelude.{
  suc, ◌≡◌, refl, sym, ap, ◌∙◌, subst, Bool, true, false, String, Option, none, some, List, [], ◌∷◌,
  ◌++◌, str_eq, if◌then◌else◌,
}
use mathlib.Core.List.{append_assoc, append-nil}
use beetle_shield_backend.Store.{
  Error, external, World, Result, ok, err, M, ◌>>=◌, continue, pure, call, attempt, external_call,
}
use beetle_shield_backend.Worker.Artifacts.{
  ArtifactInfo, after_upload, put_object, upload_one, upload_from, upload_artifacts,
}

-- From a store with these objects, the operation ends with this result and these objects.
pub record Ends {A : Type 0} (before : List String) (m : M A) (Q : Result A → List String → Type 0)
    : Type 0 where
  pub at : (w : World) → w.objects ≡ before → Q (m w).0 (m w).1.objects

module _ {A : Type 0} where
  pub Ends-call :
      (before : List String) (f : World → A × World) (Q : Result A → List String → Type 0)
      → ((w : World) → w.objects ≡ before → Q (ok (f w).0) (f w).1.objects)
      → ((e : Error) → Q (err e) before)
      → Ends before (call f) Q
  unfolding call
  Ends-call before f Q h k = record { at = λ w same. split w same (w.fault w.calls) }
    where
      split :
          (w : World)
          → w.objects ≡ before
          → (o : Option String)
          → let r : Result A × World = elim o [
            | some e ↦ (err (external e), record w { calls = suc w.calls })
            | none ↦ let (a, w') = f w in (ok a, record w' { calls = suc w.calls })
          ] in
            Q r.0 r.1.objects
      split w same none = h w same
      split w same (some x) = subst (λ o. Q (err (external x)) o) (sym same) (k (external x))

  pub Ends-attempt :
      (before : List String) (m : M A) (R : Result A → List String → Type 0)
      (Q : Result (Result A) → List String → Type 0)
      → Ends before m R
      → ((r : Result A) (o : List String) → R r o → Q (ok r) o)
      → Ends before (attempt m) Q
  unfolding attempt
  Ends-attempt before m R Q hm h = record {
    at = λ w same. h (m w).0 (m w).1.objects (hm.at w same);
  }

module _ {A B : Type 0} where
  pub Ends-bind :
      (before : List String) (m : M A) (f : A → M B) (R : Result A → List String → Type 0)
      (Q : Result B → List String → Type 0)
      → Ends before m R
      → ((a : A) (o : List String) → R (ok a) o → Ends o (f a) Q)
      → ((e : Error) (o : List String) → R (err e) o → Q (err e) o)
      → Ends before (m >>= f) Q
  unfolding ◌>>=◌
  Ends-bind before m f R Q hm hf he = record { at = λ w same. split (m w) (hm.at w same) }
    where
      split :
          (r : Result A × World) → R r.0 r.1.objects → Q (continue f r).0 (continue f r).1.objects
      split (ok a, w) q = (hf a w.objects q).at w refl
      split (err e, w) q = he e w.objects q

-- The objects, with the keys put on top of them in turn.
abbrev pub stacked : List String → List String → List String
stacked [] objects = objects
stacked (key ∷ keys) objects = stacked keys (key ∷ objects)

-- An upload adds its key if it succeeds, and nothing if it fails.
abbrev Uploaded : String → List String → Result (Unit {0}) → List String → Type 0
Uploaded key before (ok _) o = o ≡ key ∷ before
Uploaded key before (err e) o = o ≡ before

upload_one-Ends :
    (before : List String) (a : ArtifactInfo)
    → Ends before (upload_one a) (Uploaded a.object_key before)
unfolding upload_one external_call put_object
upload_one-Ends before a =
    Ends-bind before _ _ (λ r o. o ≡ before) _
      (Ends-call before (λ w. (tt, w)) _ (λ w same. same) (λ e. refl))
      (λ _ o same.
        Ends-call o (λ w. (tt, record w { objects = a.object_key ∷ w.objects })) _
          (λ w s. ap (λ l. a.object_key ∷ l) (s ∙ same)) (λ e. same))
      (λ e o same. same)

-- The result holds the keys given and those of the new objects, and there are no others.
abbrev Adds :
    List String → List String → Result (List String × Result (Unit {0})) → List String → Type 0
Adds keys before r o =
    (new : List String) × (failure : Result (Unit {0})) × (r ≡ ok (keys ++ new, failure))
    × (o ≡ stacked new before)

stopped :
    (keys before : List String) (failure : Result (Unit {0}))
    → Ends before (pure (keys, failure)) (Adds keys before)
unfolding pure
stopped keys before failure = record {
  at = λ w same. ([], failure, ap (λ k. ok (k, failure)) (sym (append-nil keys)), same);
}

upload_from-Adds :
    (keys before : List String) (artifacts : List ArtifactInfo)
    → Ends before (upload_from keys artifacts) (Adds keys before)
unfolding upload_from
upload_from-Adds keys before [] = stopped keys before (ok tt)
upload_from-Adds keys before (a ∷ rest) =
    pick (upload_from-Adds keys before rest)
      (λ o. upload_from-Adds (keys ++ (a.object_key ∷ [])) o rest) (str_eq a.path "")
  where
    key : String
    key = a.object_key

    value : {r s : Result (Unit {0})} → ok r ≡ ok s → s ≡ r
    value p = cc

    next :
        ((o : List String)
          → Ends o (upload_from (keys ++ (key ∷ [])) rest) (Adds (keys ++ (key ∷ [])) o))
        → (r : Result (Unit {0})) (o : List String) → Uploaded key before r o
        → Ends o
            (after_upload keys key (upload_from (keys ++ (key ∷ [])) rest) r)
            (Adds keys before)
    next uploaded (ok _) o same = record {
      at = λ w there.
          let (new, failure, result, left) = (uploaded o).at w there in
          (
            key ∷ new,
            failure,
            result ∙ ap (λ ks. ok (ks, failure)) (append_assoc keys (key ∷ []) new),
            left ∙ ap (λ l. stacked new l) same,
          );
    }
    next uploaded (err e) o same = record {
      at = λ w there.
          let (new, failure, result, left) = (stopped keys o (err e)).at w there in
          (new, failure, result, left ∙ ap (λ l. stacked new l) same);
    }

    pick :
        Ends before (upload_from keys rest) (Adds keys before)
        → ((o : List String)
            → Ends o (upload_from (keys ++ (key ∷ [])) rest) (Adds (keys ++ (key ∷ [])) o))
        → (b : Bool)
        → Ends before
            (if b
              then upload_from keys rest
              else (attempt (upload_one a)
                  >>= after_upload keys key (upload_from (keys ++ (key ∷ [])) rest)))
            (Adds keys before)
    pick skipped uploaded true = skipped
    pick skipped uploaded false =
        Ends-bind before _ _ (λ r o. (s : Result (Unit {0})) × (r ≡ ok s) × Uploaded key before s o)
          _ (Ends-attempt before _ _ _ (upload_one-Ends before a) (λ r o u. (r, refl, u)))
          (λ r o u. next uploaded r o (subst (λ s. Uploaded key before s o) (value u.1) u.2))
          (λ e o u. absurd (cc (u.1)))

-- The upload always returns, whichever of its calls fail, and the keys that it returns are exactly
-- those that it has added to the object store, in this order: what it hands to the rollback is what
-- there is to roll back.
pub upload_artifacts_lem :
    (artifacts : List ArtifactInfo) (w : World)
    → (keys : List String) × (failure : Result (Unit {0})) × ((upload_artifacts artifacts w).0
        ≡ ok (keys, failure))
      × ((upload_artifacts artifacts w).1.objects ≡ stacked keys w.objects)
upload_artifacts_lem artifacts w =
    unfold upload_artifacts in (upload_from-Adds [] w.objects artifacts).at w refl
