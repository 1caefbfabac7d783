-- ===== src/Worker/Rollbacks.antt =====
-- What the rollback of a run takes out of the object store.
use beetle_shield_backend.Prelude.{
  ℕ, ◌≤◌, ◌≡◌, refl, sym, ap, subst, Bool, String, List, [], ◌∷◌, ◌++◌, str_eq, All, count_where,
  delete_where, arith,
}
use mathlib.Core.List.{reverse, reverse-cons}
use beetle_shield_backend.Store.{World, Result, ok, err, pure}
use beetle_shield_backend.Worker.Artifacts.{
  delete_object, delete_objects, join_errors, rollback_artifacts,
}
use beetle_shield_backend.Worker.Uploads.{Ends, Ends-attempt, Ends-bind, Ends-call}

-- No object has the key.
abbrev pub IsAbsent : String → List String → Type 0
IsAbsent key objects = count_where (λ o. str_eq o key) objects ≡ 0

count_where-delete_where :
    (q p : String → Bool) (objects : List String)
    → count_where q (delete_where p objects) ≤ count_where q objects
count_where-delete_where q p [] = omega arith
count_where-delete_where q p (o ∷ objects) = ground (arith, count_where-delete_where q p objects)

delete_where-IsAbsent :
    (key : String) (objects : List String) → IsAbsent key (delete_where (λ o. str_eq o key) objects)
delete_where-IsAbsent key [] = refl
delete_where-IsAbsent key (o ∷ objects) = ground (arith, delete_where-IsAbsent key objects)

abbrev Deleted : String → List String → Result (Unit {0}) → List String → Type 0
Deleted key before (ok _) o = o ≡ delete_where (λ k. str_eq k key) before
Deleted key before (err e) o = o ≡ before

delete_object-Ends :
    (before : List String) (key : String) → Ends before (delete_object key) (Deleted key before)
unfolding delete_object
delete_object-Ends before key =
    Ends-call before _ _ (λ w same. ap (delete_where (λ k. str_eq k key)) same) (λ e. refl)

-- Nothing comes back, and a deletion without an error has deleted.
Deleted-IsAbsent :
    (key k : String) (before o : List String) (r : Result (Unit {0}))
    → Deleted key before r o
    → IsAbsent k before
    → IsAbsent k o
Deleted-IsAbsent key k before o (ok _) d h =
    subst (IsAbsent k) (sym d)
      (none (count_where-delete_where (λ x. str_eq x k) (λ x. str_eq x key) before) h)
  where
    none : {n m : ℕ} → n ≤ m → m ≡ 0 → n ≡ 0
    none l z = omega arith
Deleted-IsAbsent key k before o (err e) d h = subst (IsAbsent k) (sym d) h

-- If no error is reported, none was before, and the keys are absent; what was absent stays so.
abbrev Cleans :
    List String
    → Result (Unit {0})
    → List String
    → Result (Result (Unit {0}))
    → List String
    → Type 0
Cleans keys so_far before r o =
    r ≡ ok (ok tt)
    → (so_far ≡ ok tt)
      × All (λ k. IsAbsent k o) keys
      × ((k : String) → IsAbsent k before → IsAbsent k o)

both_ok : (r s : Result (Unit {0})) → join_errors r s ≡ ok tt → (r ≡ ok tt) × (s ≡ ok tt)
both_ok (ok _) s e = (refl, e)
both_ok (err x) (ok _) e = absurd (cc e)
both_ok (err x) (err y) e = absurd (cc e)

delete_objects-Cleans :
    (keys : List String) (so_far : Result (Unit {0})) (before : List String)
    → Ends before (delete_objects keys so_far) (Cleans keys so_far before)
unfolding delete_objects
delete_objects-Cleans [] so_far before =
    unfold pure in record { at = λ w same e. (value e, tt, λ k h. subst (IsAbsent k) (sym same) h) }
  where
    value : {r s : Result (Unit {0})} → ok r ≡ ok s → r ≡ s
    value p = cc
delete_objects-Cleans (key ∷ keys) so_far before =
    Ends-bind before _ _ (λ r o. (s : Result (Unit {0})) × (r ≡ ok s) × Deleted key before s o) _
      (Ends-attempt before _ _ _ (delete_object-Ends before key) (λ r o d. (r, refl, d)))
      (λ r o u. record {
        at = λ w there e.
            let c = (delete_objects-Cleans keys (join_errors so_far r) o).at w there e in
            let d = subst (λ s. Deleted key before s o) (value u.1) u.2 in
            let oks = both_ok so_far r c.0 in
            (
              oks.0,
              (c.2 key (gone r o oks.1 d), c.1),
              λ k h. c.2 k (Deleted-IsAbsent key k before o r d h),
            );
      })
      (λ e o u. absurd (cc (u.1)))
  where
    value : {r s : Result (Unit {0})} → ok r ≡ ok s → s ≡ r
    value p = cc

    gone :
        (r : Result (Unit {0})) (o : List String)
        → r ≡ ok tt
        → Deleted key before r o
        → IsAbsent key o
    gone (ok _) o e d = subst (IsAbsent key) (sym d) (delete_where-IsAbsent key before)
    gone (err x) o e d = absurd (cc e)

All-split : (P : String → Type 0) (xs ys : List String) → All P (xs ++ ys) → All P xs × All P ys
All-split P [] ys a = (tt, a)
All-split P (x ∷ xs) ys a = let r = All-split P xs ys a.1 in ((a.0, r.0), r.1)

All-reverse : (P : String → Type 0) (xs : List String) → All P (reverse xs) → All P xs
All-reverse P [] a = tt
All-reverse P (x ∷ xs) a =
    let r = All-split P (reverse xs) (x ∷ []) (subst (All P) (reverse-cons x xs) a) in
    (r.1.0, All-reverse P xs r.0)

-- A rollback that reports no error has left no object under any of the keys.
pub rollback_artifacts_lem :
    (keys : List String) (w : World)
    → (rollback_artifacts keys w).0 ≡ ok (ok tt)
    → All (λ k. IsAbsent k (rollback_artifacts keys w).1.objects) keys
rollback_artifacts_lem keys w e = All-reverse _ keys ((cleans.at w refl e).1)
  where
    cleans : Ends w.objects (rollback_artifacts keys) (Cleans (reverse keys) (ok tt) w.objects)
    cleans = unfold rollback_artifacts in delete_objects-Cleans (reverse keys) (ok tt) w.objects
