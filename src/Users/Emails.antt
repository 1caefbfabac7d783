-- ===== src/Users/Emails.antt =====
-- A creation that asks for an address in use.
use beetle_shield_backend.Prelude.{
  ℕ, suc, ◌≡◌, ◌≢◌, refl, ap, ◌∙◌, Bool, true, false, String, Option, none, some, List, str_eq,
  if◌then◌else◌, [], ◌∷◌, ◌==◌, count_where, first_where, arith,
}
use beetle_shield_backend.Model.{User}
use beetle_shield_backend.Store.{
  Db, World, Result, ok, err, M, ◌>>=◌, continue, email_already_exists, query, first, or_not_found,
  call, attempt, fail, ignore, from_result,
}
use beetle_shield_backend.Store.Hoare.{Keeps, Keeps-bind, Keeps-call, Keeps-insert_row, keeps_rules}
use beetle_shield_backend.Audit.{RecordAuditInput, deferred_audit, record_audit}
use beetle_shield_backend.Audit.Deferred.{deferred_audit-Keeps}
use beetle_shield_backend.Users.Repository.{
  create_user_row, find_by_email, insert_if, inserted_or, user_has_email,
}
use beetle_shield_backend.Users.Tokens.{hash_password}
use beetle_shield_backend.Users.Service.{
  CreateUserInput, create_unless_found, create_user, new_user,
}

-- The operation reports what its body does.
deferred_audit_lem :
    {A : Type 0} (row : Result A → RecordAuditInput) (m : M A) (w : World)
    → (deferred_audit row m w).0 ≡ (m w).0
unfolding attempt ◌>>=◌ from_result ignore record_audit
deferred_audit_lem row m w = refl

module _ (generate : ℕ → String → ℕ → Result String) (key : String) where
  hash_password-any :
      (P : Db → Type 0) (password : String) → Keeps P (hash_password generate password)
  unfolding hash_password
  hash_password-any P password = Keeps-bind _ _ (Keeps-call _ (λ w p. p)) (λ r. search keeps_rules)

  module _ (users : List User) (input : CreateUserInput)
      (taken : count_where (user_has_email input.email) users ≢ 0) where
    abbrev Same : Db → Type 0
    Same d = d.users ≡ users

    insert_if-Same :
        (b : Bool) (row : User) (d : Db) → Same d → b ≡ false → Same (insert_if b row d).1
    insert_if-Same true row d p e = cc (e)
    insert_if-Same false row d p e = p

    create_user_row-Same : (h : String) → Keeps Same (create_user_row key (new_user input h))
    unfolding create_user_row
    create_user_row-Same h =
        Keeps-bind _ _ (Keeps-insert_row _ (λ id now d p. insert_if-Same _ _ d p (refused d p)))
          inserted
      where
        refused :
            (d : Db) → Same d → (count_where (user_has_email input.email) d.users == 0) ≡ false
        refused d p = rw p (ground (arith, taken))

        inserted : (o : Option User) → Keeps Same (inserted_or key o)
        inserted none = search keeps_rules
        inserted (some u) = search keeps_rules

    create_user-Same : Keeps Same (create_user generate key input)
    unfolding create_user find_by_email
    create_user-Same =
        deferred_audit-Keeps _ (λ d ls p. p) _ _ (Keeps-bind _ _ (search keeps_rules) unless)
      where
        unless : (r : Result User) → Keeps Same (create_unless_found generate key input r)
        unless (ok u) = search keeps_rules
        unless (err e) = search (keeps_rules, hash_password-any, create_user_row-Same)

  found_first :
      (us : List User) (p : User → Bool)
      → count_where p us ≢ 0
      → (u : User) × (first_where p us ≡ some u)
  found_first [] p h = absurd (h refl)
  found_first (u ∷ us) p h = split (p u) refl (found_first us p)
    where
      split :
          (b : Bool)
          → p u ≡ b
          → (count_where p us ≢ 0 → (v : User) × (first_where p us ≡ some v))
          → (v : User) × ((if b then some u else first_where p us) ≡ some v)
      split true e rest = (u, refl)
      split false e rest = rest (λ z. h (ground (arith, e, z)))

  answers :
      {A : Type 0} (f : Db → A) (w : World)
      → w.fault w.calls ≡ none
      → query f w ≡ (ok (f w.db), record w { calls = suc w.calls })
  unfolding query call
  answers f w answered = rw (answered, call) refl

  email_found :
      (email : String) (w : World)
      (f : (u : User) × (first_where (user_has_email email) w.db.users ≡ some u))
      → w.fault w.calls ≡ none
      → (find_by_email email w).0 ≡ ok f.0
  unfolding find_by_email first ◌>>=◌ or_not_found
  email_found email w f answered =
      ap (λ r. (continue or_not_found r).0) (answers _ w answered)
      ∙ ap (λ o. (or_not_found o (record w { calls = suc w.calls })).0) f.1

  body_fails :
      (input : CreateUserInput) (w : World)
      → count_where (user_has_email input.email) w.db.users ≢ 0
      → w.fault w.calls ≡ none
      → ((attempt (find_by_email input.email) >>= create_unless_found generate key input) w).0
        ≡ err email_already_exists
  unfolding attempt ◌>>=◌ fail
  body_fails input w taken answered =
      ap (λ r. (create_unless_found generate key input r (find_by_email input.email w).1).0)
        (email_found input.email w (found_first w.db.users (user_has_email input.email) taken)
          answered)

  create_user-exists :
      (input : CreateUserInput) (w : World)
      → count_where (user_has_email input.email) w.db.users ≢ 0
      → w.fault w.calls ≡ none
      → (create_user generate key input w).0 ≡ err email_already_exists
  unfolding create_user
  create_user-exists input w taken answered =
      deferred_audit_lem _
        (attempt (find_by_email input.email) >>= create_unless_found generate key input) w
      ∙ body_fails input w taken answered

-- Where an account has the address, a creation adds no account and changes none, whatever the
-- calls report; if the look-up of the address is answered, it fails with the error that says so.
pub create_user-taken :
    (generate : ℕ → String → ℕ → Result String) (key : String) (input : CreateUserInput) (w : World)
    → count_where (λ u. str_eq u.email input.email) w.db.users ≢ 0
    → ((create_user generate key input w).1.db.users ≡ w.db.users)
      × (w.fault w.calls ≡ none → (create_user generate key input w).0 ≡ err email_already_exists)
create_user-taken generate key input w taken = (
  (create_user-Same generate key w.db.users input taken).at w refl,
  create_user-exists generate key input w taken,
)
