-- ===== src/Users/Creation.antt =====
-- What a creation leaves in the tables, and that the new account can log in.
use beetle_shield_backend.Prelude.{
  ℕ, ◌≤◌, ◌≡◌, refl, ap, subst, ◌⊎◌, inl, inr, Bool-cases, Bool, true, false, String, Option, none,
  some, List, [], ◌∷◌, ◌++◌, ◌==◌, eq_refl, count_where, first_where, arith,
}
use beetle_shield_backend.Prelude.Int.{ℤ}
use beetle_shield_backend.Model.{User, active, is_disabled}
use beetle_shield_backend.Store.{Db, World, Result, ok, err}
use beetle_shield_backend.Store.Outcomes.{
  Leads, Leads-any, Leads-bind, Leads-call, Leads-fail, Leads-from_result, Leads-given, Leads-imp,
  Leads-insert_row, Leads-pure,
}
use beetle_shield_backend.Audit.Deferred.{deferred_audit-Leads}
use beetle_shield_backend.Users.Repository.{
  user_has_email, find_by_email, insert_user, insert_if, inserted_or, create_user_row,
}
use beetle_shield_backend.Users.Tokens.{Claims, hash_password, default_cost}
use beetle_shield_backend.Users.Service.{
  CreateUserInput, create_user, create_unless_found, new_user,
}
use beetle_shield_backend.Users.Login.{login}
use beetle_shield_backend.Users.Sessions.{login-Succeeds}

first_where-append :
    (p : User → Bool) (us : List User) (u : User)
    → count_where p us ≡ 0
    → p u ≡ true
    → first_where p (us ++ (u ∷ [])) ≡ some u
first_where-append p [] u z e = rw e refl
first_where-append p (v ∷ us) u z e = ground (arith, z, first_where-append p us u)

module _ (generate : ℕ → String → ℕ → Result String) (key : String) where
  -- The account is found by its address, is enabled, has the role asked for, and stores a hash of
  -- the password.
  abbrev pub IsCreatedFrom : CreateUserInput → User → List User → Type 0
  IsCreatedFrom input u users =
      (first_where (user_has_email input.email) users ≡ some u)
      × (u.status ≡ active)
      × (u.role ≡ input.role)
      × ((salt : ℕ) × (generate salt input.password default_cost ≡ ok u.password_hash))

  hash_password-Leads :
      (P : Db → Type 0) (password : String)
      → Leads P
          (hash_password generate password)
          (λ h _. (salt : ℕ) × (generate salt password default_cost ≡ ok h))
  unfolding hash_password
  hash_password-Leads P password =
      Leads-bind _ (λ r _. (salt : ℕ) × (generate salt password default_cost ≡ r)) _ _ _
        (Leads-call _ _ _ (λ w p. (w.calls, refl)))
        (λ r.
          Leads-given _ _ _
            (λ q. Leads-imp _ _ _ _ (λ h d e. (q.0, cc (q.1, e))) (Leads-from_result _ r)))

  insert_if-IsCreated :
      (input : CreateUserInput) (row : User) (d : Db) (b : Bool)
      → IsCreatedFrom input row (d.users ++ (row ∷ []))
      → (u : User) → (insert_if b row d).0 ≡ some u
      → IsCreatedFrom input u (insert_if b row d).1.users
  insert_if-IsCreated input row d true q u e =
      subst (λ v. IsCreatedFrom input v (d.users ++ (row ∷ []))) (value e) q
    where
      value : {v : User} → some v ≡ some u → v ≡ u
      value e = cc
  insert_if-IsCreated input row d false q u e = cc (e)

  insert_user-IsCreated :
      (input : CreateUserInput) (h : String) (id now : ℕ) (d : Db)
      → (salt : ℕ) × (generate salt input.password default_cost ≡ ok h)
      → (u : User) → (insert_user (new_user input h) id now d).0 ≡ some u
      → IsCreatedFrom input u (insert_user (new_user input h) id now d).1.users
  insert_user-IsCreated input h id now d q u e =
      split (Bool-cases (count_where (user_has_email input.email) d.users == 0))
    where
      split :
          (count_where (user_has_email input.email) d.users == 0) ≡ true
            ⊎ (count_where (user_has_email input.email) d.users == 0) ≡ false
          → IsCreatedFrom input u (insert_user (new_user input h) id now d).1.users
      split (inl z) =
          insert_if-IsCreated input _ d _
            (first_where-append _ d.users _ (ground arith) (eq_refl input.email), refl, refl, q) u e
      split (inr z) = cc (e, z)

  create_user_row-Leads :
      (P : Db → Type 0) (input : CreateUserInput) (h : String)
      → Leads
          (λ _. (salt : ℕ) × (generate salt input.password default_cost ≡ ok h))
          (create_user_row key (new_user input h))
          (λ u d. IsCreatedFrom input u d.users)
  unfolding create_user_row
  create_user_row-Leads P input h = Leads-given _ _ _ (λ q.
      Leads-bind _ (λ o d. (u : User) → o ≡ some u → IsCreatedFrom input u d.users) _ _ _
        (Leads-insert_row _ _ _ (λ id now d p. insert_user-IsCreated input h id now d q)) inserted)
    where
      inserted :
          (o : Option User)
          → Leads
              (λ d. (u : User) → o ≡ some u → IsCreatedFrom input u d.users)
              (inserted_or key o)
              (λ u d. IsCreatedFrom input u d.users)
      inserted (some row) = Leads-pure _ _ _ (λ d p. p row refl)
      inserted none = Leads-fail _ _ _

  create_user-Leads :
      (input : CreateUserInput)
      → Leads (λ _. Unit) (create_user generate key input) (λ u d. IsCreatedFrom input u d.users)
  unfolding create_user find_by_email
  create_user-Leads input =
      deferred_audit-Leads _ _ (λ u d ls q. q) _ _
        (Leads-bind _ (λ _ _. Unit) _ _ _ (Leads-any _ _) unless)
    where
      unless :
          (r : Result User)
          → Leads
              (λ _. Unit)
              (create_unless_found generate key input r)
              (λ u d. IsCreatedFrom input u d.users)
      unless (ok u) = Leads-fail _ _ _
      unless (err e) =
          Leads-bind _ _ _ _ _ (hash_password-Leads _ input.password)
            (λ h. create_user_row-Leads (λ _. Unit) input h)

-- An account that has just been created logs in with its address and its password, whatever salt
-- was drawn: if the creation succeeds, bcrypt accepts a password against each hash that it made of
-- it, the library signs every claim, and no call fails after the creation, then the login returns
-- a token and that account.
pub create_user-login :
    (generate : ℕ → String → ℕ → Result String) (compare_hash : String → String → Result (Unit {0}))
    (sign : Claims → String → Result String) (key secret : String) (hours : ℤ)
    (input : CreateUserInput) (ip : String) (w : World) (user : User)
    → ((salt : ℕ) (p h : String) → generate salt p default_cost ≡ ok h → compare_hash h p ≡ ok tt)
    → ((claims : Claims) → (t : String) × (sign claims secret ≡ ok t))
    → (create_user generate key input w).0 ≡ ok user
    → ((n : ℕ)
        → (create_user generate key input w).1.calls ≤ n
        → (create_user generate key input w).1.fault n ≡ none)
    → (token : String) × ((login sign compare_hash secret hours input.email input.password ip
          (create_user generate key input w).1).0
        ≡ ok (token, user))
create_user-login generate compare_hash sign key secret hours input ip w user accepts signs e fine =
    let (found, on, role, (salt, hashed)) = (create_user-Leads generate key input).at w tt user e in
    let ((token, same), v, run, later, q) =
      (login-Succeeds sign compare_hash secret hours input.email input.password ip user
          (accepts salt input.password user.password_hash hashed) (ap is_disabled on) signs).at
        (create_user generate key input w).1 (record { no_fault = fine }) found in
    (token, cc (run, q))
