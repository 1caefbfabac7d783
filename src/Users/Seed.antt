-- ===== src/Users/Seed.antt =====
-- `SeedAdmin` of internal/db/db.go.
use beetle_shield_backend.Prelude.{
  ℕ, ◌≡◌, ◌≢◌, refl, ap, ◌∙◌, Bool, true, false, String, Option, none, some, List, [], ◌∷◌, ◌++◌,
  ltb, count_where, if◌then◌else◌, arith,
}
use beetle_shield_backend.Model.{User, admin, active}
use beetle_shield_backend.Store.{Db, World, Result, ok, M, ◌>>=◌, pure, query, from_result}
use beetle_shield_backend.Store.Outcomes.{
  Leads, Leads-call, Leads-bind, Leads-fail, Leads-if, Leads-insert_row, Leads-pure, Leads-query,
}
use beetle_shield_backend.Users.Repository.{create_user_row, insert_if, inserted_or, user_has_email}
use beetle_shield_backend.Users.Tokens.{default_cost, hash_password}

abbrev pub admin_account : String → String → User
admin_account email hashed = record {
  id = 0;
  name = "系统管理员";
  email = email;
  password_hash = hashed;
  role = admin;
  department = "系统";
  status = active;
  last_login_at = none;
  created_at = 0;
  updated_at = 0;
}

abbrev pub stored_user : User → ℕ → ℕ → User
stored_user u id now = record u { id = id; created_at = now; updated_at = now }

module _ (generate_from_password : ℕ → String → ℕ → Result String) (duplicate_key : String) where
  abbrev pub seed_new : String → String → M (Unit {0})
  seed_new email password = do
    hashed ← hash_password generate_from_password password
    row ← create_user_row duplicate_key (admin_account email hashed)
    pure tt

  abbrev pub seed_if_absent : String → String → ℕ → M (Unit {0})
  seed_if_absent email password count = if ltb 0 count then pure tt else seed_new email password

  unfoldable pub seed_admin : String → String → M (Unit {0})
  seed_admin email password = do
    count ← query (λ d. count_where (user_has_email email) d.users)
    seed_if_absent email password count

  -- Nothing is added where an account has the address already; otherwise one row is, an enabled
  -- administrator with that address and a hash of that password.
  abbrev pub IsSeeded : List User → String → String → Db → Type 0
  IsSeeded users email password d =
      (count_where (user_has_email email) users ≢ 0 → d.users ≡ users)
      × (count_where (user_has_email email) users ≡ 0
          → (row : User) × (d.users ≡ users ++ (row ∷ []))
            × (row.email ≡ email)
            × (row.role ≡ admin)
            × (row.status ≡ active)
            × ((salt : ℕ) × (generate_from_password salt password default_cost
                  ≡ ok row.password_hash)))

  abbrev Same : List User → Db → Type 0
  Same users d = d.users ≡ users

  -- A hash that bcrypt has made of the password.
  abbrev IsHashOf : String → String → Type 0
  IsHashOf password hashed =
      (salt : ℕ) × (generate_from_password salt password default_cost ≡ ok hashed)

  added :
      (users : List User) (email password hashed : String) (id now : ℕ) (d : Db) (b : Bool)
      → Same users d
      → IsHashOf password hashed
      → count_where (user_has_email email) users ≡ 0
      → (u : User) → (insert_if b (stored_user (admin_account email hashed) id now) d).0 ≡ some u
      → IsSeeded users email password
          (insert_if b (stored_user (admin_account email hashed) id now) d).1
  added users email password hashed id now d true p h z u e = (
    λ nz. absurd (nz z),
    λ _. (stored_user (admin_account email hashed) id now, rw p refl, refl, refl, refl, h),
  )
  added users email password hashed id now d false p h z u e = cc (e)

  hashes :
      (users : List User) (password : String)
      → Leads
          (Same users)
          (hash_password generate_from_password password)
          (λ h d. Same users d × IsHashOf password h)
  unfolding hash_password from_result
  hashes users password =
      Leads-bind _
        (λ r d.
          Same users d × ((salt : ℕ) × (generate_from_password salt password default_cost ≡ r)))
        _ _ _ (Leads-call _ _ _ (λ w p. (p, (w.calls, refl))))
        (λ r. record { at = λ v p h e. (p.0, (p.1.0, p.1.1 ∙ e)) })

  seed_new-Leads :
      (users : List User) (email password : String)
      → count_where (user_has_email email) users ≡ 0
      → Leads (Same users) (seed_new email password) (λ _. IsSeeded users email password)
  unfolding create_user_row
  seed_new-Leads users email password z = Leads-bind _ _ _ _ _ (hashes users password) (λ hashed.
      Leads-bind _ (λ _. IsSeeded users email password) _ _ _
        (Leads-bind _ (λ o d. (u : User) → o ≡ some u → IsSeeded users email password d) _ _ _
          (Leads-insert_row _ _ _
            (λ id now d p u e. added users email password hashed id now d _ p.0 p.1 z u e))
          inserted)
        (λ _. Leads-pure _ _ _ (λ d q. q)))
    where
      inserted :
          (o : Option User)
          → Leads
              (λ d. (u : User) → o ≡ some u → IsSeeded users email password d)
              (inserted_or duplicate_key o)
              (λ _. IsSeeded users email password)
      inserted (some u) = Leads-pure _ _ _ (λ d q. q u refl)
      inserted none = Leads-fail _ _ _

  -- If the seeding succeeds, it has added nothing where an account had the address, and one row
  -- where none had, whatever other accounts there are: an enabled administrator with that address,
  -- whose stored hash bcrypt has made of that password.
  pub seed_admin_lem :
      (email password : String) (w : World)
      → (seed_admin email password w).0 ≡ ok tt
      → IsSeeded w.db.users email password (seed_admin email password w).1.db
  unfolding seed_admin
  seed_admin_lem email password w e = leads.at w refl tt e
    where
      decided :
          (n : ℕ)
          → Leads
              (λ d. Same w.db.users d × (n ≡ count_where (user_has_email email) d.users))
              (seed_if_absent email password n)
              (λ _. IsSeeded w.db.users email password)
      decided n = record {
        at = λ v p a e. (choose (p.1 ∙ ap (count_where (user_has_email email)) p.0)).at v p.0 a e;
      }
        where
          present : {C : Type 0} → ltb 0 n ≡ true → n ≡ 0 → C
          present t z = ground arith

          absent : {m : ℕ} → ltb 0 n ≡ false → n ≡ m → m ≡ 0
          absent f e = ground arith

          choose :
              n ≡ count_where (user_has_email email) w.db.users
              → Leads
                  (Same w.db.users)
                  (seed_if_absent email password n)
                  (λ _. IsSeeded w.db.users email password)
          choose same =
              Leads-if _ _ _ _ _
                (λ t. Leads-pure _ _ _ (λ d p. (λ nz. p, λ z. present t (same ∙ z))))
                (λ f. seed_new-Leads w.db.users email password (absent f same))

      leads :
          Leads
            (Same w.db.users)
            (seed_admin email password)
            (λ _. IsSeeded w.db.users email password)
      leads = Leads-bind _ _ _ _ _ (Leads-query _ _) decided
