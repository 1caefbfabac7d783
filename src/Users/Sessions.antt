-- ===== src/Users/Sessions.antt =====
-- What a login shows, and that an account that was created can log in.
use beetle_shield_backend.Prelude.{
  ℕ, ◌≡◌, refl, ap, sym, subst, false, not, String, some, first_where,
}
use beetle_shield_backend.Prelude.Int.{ℤ}
use beetle_shield_backend.Model.{User, is_disabled}
use beetle_shield_backend.Store.{Db, World, Result, ok, err, Error, ◌>>=◌, from_result}
use beetle_shield_backend.Store.Outcomes.{
  Leads, Leads-bind, Leads-attempt, Leads-first, Leads-any, Leads-fail, Leads-given, Leads-if,
  Leads-pure, Leads-imp,
}
use beetle_shield_backend.Store.Success.{
  Succeeds, Succeeds-attempt, Succeeds-bind, Succeeds-execute, Succeeds-first, Succeeds-from_result,
  Succeeds-given, Succeeds-ignore, Succeeds-imp, Succeeds-insert_row, Succeeds-pure,
  Succeeds-time_now,
}
use beetle_shield_backend.Audit.{record_audit}
use beetle_shield_backend.Users.Repository.{
  user_has_email, find_by_email, update_last_login, role_text,
}
use beetle_shield_backend.Users.Tokens.{
  Claims, add_duration, numeric_date, check_password, duration_hours, generate_token, no_error,
}
use beetle_shield_backend.Users.Login.{login, login_found, issue, refuse}

no_error-lem : (r : Result (Unit {0})) → not (no_error r) ≡ false → r ≡ ok tt
no_error-lem (ok x) e = refl
no_error-lem (err x) e = cc

module _ (sign : Claims → String → Result String)
    (compare_hash : String → String → Result (Unit {0})) (secret : String) (hours : ℤ) where
  -- The token is signed for the account, with its key and its role, and expires the configured
  -- number of hours after some time.
  abbrev pub IsTokenOf : User → String → Type 0
  IsTokenOf user token =
      (claims : Claims) × (sign claims secret ≡ ok token)
      × (claims.user_id ≡ user.id)
      × (claims.role ≡ role_text user.role)
      × ((now : ℕ) × (claims.expires_at ≡ numeric_date (add_duration now (duration_hours hours))))

  -- The account has the address, its password is the one given, it is not disabled, and the token
  -- is signed for it.
  abbrev pub IsSession : Db → String → String → String × User → Type 0
  IsSession d email password (token, user) =
      (first_where (user_has_email email) d.users ≡ some user)
      × (compare_hash user.password_hash password ≡ ok tt)
      × (is_disabled user.status ≡ false)
      × IsTokenOf user token

  generate_token-Leads :
      (P : Db → Type 0) (user : User)
      → Leads P
          (generate_token sign secret user.id (role_text user.role) hours)
          (λ token _. IsTokenOf user token)
  unfolding generate_token ◌>>=◌
  generate_token-Leads P user = record {
    at = λ w p token e. (_, e, refl, refl, (w.clock w.calls, refl));
  }

  refuse-Leads :
      (P : Db → Type 0) (Q : String × User → Db → Type 0) (email ip : String) (e : Error)
      → Leads P (refuse email ip e) Q
  refuse-Leads P Q email ip e =
      Leads-bind _ (λ _ _. Unit) _ _ _ (Leads-any _ _) (λ _. Leads-fail _ _ _)

  issue-Leads :
      (P : Db → Type 0) (ip : String) (user : User)
      → Leads P
          (issue sign compare_hash secret hours ip user)
          (λ s _. (s.1 ≡ user) × IsTokenOf user s.0)
  issue-Leads P ip user = Leads-bind _ _ _ _ _ (generate_token-Leads P user) (λ token.
      Leads-given _ _ _ (λ signed.
        Leads-bind _ (λ _ _. Unit) _ _ _ (Leads-any _ _)
          (λ _.
            Leads-bind _ (λ _ _. Unit) _ _ _ (Leads-any _ _)
              (λ _. Leads-pure _ _ _ (λ d p. (refl, signed))))))

  -- The login goes on with an account that has the address.
  abbrev IsFound : Db → String → Result User → Type 0
  IsFound d email r = (u : User) → r ≡ ok u → first_where (user_has_email email) d.users ≡ some u

  login_found-Leads :
      (d : Db) (email password ip : String) (r : Result User)
      → Leads
          (λ _. IsFound d email r)
          (login_found sign compare_hash secret hours email password ip r)
          (λ s _. IsSession d email password s)
  unfolding check_password
  login_found-Leads d email password ip (err e) = refuse-Leads _ _ email ip _
  login_found-Leads d email password ip (ok user) = Leads-given _ _ _ (λ found.
      Leads-if _ _ _ _ _ (λ wrong. refuse-Leads _ _ email ip _)
        (λ right.
          Leads-if _ _ _ _ _ (λ off. refuse-Leads _ _ email ip _)
            (λ on.
              Leads-imp _ _ _ _
                (λ s x q.
                  let same : s.1 ≡ user = q.0 in
                  (
                    found s.1 (ap ok (sym same)),
                    no_error-lem _ (
                        subst (λ u. not (no_error (compare_hash u.password_hash password)) ≡ false)
                          (sym same) right),
                    subst (λ u. is_disabled u.status ≡ false) (sym same) on,
                    subst (λ u. IsTokenOf u s.0) (sym same) q.1,
                  ))
                (issue-Leads _ ip user))))

  login-Leads :
      (d : Db) (email password ip : String)
      → Leads
          (λ x. x ≡ d)
          (login sign compare_hash secret hours email password ip)
          (λ s _. IsSession d email password s)
  unfolding login find_by_email
  login-Leads d email password ip =
      Leads-bind _ (λ r _. IsFound d email r) _ _ _
        (Leads-imp _ _ _ _
          (λ r x h u e.
            subst (λ y. first_where (user_has_email email) y.users ≡ some u) (h u e).0 (h u e).1)
          (Leads-attempt _ _ _ (Leads-first (λ x. x ≡ d) _)))
        (login_found-Leads d email password ip)

  -- If a login succeeds, the account that it returns is the one with the address, its stored hash
  -- accepts the password, it is not disabled, and the token is signed for its key and its role,
  -- with an expiry the configured number of hours after some time.
  pub login-IsSession :
      (email password ip : String) (w : World) (session : String × User)
      → (login sign compare_hash secret hours email password ip w).0 ≡ ok session
      → IsSession w.db email password session
  login-IsSession email password ip w session e =
      (login-Leads w.db email password ip).at w refl session e

  abbrev pub IsAccount : String → User → Db → Type 0
  IsAccount email user d = first_where (user_has_email email) d.users ≡ some user

  -- Where no call fails and the library signs, a token is issued.
  issue-Succeeds :
      (ip : String) (user : User)
      → ((claims : Claims) → (t : String) × (sign claims secret ≡ ok t))
      → Succeeds (λ _. Unit) (issue sign compare_hash secret hours ip user) (λ s _. s.1 ≡ user)
  unfolding generate_token update_last_login record_audit
  issue-Succeeds ip user signs =
      Succeeds-bind _ (λ _ _. Unit) _ _ _
        (Succeeds-bind _ _ _ _ _ (Succeeds-time_now _)
          (λ now. Succeeds-bind _ _ _ _ _ (Succeeds-time_now _) (λ issued. signed _ (signs _))))
        (λ token.
          Succeeds-bind _ (λ _ _. Unit) _ _ _
            (Succeeds-ignore _ (λ _. Unit) _
              (Succeeds-bind _ _ _ _ _ (Succeeds-time_now _) (λ now.
                Succeeds-bind _ _ _ _ _ (Succeeds-time_now _)
                  (λ u. Succeeds-execute _ _ _ (λ d p. tt)))))
            (λ _.
              Succeeds-bind _ (λ _ _. Unit) _ _ _
                (Succeeds-ignore _ (λ _. Unit) _ (Succeeds-insert_row _ _ _ (λ id now d p. tt)))
                (λ _. Succeeds-pure _ _ _ (λ d p. refl))))
    where
      signed :
          (r : Result String)
          → (t : String) × (r ≡ ok t)
          → Succeeds (λ _. Unit) (from_result r) (λ _ _. Unit)
      signed (ok t) q = Succeeds-imp _ _ _ _ (λ a d h. tt) (Succeeds-from_result _ t)
      signed (err e) q = cc (q.1)

  login_found-Succeeds :
      (email password ip : String) (user : User)
      → compare_hash user.password_hash password ≡ ok tt
      → is_disabled user.status ≡ false
      → ((claims : Claims) → (t : String) × (sign claims secret ≡ ok t))
      → Succeeds
          (λ _. Unit)
          (login_found sign compare_hash secret hours email password ip (ok user))
          (λ s _. s.1 ≡ user)
  unfolding check_password
  login_found-Succeeds email password ip user right on signs =
      rw (right, on) (issue-Succeeds ip user signs)

  -- An enabled account logs in with its password.
  pub login-Succeeds :
      (email password ip : String) (user : User)
      → compare_hash user.password_hash password ≡ ok tt
      → is_disabled user.status ≡ false
      → ((claims : Claims) → (t : String) × (sign claims secret ≡ ok t))
      → Succeeds
          (IsAccount email user)
          (login sign compare_hash secret hours email password ip)
          (λ s _. s.1 ≡ user)
  unfolding login find_by_email
  login-Succeeds email password ip user right on signs =
      Succeeds-bind _ (λ r _. r ≡ ok user) _ _ _
        (Succeeds-imp _ _ _ _ (λ r d h. cc (h.1, h.2.0, h.2.1))
          (Succeeds-attempt _ _ _ (Succeeds-first (IsAccount email user) _ (λ d p. (user, p)))))
        (λ r.
          Succeeds-given _ _ _
            (λ e. rw e (login_found-Succeeds email password ip user right on signs)))
