-- ===== src/Users/Tokens.antt =====
-- internal/pkg/jwtutil/jwt.go and internal/pkg/hash/password.go, over bcrypt and golang-jwt.
-- Times are in nanoseconds, and in claims in seconds; a duration is an `int64`.
use beetle_shield_backend.Prelude.{ℕ, suc, Bool, String, ◌+◌, ◌-◌, ◌/◌, leb, if◌then◌else◌}
use beetle_shield_backend.Prelude.Int.{ℤ, pos, negsuc, times64}
use beetle_shield_backend.Store.{Result, ok, err, M, ◌>>=◌, call, from_result, time_now}

pub record Claims : Type 0 where
  pub user_id : ℕ
  pub role : String
  pub expires_at : ℤ
  pub issued_at : ℤ

abbrev hour : ℕ
hour = 3600000000000

-- `time.Duration(hours) * time.Hour`
abbrev pub duration_hours : ℤ → ℤ
duration_hours hours = times64 hours hour

-- `t.Add(d)`
abbrev pub add_duration : ℕ → ℤ → ℤ
add_duration t (pos d) = pos (t + d)
add_duration t (negsuc d) = if leb (suc d) t then pos (t - suc d) else negsuc (d - t)

-- `jwt.NewNumericDate`: a time is cut to whole seconds.
abbrev pub numeric_date : ℤ → ℤ
numeric_date (pos t) = pos (t / 1000000000)
numeric_date (negsuc t) = negsuc (t / 1000000000)

module _ (sign : Claims → String → Result String) where
  -- `GenerateToken`: `sign` is golang-jwt's `SignedString` with HS256.
  unfoldable pub generate_token : String → ℕ → String → ℤ → M String
  generate_token secret user_id role expire_hours = do
    now ← time_now
    issued ← time_now
    from_result (
        sign
          (record {
            user_id = user_id;
            role = role;
            expires_at = numeric_date (add_duration now (duration_hours expire_hours));
            issued_at = numeric_date (pos issued);
          })
          secret)

-- `bcrypt.DefaultCost`
abbrev pub default_cost : ℕ
default_cost = 10

module _ (generate_from_password : ℕ → String → ℕ → Result String) where
  -- `HashPassword`. The salt is drawn anew by each call: the first argument.
  unfoldable pub hash_password : String → M String
  hash_password password =
      call (λ w. (generate_from_password w.calls password default_cost, w)) >>= from_result

-- `err == nil`
abbrev pub no_error : Result (Unit {0}) → Bool
no_error (ok _) = Bool.true
no_error (err _) = Bool.false

module _ (compare_hash_and_password : String → String → Result (Unit {0})) where
  unfoldable pub check_password : String → String → Bool
  check_password hashed password = no_error (compare_hash_and_password hashed password)
