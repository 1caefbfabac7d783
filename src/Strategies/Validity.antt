-- ===== src/Strategies/Validity.antt =====
-- Every stored strategy is valid: what the service's mutations keep.
use beetle_shield_backend.Prelude.{
  ℕ, ◌==◌, ◌++◌, count_where, update_where, ◌≡◌, refl, Bool, true, false, ◌||◌, not, String, List,
  [], ◌∷◌, if◌then◌else◌, All, All-append, All-update_where, delete_where,
}
use beetle_shield_backend.Prelude.Int.{ltb_bound, gtb_bound}
use beetle_shield_backend.Model.{Strategy}
use beetle_shield_backend.Store.{
  Db, World, Result, is_record_not_found, ok, err, fail, M, ◌>>=◌, continue,
}
use beetle_shield_backend.Store.Hoare.{
  Keeps, Keeps-bind, Keeps-attempt, Keeps-execute, Keeps-from_result, Keeps-guard, Keeps-if,
  Keeps-ignore, Keeps-insert_row, keeps_rules,
}
use beetle_shield_backend.Store.Outcomes.{Leads, Leads-bind, Leads-guard, Leads-keeps}
use beetle_shield_backend.Audit.{RecordAuditInput, record_audit}
use beetle_shield_backend.Strategies.Repository.{
  as_default, create_row, delete_row, find_regular, find_strategy, get_current_row, insert_strategy,
  name_exists, replace_strategy, save_current_row, save_row, strategy_has_id, update_row,
  with_existing,
}
use beetle_shield_backend.Strategies.Service.{
  audited, create_strategy, delete_found, delete_strategy, get_strategy, save_current,
  update_strategy, validate_strategy_payload,
}
use beetle_shield_backend.Strategies.Inputs.{
  SaveStrategyInput, StrategyPayloadInput, valid_dex_level, valid_sig_policy, valid_so_shell,
  validate_strategy_fields,
}

-- The four columns that the service validates.
abbrev pub IsValid : Strategy → Type 0
IsValid s =
    (valid_dex_level s.dex_level ≡ true)
    × (valid_so_shell s.so_shell ≡ true)
    × (not (ltb_bound s.so_strength 0 || gtb_bound s.so_strength 100) ≡ true)
    × (valid_sig_policy s.sig_policy ≡ true)

abbrev pub AllValid : Db → Type 0
AllValid d = All IsValid d.strategies

-- What validation has shown once it succeeds.
abbrev IsValidInput : SaveStrategyInput → Type 0
IsValidInput input =
    (valid_dex_level input.dex_level ≡ true)
    × (valid_so_shell input.so_shell ≡ true)
    × (not (ltb_bound input.so_strength 0 || gtb_bound input.so_strength 100) ≡ true)
    × (valid_sig_policy input.sig_policy ≡ true)

validate_strategy_fields-Leads :
    (input : SaveStrategyInput)
    → Leads AllValid (validate_strategy_fields input) (λ _ d. AllValid d × IsValidInput input)
unfolding validate_strategy_fields
validate_strategy_fields-Leads input = Leads-bind _ _ _ _ _ (Leads-guard _ _ _) (λ _.
    Leads-bind _ _ _ _ _ (Leads-guard _ _ _) (λ _. Leads-bind _ _ _ _ _ (Leads-guard _ _ _) (λ _.
      record {
        at = λ w p a e.
            let q =
              (Leads-guard
                  (λ d.
                    ((AllValid d × (valid_dex_level input.dex_level ≡ true))
                      × (valid_so_shell input.so_shell ≡ true))
                    × (not (ltb_bound input.so_strength 0 || gtb_bound input.so_strength 100)
                        ≡ true))
                  _ _).at
                w p a e in
            (q.0.0.0.0, (q.0.0.0.1, q.0.0.1, q.0.1, q.1));
      })))

-- If the first operation shows a fact when it succeeds, the rest may rely on it.
Keeps-after :
    {P : Db → Type 0} {A B : Type 0} (F : Type 0) (m : M A) (f : A → M B)
    → Keeps P m
    → Leads P m (λ _ d. P d × F)
    → (F → (a : A) → Keeps P (f a))
    → Keeps P (m >>= f)
unfolding ◌>>=◌
Keeps-after {P = P} {A = A} {B = B} F m f km lm kf = record {
  at = λ w p. split (m w) (km.at w p) (λ a e. (lm.at w p a e).1);
}
  where
    split : (r : Result A × World) → P r.1.db → ((a : A) → r.0 ≡ ok a → F) → P (continue f r).1.db
    split (ok a, w') p h = (kf (h a refl) a).at w' p
    split (err e, w') p h = p

insert_strategy-AllValid : (s : Strategy) → IsValid s → Keeps AllValid (insert_strategy s)
unfolding insert_strategy
insert_strategy-AllValid s v =
    Keeps-insert_row _ (λ id now d p. All-append IsValid d.strategies _ p (v, tt))

replace_strategy-AllValid : (s : Strategy) → IsValid s → Keeps AllValid (replace_strategy s)
unfolding replace_strategy
replace_strategy-AllValid s v = Keeps-bind _ _ (search keeps_rules) (λ now. Keeps-execute _ (λ d p.
    put (record s { updated_at = now }) d.strategies v p
      (count_where (strategy_has_id s.id) d.strategies == 0)))
  where
    put :
        (row : Strategy) (rows : List Strategy)
        → IsValid row
        → All IsValid rows
        → (b : Bool)
        → All IsValid (
            if b then rows ++ (row ∷ []) else update_where (strategy_has_id row.id) (λ _. row) rows)
    put row rows v' p true = All-append IsValid rows _ p (v', tt)
    put row rows v' p false =
        All-update_where IsValid (strategy_has_id row.id) (λ _. row) rows (λ t q u. v') p

save_row-AllValid : (s : Strategy) → IsValid s → Keeps AllValid (save_row s)
unfolding save_row
save_row-AllValid s v =
    Keeps-if _ _ _ (insert_strategy-AllValid s v) (replace_strategy-AllValid s v)

with_existing-AllValid :
    (s : Strategy) (r : Result Strategy) → IsValid s → Keeps AllValid (with_existing s r)
with_existing-AllValid s (ok existing) v = save_row-AllValid _ v
with_existing-AllValid s (err e) v =
    Keeps-if (is_record_not_found e) _ (fail e) (save_row-AllValid s v) (search keeps_rules)

save_current_row-AllValid : (s : Strategy) → IsValid s → Keeps AllValid (save_current_row s)
unfolding save_current_row get_current_row
save_current_row-AllValid s v =
    Keeps-bind _ _ (search keeps_rules) (λ r. with_existing-AllValid (as_default s) r v)

All-delete_where :
    (P : Strategy → Type 0) (p : Strategy → Bool) (ss : List Strategy)
    → All P ss
    → All P (delete_where p ss)
All-delete_where P p [] a = tt
All-delete_where P p (s ∷ ss) a = pick (All-delete_where P p ss a.1) (p s)
  where
    pick :
        All P (delete_where p ss)
        → (b : Bool) → All P (if b then delete_where p ss else s ∷ delete_where p ss)
    pick rest true = rest
    pick rest false = (a.0, rest)

delete_row-AllValid : (id : ℕ) → Keeps AllValid (delete_row id)
unfolding delete_row
delete_row-AllValid id = Keeps-execute _ (λ d p. All-delete_where IsValid _ d.strategies p)

record_audit-AllValid : (i : RecordAuditInput) → Keeps AllValid (record_audit i)
unfolding record_audit
record_audit-AllValid i = Keeps-ignore _ (Keeps-insert_row _ (λ id now d p. p))

audited-AllValid :
    (actor : ℕ) (ip : String) (detail : Result Strategy → String) (m : M Strategy)
    → Keeps AllValid m
    → Keeps AllValid (audited actor ip detail m)
audited-AllValid actor ip detail m k =
    Keeps-bind _ _ (Keeps-attempt _ k)
      (λ r. Keeps-bind _ _ (record_audit-AllValid _) (λ _. Keeps-from_result r))

validate_strategy_fields-AllValid :
    (input : SaveStrategyInput) → Keeps AllValid (validate_strategy_fields input)
unfolding validate_strategy_fields
validate_strategy_fields-AllValid input = search keeps_rules

save_current-Keeps :
    (input : SaveStrategyInput) (actor : ℕ) (ip : String)
    → Keeps AllValid (save_current input actor ip)
unfolding save_current
save_current-Keeps input actor ip = audited-AllValid _ _ _ _ (
    Keeps-after (IsValidInput input) _ _ (validate_strategy_fields-AllValid input)
      (validate_strategy_fields-Leads input) (λ v _. save_current_row-AllValid _ v))

validate_strategy_payload-AllValid :
    (input : StrategyPayloadInput) (id : ℕ) → Keeps AllValid (validate_strategy_payload input id)
unfolding validate_strategy_payload validate_strategy_fields name_exists
validate_strategy_payload-AllValid input id = search keeps_rules depth 16

validate_strategy_payload-Leads :
    (input : StrategyPayloadInput) (id : ℕ)
    → Leads AllValid
        (validate_strategy_payload input id)
        (λ _ d. AllValid d × IsValidInput input.fields)
unfolding validate_strategy_payload name_exists
validate_strategy_payload-Leads input id =
    Leads-bind _ _ _ _ _ (Leads-keeps AllValid _ (Keeps-guard _ _)) (λ _.
      Leads-bind _ _ _ _ _ (validate_strategy_fields-Leads input.fields)
        (λ _. Leads-keeps _ _ (search keeps_rules)))

create_strategy-Keeps :
    (input : StrategyPayloadInput) (actor : ℕ) (ip : String)
    → Keeps AllValid (create_strategy input actor ip)
unfolding create_strategy create_row
create_strategy-Keeps input actor ip = audited-AllValid _ _ _ _ (
    Keeps-after (IsValidInput input.fields) _ _ (validate_strategy_payload-AllValid input 0)
      (validate_strategy_payload-Leads input 0) (λ v _. insert_strategy-AllValid _ v))

update_strategy-Keeps :
    (id : ℕ) (input : StrategyPayloadInput) (actor : ℕ) (ip : String)
    → Keeps AllValid (update_strategy id input actor ip)
unfolding update_strategy update_row get_strategy find_regular
update_strategy-Keeps id input actor ip = audited-AllValid _ _ _ _ (
    Keeps-bind _ _ (search keeps_rules) (λ existing.
      Keeps-after (IsValidInput input.fields) _ _ (validate_strategy_payload-AllValid input id)
        (validate_strategy_payload-Leads input id) (λ v _. save_row-AllValid _ v)))

delete_strategy-Keeps : (id actor : ℕ) (ip : String) → Keeps AllValid (delete_strategy id actor ip)
unfolding delete_strategy find_strategy
delete_strategy-Keeps id actor ip = Keeps-bind _ _ (search keeps_rules) (λ found. after found)
  where
    after : (r : Result Strategy) → Keeps AllValid (delete_found id actor ip r)
    after (ok s) = search (keeps_rules, delete_row-AllValid, record_audit-AllValid)
    after (err e) = search (keeps_rules, record_audit-AllValid)

-- The mutations of the service, with their arguments.
pub data Mutation : Type 0 where
  save : SaveStrategyInput → ℕ → String → Mutation
  create : StrategyPayloadInput → ℕ → String → Mutation
  update : ℕ → StrategyPayloadInput → ℕ → String → Mutation
  delete : ℕ → ℕ → String → Mutation

abbrev pub mutate : Mutation → World → World
mutate (save input actor ip) w = (save_current input actor ip w).1
mutate (create input actor ip) w = (create_strategy input actor ip w).1
mutate (update id input actor ip) w = (update_strategy id input actor ip w).1
mutate (delete id actor ip) w = (delete_strategy id actor ip w).1

abbrev pub mutations : List Mutation → World → World
mutations [] w = w
mutations (m ∷ ms) w = mutations ms (mutate m w)

-- If every stored strategy is valid, so it is behind every sequence of mutations of the service,
-- whatever they ask for and whichever of them fail: the level, the shell and the policy are known,
-- and the strength lies between 0 and 100.
pub mutations-AllValid :
    (ms : List Mutation) (w : World) → AllValid w.db → AllValid (mutations ms w).db
mutations-AllValid [] w v = v
mutations-AllValid (m ∷ ms) w v = mutations-AllValid ms (mutate m w) (one m)
  where
    one : (m : Mutation) → AllValid (mutate m w).db
    one (save input actor ip) = (save_current-Keeps input actor ip).at w v
    one (create input actor ip) = (create_strategy-Keeps input actor ip).at w v
    one (update id input actor ip) = (update_strategy-Keeps id input actor ip).at w v
    one (delete id actor ip) = (delete_strategy-Keeps id actor ip).at w v
