-- ===== src/Store/Failures.antt =====
-- What an operation that fails keeps of the tables.
use beetle_shield_backend.Prelude.{suc, ◌≡◌, refl, String, Option, none, some}
use beetle_shield_backend.Store.Base.{
  Error, Result, ok, err, Db, World, M, ◌>>=◌, continue, map_error, call, external, ignore,
}
use beetle_shield_backend.Store.Hoare.{Keeps}
use beetle_shield_backend.Store.Statements.{execute}

-- If the operation fails, a property of the tables that held before holds after it.
pub record FailsKeeping {A : Type 0} (P : Db → Type 0) (m : M A) : Type 0 where
  pub at : (w : World) → P w.db → (e : Error) → (m w).0 ≡ err e → P (m w).1.db

module _ {P : Db → Type 0} {A : Type 0} where
  pub FailsKeeping-Keeps : (m : M A) → Keeps P m → FailsKeeping P m
  FailsKeeping-Keeps m k = record { at = λ w p e h. k.at w p }

  -- A statement that fails changes nothing, whatever it changes if it succeeds.
  pub FailsKeeping-execute : (f : Db → A × Db) → FailsKeeping P (execute f)
  unfolding execute call
  FailsKeeping-execute f = record { at = λ w p. split w p (w.fault w.calls) }
    where
      split :
          (w : World)
          → P w.db
          → (o : Option String)
          → let r : Result A × World = elim o [
            | some e ↦ (err (external e), record w { calls = suc w.calls })
            | none ↦ (ok (f w.db).0, record w { db = (f w.db).1; calls = suc w.calls })
          ] in
            (e : Error) → r.0 ≡ err e → P r.1.db
      split w p none e h = cc (h)
      split w p (some x) e h = p

  pub FailsKeeping-map_error :
      (g : Error → Error) (m : M A) → FailsKeeping P m → FailsKeeping P (map_error g m)
  unfolding map_error
  FailsKeeping-map_error g m h = record { at = λ w p. split (m w) (h.at w p) }
    where
      split :
          (r : Result A × World)
          → ((e : Error) → r.0 ≡ err e → P r.1.db)
          → let s : Result A × World = elim r.0 [ ok a ↦ (ok a, r.1) | err e ↦ (err (g e), r.1) ] in
            (e : Error) → s.0 ≡ err e → P s.1.db
      split (ok a, w) q e h = cc (h)
      split (err x, w) q e h = q x refl

module _ {P : Db → Type 0} {A B : Type 0} where
  -- The first part keeps the property, so only the rest has to keep it where it fails.
  pub FailsKeeping-bind :
      (m : M A) (f : A → M B)
      → Keeps P m
      → ((a : A) → FailsKeeping P (f a))
      → FailsKeeping P (m >>= f)
  unfolding ◌>>=◌
  FailsKeeping-bind m f hm hf = record { at = λ w p. split (m w) (hm.at w p) }
    where
      split :
          (r : Result A × World)
          → P r.1.db
          → (e : Error) → (continue f r).0 ≡ err e
          → P (continue f r).1.db
      split (ok a, w) p e h = (hf a).at w p e h
      split (err x, w) p e h = p

  -- What follows never fails.
  pub FailsKeeping-then_ignore :
      (m : M A) (k : M B) → FailsKeeping P m → FailsKeeping P (m >>= λ _. ignore k)
  unfolding ◌>>=◌ ignore
  FailsKeeping-then_ignore m k h = record { at = λ w p. split (m w) (h.at w p) }
    where
      split :
          (r : Result A × World)
          → ((e : Error) → r.0 ≡ err e → P r.1.db)
          → (e : Error) → (continue (λ _. ignore k) r).0 ≡ err e
          → P (continue (λ _. ignore k) r).1.db
      split (ok a, w) q e x = cc (x)
      split (err y, w) q e x = q y refl
