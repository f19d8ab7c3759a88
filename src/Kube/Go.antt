-- ===== src/Kube/Go.antt =====
-- Go functions with an `error` result: `x, err := f(); if err != nil { return err }` is a bind.
use capa_eni_controller.Prelude.{ℕ, String}
use capa_eni_controller.Kube.Prog.{
  Prog, ret, call, Result, ok, err, ApiError, not_found, Error, api, wrapped,
}

abbrev pub Go : Type 0 → Type 0
Go A = Prog (Result Error A)

abbrev pub pure : {A : Type 0} → A → Go A
pure a = ret (ok a)

abbrev pub fail : {A : Type 0} → Error → Go A
fail e = ret (err e)

infixl 5 ◌>>=◌ ◌>>◌
abbrev pub ◌>>=◌ : {A B : Type 0} → Go A → (A → Go B) → Go B
ret (ok a) >>= f = f a
ret (err e) >>= f = ret (err e)
call o k >>= f = call o (λ r. k r >>= f)

abbrev pub ◌>>◌ : {A B : Type 0} → Go A → Go B → Go B
m >> n = m >>= λ _. n

-- `return err`, and `return fmt.Errorf(msg + ": %w", err)`.
abbrev pub plain : {A : Type 0} → Result ApiError A → Result Error A
plain (ok a) = ok a
plain (err e) = err (api e)

abbrev pub wrap : {A : Type 0} → String → Result ApiError A → Result Error A
wrap msg (ok a) = ok a
wrap msg (err e) = err (wrapped msg e)

-- ctrl.Result; a duration is a count of nanoseconds.
pub record ReconcileResult : Type 0 where
  pub requeue_after : ℕ

-- ctrl.Result{}
abbrev pub done : ReconcileResult
done = record { requeue_after = 0 }

-- `return ctrl.Result{}, client.IgnoreNotFound(err)`
abbrev pub ignore_not_found : ApiError → Go ReconcileResult
ignore_not_found not_found = pure done
ignore_not_found e = fail (api e)
