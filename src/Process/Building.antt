-- ===== src/Process/Building.antt =====
-- The `ExitStack` of `join`: actions that may raise, on a process and the stack of what is to be
-- undone if one does.
use tinyray.Common.{ℕ, List, [], ◌∷◌, some}
use tinyray.Errors.{Result, ok, err}
use tinyray.Rpc.{Error}
use tinyray.Process.{Process, close_server, leave_client}

-- cleanup.callback(server.close) and cleanup.callback(c.leave)
pub data Undo : Type 0 where
  closes : ℕ → Undo
  leaves : ℕ → Undo

pub record Building : Type 0 where
  pub process : Process
  pub cleanup : List Undo

unfoldable pub undo : Undo → Process → Process
undo (closes k) p = close_server (some k) p
undo (leaves k) p = leave_client k p

-- ExitStack.__exit__: last in, first out
unfoldable pub unwind : List Undo → Process → Process
unwind [] p = p
unwind (u ∷ cleanup) p = unwind cleanup (undo u p)

abbrev pub Act {ℓ} : Type ℓ → Type ℓ
Act A = Building → Result Error A × Building

abbrev pub bind_result {ℓ κ} :
    {A : Type ℓ} {B : Type κ} → Result Error A × Building → (A → Act B) → Result Error B × Building
bind_result (ok a, b) f = f a b
bind_result (err e, b) f = (err e, b)

infixl 5 ◌>>=◌ ◌>>◌
abbrev pub ◌>>=◌ {ℓ κ} : {A : Type ℓ} {B : Type κ} → Act A → (A → Act B) → Act B
(m >>= f) b = bind_result (m b) f

abbrev pub ◌>>◌ {ℓ κ} : {A : Type ℓ} {B : Type κ} → Act A → Act B → Act B
m >> k = m >>= λ _. k

abbrev pub lift {ℓ} : {A : Type ℓ} → Result Error A → Act A
lift r b = (r, b)

abbrev pub pure {ℓ} : {A : Type ℓ} → A → Act A
pure a b = (ok a, b)

-- server = _MethodServer(…); cleanup.callback(server.close)
unfoldable pub open_server : ℕ → Act (Unit {0})
open_server k b = (
  ok tt,
  record {
    process = record b.process { listening = k ∷ b.process.listening };
    cleanup = closes k ∷ b.cleanup;
  },
)

-- c = _Client(…); cleanup.callback(c.leave)
unfoldable pub open_client : ℕ → Act (Unit {0})
open_client k b = (
  ok tt,
  record {
    process = record b.process { beating = k ∷ b.process.beating };
    cleanup = leaves k ∷ b.cleanup;
  },
)
