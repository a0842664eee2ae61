-- ===== src/Oracle.antt =====
-- oracle.py: the owner guard, and the pool of the metadata tools. The parameter by which tests hand
-- `fetch` a pool of theirs is left out.
pub mod Page
pub mod Lifecycle
pub mod Recovery
pub mod Asks
pub mod Tasks
use cognic_tool_oracle_schem.Base.{
  ℕ, zero, suc, ◌-◌, Bool, true, false, not, ◌&&◌, List, [], ◌∷◌, Option, none, some,
}
use cognic_tool_oracle_schem.Base.{
  if◌then◌else◌, contains, is_empty, length, take, leb_ℤ, ℤ, pos, negsuc, Text, lit,
}
use cognic_tool_oracle_schem.Python.Exception.{
  Exc, plain_error, Result, ok, raised, is_ok, value_of,
}
use cognic_tool_oracle_schem.Python.Str.{Unicode, upper, strip}
use cognic_tool_oracle_schem.Config.{Config}
use cognic_tool_oracle_schem.Credential.{CredentialRead, read_credential}
use cognic_tool_oracle_schem.Readonly.Cell.{Cell}
use cognic_tool_oracle_schem.Readonly.Execute.{is_auth_error}
use cognic_tool_oracle_schem.Host.{
  Binds, ConnectArgs, Event, pool_created, pool_closed, pool_queried, Host, World, M, pure, raise,
  perform, catch, is_exception, ◌>>=◌, ◌>>◌,
}

abbrev pub owner_not_allowed : Exc
owner_not_allowed = plain_error (lit "OwnerNotAllowed")

abbrev pub no_pool : Exc
no_pool = plain_error (lit "RuntimeError")

module _ (u : Unicode) where
  unfoldable pub guard_owner : Text → Config → Result Text
  guard_owner owner cfg =
      let norm = upper u (strip u owner) in
      if not (is_empty cfg.allowed_owners) && not (contains norm cfg.allowed_owners)
      then raised owner_not_allowed
      else ok norm

-- `xs[:n]`
abbrev pub slice_to {ℓ} : {A : Type ℓ} → ℤ → List A → List A
slice_to (pos n) xs = take n xs
slice_to (negsuc n) xs = take (length xs - suc n) xs

-- `n + 1`
abbrev pub next : ℤ → ℤ
next (pos n) = pos (suc n)
next (negsuc zero) = pos zero
next (negsuc (suc n)) = negsuc n

-- `len(xs) > n`
abbrev pub is_longer {ℓ} : {A : Type ℓ} → List A → ℤ → Bool
is_longer xs n = not (leb_ℤ (pos (length xs)) n)

unfoldable pub set_pool : Option ℕ → M (Unit {0})
set_pool p w = (ok tt, record w { pool = p })

unfoldable pub get_pool : M (Option ℕ)
get_pool w = (ok w.pool, w)

unfoldable pub require_pool : M ℕ
require_pool = do found ← get_pool; elim found [ none ↦ raise no_pool | some pool ↦ pure pool ]

module _ (h : Host) where
  unfoldable pub init_pool : Config → M (Unit {0})
  init_pool cfg = do
    credential ← read_credential h cfg.oracle_password_file
    let args : ConnectArgs = record {
      user = cfg.oracle_user;
      password = credential.password;
      dsn = cfg.oracle_dsn;
    }
    pool ←
        perform (λ past. h.create_pool past args cfg.pool_max) (λ r. pool_created args (value_of r))
    set_pool (some pool)

  unfoldable pub close_pool : M (Unit {0})
  close_pool = do
    found ← get_pool
    elim found [
      | none ↦ pure tt
      | some pool ↦ (do
        perform (λ past. h.close_pool past pool) (λ r. pool_closed pool (is_ok r))
        set_pool none)
    ]

  unfoldable pub fetch_once : ℕ → Text → Binds → ℤ → M (List (List Cell) × Bool)
  fetch_once pool sql binds limit = do
    fetched ←
        perform (λ past. h.fetch_many past pool sql binds (next limit))
          (λ r. pool_queried pool sql binds (is_ok r))
    pure (slice_to limit fetched, is_longer fetched limit)

  -- What follows the first try: after an ORA-01017 the pool is made anew with a fresh credential.
  unfoldable pub fetch_again : Text → Binds → ℤ → Config → Exc → M (List (List Cell) × Bool)
  fetch_again sql binds limit cfg exc =
      if not (is_auth_error exc)
      then raise exc
      else (do close_pool; init_pool cfg; pool ← require_pool; fetch_once pool sql binds limit)

  unfoldable pub fetch : Text → Binds → ℤ → Config → M (List (List Cell) × Bool)
  fetch sql binds limit cfg = do
    pool ← require_pool
    catch is_exception (fetch_once pool sql binds limit) (fetch_again sql binds limit cfg)
