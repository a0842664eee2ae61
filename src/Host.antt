-- ===== src/Host.antt =====
-- What surrounds the program: the interpreter's environment, the file system, the clock, hashing, the
-- token library and the Oracle driver. Every answer may depend on all that happened before, which is
-- the list of events, the latest first.
pub mod Keeps
pub mod Yields
pub mod Answers
pub mod Delivers
pub mod Escapes
pub mod Costs
use cognic_tool_oracle_schem.Base.{
  if◌then◌else◌, ◌≡◌, refl, ℕ, Bool, true, false, List, [], ◌∷◌, Option, none, some, ℤ, Text, Bytes,
}
use cognic_tool_oracle_schem.Python.Exception.{
  Exc, os_error, plain, base, Result, ok, raised, is_ok,
}
use cognic_tool_oracle_schem.Python.Str.{Unicode}
use cognic_tool_oracle_schem.Readonly.Cell.{Cell}
use cognic_tool_oracle_schem.QueryContext.{Jws, Loaded}
use cognic_tool_oracle_schem.Readonly.Replay.{Seen}

-- The arguments of `oracledb.connect_async`.
pub record ConnectArgs : Type 0 where
  pub user : Text
  pub password : Text
  pub dsn : Text

-- Bind variables with their values.
abbrev pub Binds : Type 0
Binds = List (Text × Text)

-- Calls of the surroundings, with their arguments, and whether the call returned. A connection is
-- known by a number that the driver gives.
pub data Event : Type 0 where
  key_file_read : Text → Event
  credential_resolved : Text → Event
  credential_stat : List Text → Event
  credential_read : List Text → Event
  connect_failed : ConnectArgs → Event
  connected : ConnectArgs → ℕ → Event
  timeout_set : ℕ → ℤ → Bool → Event
  cursor_opened : ℕ → Bool → Event
  procedure_called : ℕ → Text → List Text → Bool → Event
  executed : ℕ → Text → Bool → Event
  fetched_all : ℕ → Bool → Event
  cursor_closed : ℕ → Event
  connection_closed : ℕ → Bool → Event
  pool_created : ConnectArgs → Option ℕ → Event
  pool_closed : ℕ → Bool → Event
  pool_queried : ℕ → Text → Binds → Bool → Event

-- `os.stat`: the size, and the time of the last change.
pub record Stat : Type 0 where
  pub st_size : ℕ
  -- a float, by its `repr`
  pub st_mtime : Text

pub record Host : Type 1 where
  pub unicode : Unicode
  -- `os.environ.get`
  pub env : Text → Option Text
  -- `int(time.time())`
  pub clock : List Event → ℤ
  -- floats: `float(text)`, `> 0`, `30.0` and `int(x * 1000)`
  pub Seconds : Type 0
  pub float_of : Text → Option Seconds
  pub is_positive : Seconds → Bool
  pub default_timeout : Seconds
  pub milliseconds : Seconds → Result ℤ
  -- files; a resolved path is the list of its parts
  pub read_key : List Event → Text → Result Bytes
  pub mount_dir : List Event → Text → Result (List Text)
  pub resolve : List Event → Text → Result (List Text)
  pub stat : List Event → List Text → Result Stat
  pub read_bytes : List Event → List Text → Result Bytes
  -- `datetime.fromtimestamp(mtime, tz=UTC).isoformat()`
  pub iso_utc : Text → Result Text
  -- `hashlib.sha256(data).hexdigest()`
  pub sha256 : Bytes → Text
  pub jws : Text → Bytes → Jws
  pub loads : Bytes → Loaded
  -- the Oracle driver; `description` has the column names
  pub connect : List Event → ConnectArgs → Result ℕ
  pub set_timeout : List Event → ℕ → ℤ → Result (Unit {0})
  pub open_cursor : List Event → ℕ → Result (Unit {0})
  pub callproc : List Event → ℕ → Text → List Text → Result (Unit {0})
  pub execute : List Event → ℕ → Text → Result (Unit {0})
  pub description : List Event → ℕ → Option (List Text)
  pub fetchall : List Event → ℕ → Result (List (List Cell))
  pub close : List Event → ℕ → Result (Unit {0})
  -- the pool of the metadata tools; acquiring a connection, executing, `fetchmany(n)` and the release of
  -- the connection are one call
  pub create_pool : List Event → ConnectArgs → ℤ → Result ℕ
  pub close_pool : List Event → ℕ → Result (Unit {0})
  pub fetch_many : List Event → ℕ → Text → Binds → ℤ → Result (List (List Cell))
  -- `v.strip() if v else None` for a value that is neither None nor a text
  pub strip_value : Cell → Result Cell

-- What the process keeps from call to call.
pub record World : Type 0 where
  pub seen : Seen
  pub events : List Event
  pub pool : Option ℕ

abbrev pub M {ℓ} : Type ℓ → Type ℓ
M A = World → Result A × World

unfoldable pub pure {ℓ} : {A : Type ℓ} → A → M A
pure a w = (ok a, w)

unfoldable pub raise {ℓ} : {A : Type ℓ} → Exc → M A
raise e w = (raised e, w)

-- A pure result in a block.
unfoldable pub lift {ℓ} : {A : Type ℓ} → Result A → M A
lift r w = (r, w)

abbrev pub continue {ℓ κ} : {A : Type ℓ} {B : Type κ} → Result A → (A → M B) → M B
continue (ok a) f w = f a w
continue (raised e) f w = (raised e, w)

-- One call of the surroundings.
unfoldable pub perform {ℓ} : {A : Type ℓ} → (List Event → Result A) → (Result A → Event) → M A
perform respond event w = let r = respond w.events in (r, record w { events = event r ∷ w.events })

unfoldable pub gets {ℓ} : {A : Type ℓ} → (List Event → A) → M A
gets f w = (ok (f w.events), w)

-- `except Exception as exc`, and `except OSError`.
unfoldable pub is_exception : Exc → Bool
is_exception e = elim e.kind [ base ↦ false | _ ↦ true ]

unfoldable pub is_os_error : Exc → Bool
is_os_error e = elim e.kind [ os_error ↦ true | _ ↦ false ]

abbrev pub handle {ℓ} : {A : Type ℓ} → Result A → (Exc → M A) → (Exc → Bool) → M A
handle (ok a) handler test w = (ok a, w)
handle (raised e) handler test w = if test e then handler e w else (raised e, w)

unfoldable pub catch {ℓ} : {A : Type ℓ} → (Exc → Bool) → M A → (Exc → M A) → M A
catch test m handler w = let (r, w') = m w in handle r handler test w'

-- `try … finally`: an exception of the cleanup takes the place of the result.
abbrev pub after_cleanup {ℓ} : {A : Type ℓ} → Result A → Result (Unit {0}) → Result A
after_cleanup r (ok _) = r
after_cleanup r (raised e) = raised e

unfoldable pub finally {ℓ} : {A : Type ℓ} → M A → M (Unit {0}) → M A
finally m cleanup w = let (r, w') = m w in let (c, w'') = cleanup w' in (after_cleanup r c, w'')

-- Opening this opens the other ways to build a block too.
infixl 5 ◌>>=◌ ◌>>◌
unfoldable pub ◌>>=◌ {ℓ κ} : {A : Type ℓ} {B : Type κ} → M A → (A → M B) → M B
unfolding pure raise lift perform gets catch finally
◌>>=◌ m f w = let (r, w') = m w in continue r f w'

abbrev pub ◌>>◌ {ℓ κ} : {A : Type ℓ} {B : Type κ} → M A → M B → M B
m >> k = m >>= λ _. k

pub continue-pure {ℓ κ} :
    {A : Type ℓ} {B : Type κ} (r : Result A) (f : A → B) (w : World)
    → (continue r (λ a. pure (f a)) w).1 ≡ w
unfolding pure
continue-pure (ok a) f w = refl
continue-pure (raised e) f w = refl
