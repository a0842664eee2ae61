-- ===== src/Server/Stuck.antt =====
-- The metadata tools in a process whose pool is gone.
use cognic_tool_oracle_schem.Base.{◌≡◌, refl, List, [], ◌∷◌, none, ℤ, Text}
use cognic_tool_oracle_schem.Python.Exception.{Result, ok, raised}
use cognic_tool_oracle_schem.Config.{Config}
use cognic_tool_oracle_schem.Oracle.{get_pool, require_pool, fetch}
use cognic_tool_oracle_schem.Readonly.Run.Events.{IsPoolProperty}
use cognic_tool_oracle_schem.Readonly.Sqlglot.{Sqlglot}
use cognic_tool_oracle_schem.Tools.Calls.{
  list_schemas, list_tables, describe_table, find_columns, list_relationships, get_constraints,
}
use cognic_tool_oracle_schem.Server.{
  Request, schemas, tables, columns, matching, relationships, constraints, answer, ToolCall,
  metadata, governed, Reply, listing, handle_call, attempt, serve,
}
use cognic_tool_oracle_schem.Server.Serve.{handle_call-Keeps}
use cognic_tool_oracle_schem.Host.{Binds, Host, World, M, pure, raise, lift, ◌>>=◌}
use cognic_tool_oracle_schem.Host.Keeps.{Keeps, Leads, Leads-bind}

-- The process has no pool.
pub record IsPoolless (w : World) : Type 0 where
  pub gone : w.pool ≡ none

IsPoolless-IsPoolProperty : IsPoolProperty IsPoolless
IsPoolless-IsPoolProperty = record {
  event = λ e w free p. record { gone = p.gone };
  cache = λ seen w p. record { gone = p.gone };
}

-- An exception, and still no pool.
abbrev Fails {ℓ} : {A : Type ℓ} → Result A → World → Type 0
Fails (ok a) w = ⊥
Fails (raised e) w = IsPoolless w

Leads-Fails {ℓ κ} :
    {A : Type ℓ} {B : Type κ} (m : M A) (f : A → M B)
    → Leads IsPoolless Fails m
    → Leads IsPoolless Fails (m >>= f)
Leads-Fails m f lm =
    Leads-bind {R = Fails} m f lm (λ e w p. p) (λ a. record { at = λ w p. absurd p })

Fails-Keeps {ℓ} : {A : Type ℓ} (m : M A) → Leads IsPoolless Fails m → Keeps IsPoolless m
Fails-Keeps {A} m lm = record { at = λ w p. go (m w).0 (m w).1 (lm.at w p) }
  where
    go : (r : Result A) (w : World) → Fails r w → IsPoolless w
    go (ok a) w p = absurd p
    go (raised e) w p = p

lift-Fails {ℓ κ} :
    {A : Type ℓ} {B : Type κ} (r : Result A) (f : A → M B)
    → ((a : A) → Leads IsPoolless Fails (f a))
    → Leads IsPoolless Fails (lift r >>= f)
unfolding lift ◌>>=◌
lift-Fails (ok a) f lf = lf a
lift-Fails (raised e) f lf = record { at = λ w p. p }

module _ (h : Host) (cfg : Config) where
  fetch-Fails :
      (sql : Text) (binds : Binds) (limit : ℤ)
      → Leads IsPoolless Fails (fetch h sql binds limit cfg)
  unfolding fetch require_pool get_pool raise ◌>>=◌
  fetch-Fails sql binds limit = record { at = λ w p. rw p.gone (record { gone = refl }) }

  answer-Fails : (request : Request) → Leads IsPoolless Fails (answer h cfg request)
  unfolding list_schemas list_tables describe_table find_columns list_relationships get_constraints
  answer-Fails schemas = lift-Fails _ _ (λ pred. Leads-Fails _ _ (fetch-Fails _ _ _))
  answer-Fails (tables owner) = lift-Fails _ _ (λ norm. Leads-Fails _ _ (fetch-Fails _ _ _))
  answer-Fails (columns owner table) = lift-Fails _ _ (λ norm. Leads-Fails _ _ (fetch-Fails _ _ _))
  answer-Fails (matching name_pattern owner) =
      lift-Fails _ _ (λ pred. Leads-Fails _ _ (fetch-Fails _ _ _))
  answer-Fails (relationships owner table) =
      lift-Fails _ _ (λ norm. Leads-Fails _ _ (fetch-Fails _ _ _))
  answer-Fails (constraints owner table) =
      lift-Fails _ _ (λ norm. Leads-Fails _ _ (fetch-Fails _ _ _))

-- A call of a metadata tool ends in an exception.
abbrev IsRefused : ToolCall → Result Reply → Type 0
IsRefused (metadata request) (ok reply) = ⊥
IsRefused (metadata request) (raised e) = Unit
IsRefused (governed scope_id sql max_rows token) reply = Unit

-- So does every call of one, among these calls with their results.
abbrev pub AreRefused : List ToolCall → List (Result Reply) → Type 0
AreRefused [] [] = Unit
AreRefused [] (reply ∷ replies) = ⊥
AreRefused (c ∷ calls) [] = ⊥
AreRefused (c ∷ calls) (reply ∷ replies) = IsRefused c reply × AreRefused calls replies

-- The calls are answered so, and there is still no pool.
abbrev pub StayRefused : List ToolCall → Result (List (Result Reply)) → World → Type 0
StayRefused calls (ok replies) w = AreRefused calls replies × (w.pool ≡ none)
StayRefused calls (raised e) w = ⊥

-- The result of one call as a value.
abbrev Attempted : ToolCall → Result (Result Reply) → World → Type 0
Attempted c (ok reply) w = IsRefused c reply × IsPoolless w
Attempted c (raised e) w = ⊥

module _ (h : Host) (g : Sqlglot) (cfg : Config) where
  IsRefused-metadata :
      (request : Request) (r : Result Reply) (w : World)
      → Fails r w
      → Attempted (metadata request) (ok r) w
  IsRefused-metadata request (ok reply) w p = absurd p
  IsRefused-metadata request (raised e) w p = (tt, p)

  handle_call-Attempted :
      (c : ToolCall) → Leads IsPoolless (Attempted c) (attempt (handle_call h g cfg c))
  unfolding attempt pure
  handle_call-Attempted (metadata request) = record {
    at = λ w p.
        IsRefused-metadata request _ _
          ((Leads-Fails _ (λ found. pure (listing found)) (answer-Fails h cfg request)).at w p);
  }
  handle_call-Attempted (governed scope_id sql max_rows token) = record {
    at = λ w p. (
      tt,
      (handle_call-Keeps h g cfg IsPoolless-IsPoolProperty
            (λ request. Fails-Keeps _ (answer-Fails h cfg request))
            (governed scope_id sql max_rows token)).at
          w p,
    );
  }

  serve-StayRefused :
      (calls : List ToolCall) → Leads IsPoolless (StayRefused calls) (serve h g cfg calls)
  unfolding serve
  serve-StayRefused [] = unfold pure in record { at = λ w p. (tt, p.gone) }
  serve-StayRefused (c ∷ calls) =
      Leads-bind {R = Attempted c} _ _ (handle_call-Attempted c) (λ e w p. p)
        (λ reply.
          Leads-bind {R = λ r w. IsRefused c reply × StayRefused calls r w} _ _
            (record { at = λ w p. (p.0, (serve-StayRefused calls).at w p.1) }) (λ e w p. p.1)
            (λ replies. unfold pure in record { at = λ w p. ((p.0, p.1.0), p.1.1) }))

-- In a process without a pool, as a failed reconnection leaves it, every later call of a metadata tool
-- ends in an exception and makes no pool, whatever calls come between and however the surroundings
-- answer by then.
pub poolless_for_good :
    (h : Host) (g : Sqlglot) (cfg : Config) (calls : List ToolCall) (w : World)
    → w.pool ≡ none
    → StayRefused calls (serve h g cfg calls w).0 (serve h g cfg calls w).1
poolless_for_good h g cfg calls w gone =
    (serve-StayRefused h g cfg calls).at w (record { gone = gone })
