-- ===== src/Readonly/Sqlglot.antt =====
-- What the code uses of sqlglot: a syntax tree and its questions are a parameter. A read of a tree
-- that `parse` returned (its class, its arguments, its walk) is taken not to raise; `parse`,
-- `tokenize`, `limit` and `sql` may.
use cognic_tool_oracle_schem.Base.{Bool, List, Option, ℤ, Text}
use cognic_tool_oracle_schem.Python.Exception.{Result}

-- The classes of `exp` that the code names.
pub data NodeClass : Type 0 where
  command insert update delete merge create drop alter grant truncate_table : NodeClass
  transaction commit rollback : NodeClass
  select cte table fetch limit literal : NodeClass

-- `sqlglot.parse`: the statements, a `ParseError`, or another exception.
pub data Parsed {ℓ} (N : Type ℓ) : Type ℓ where
  statements : List (Option N) → Parsed N
  parse_error : Parsed N
  parse_crash : Parsed N

pub record Sqlglot : Type 1 where
  pub Node : Type 0
  -- `sqlglot.parse(sql, read="oracle")`
  pub parse : Text → Parsed Node
  -- the texts of `sqlglot.tokenize(sql, read="oracle")`; `none` is an exception
  pub tokenize : Text → Option (List Text)
  pub is_instance : Node → NodeClass → Bool
  pub type_name : Node → Text
  -- whether `args.get("locks")`, `args.get("into")` and `args.get("percent")` are truthy
  pub has_locks : Node → Bool
  pub has_into : Node → Bool
  pub has_percent : Node → Bool
  pub walk : Node → List Node
  pub find_all : Node → NodeClass → List Node
  pub name : Node → Text
  pub catalog : Node → Text
  pub db : Node → Text
  pub alias_or_name : Node → Text
  -- `args.get("limit")`, `args.get("limit_options")`, `args.get("count")` and `expression`
  pub limit_arg : Node → Option Node
  pub limit_options : Node → Option Node
  pub count : Node → Option Node
  pub expression : Node → Option Node
  pub is_int : Node → Bool
  -- `stmt.limit(n)` and `stmt.sql(dialect="oracle")`
  pub set_limit : Node → ℤ → Result Node
  pub sql : Node → Result Text
