-- ===== src/Oracle/Page.antt =====
-- What a page that `fetch` returns is, and what the owner guard lets through.
use cognic_tool_oracle_schem.Base.{ℕ, ◌≡◌, sym, ap, ◌↔◌, ◌⊎◌, inl, inr, Bool, true, List}
use cognic_tool_oracle_schem.Base.{arith, contains, is_empty, ℤ, Text}
use cognic_tool_oracle_schem.Python.Exception.{Exc, Result, ok, raised, Result-cases, ok-injective}
use cognic_tool_oracle_schem.Python.Str.{Unicode, upper, strip}
use cognic_tool_oracle_schem.Config.{Config}
use cognic_tool_oracle_schem.Readonly.Cell.{Cell}
use cognic_tool_oracle_schem.Oracle.{
  guard_owner, slice_to, next, is_longer, fetch_once, fetch_again, fetch,
}
use cognic_tool_oracle_schem.Host.Yields.{
  Yields, Yields-bind, Yields-raise, Yields-catch, Yields-if,
}
use cognic_tool_oracle_schem.Host.{Binds, Event, Host, World, ◌>>=◌}

-- The guard returns the owner without white space and in upper case, and it does so exactly when there
-- is no allow-list or that name is in it.
pub guard_owner_iff :
    (u : Unicode) (owner : Text) (cfg : Config) (norm : Text)
    → (guard_owner u owner cfg ≡ ok norm) ↔ (
        (norm ≡ upper u (strip u owner))
        × ((is_empty cfg.allowed_owners ≡ true) ⊎ (contains norm cfg.allowed_owners ≡ true)))
unfolding guard_owner
guard_owner_iff u owner cfg norm = ground arith

module _ (h : Host) (sql : Text) (binds : Binds) (limit : ℤ) where
  -- The rows are the first ones, up to the limit, of what the driver gave when it was asked for one row
  -- more, and the flag says whether there was more.
  pub record IsPage (page : List (List Cell) × Bool) : Type 0 where
    pub past : List Event
    pub pool : ℕ
    pub fetched : List (List Cell)
    pub answered : h.fetch_many past pool sql binds (next limit) ≡ ok fetched
    pub rows : page.0 ≡ slice_to limit fetched
    pub truncated : page.1 ≡ is_longer fetched limit

  fetch_once-Yields : (pool : ℕ) → Yields IsPage (fetch_once h pool sql binds limit)
  unfolding fetch_once ◌>>=◌
  fetch_once-Yields pool = record {
    holds = λ w page e. elim (Result-cases (h.fetch_many w.events pool sql binds (next limit))) [
      | inl (fetched, d) ↦
          let same = ok-injective (rw d at e) in
          record {
            past = w.events;
            pool = pool;
            fetched = fetched;
            answered = d;
            rows = ap (λ (p : List (List Cell) × Bool). p.0) (sym same);
            truncated = ap (λ (p : List (List Cell) × Bool). p.1) (sym same);
          }
      | inr (exc, d) ↦ absurd (raised_ne (rw d at e))
    ];
  }
    where
      raised_ne :
          {exc : Exc} {page : List (List Cell) × Bool} → Path (Result _) (raised exc) (ok page) → ⊥
      raised_ne x = cc

  fetch-Yields : (cfg : Config) → Yields IsPage (fetch h sql binds limit cfg)
  unfolding fetch fetch_again
  fetch-Yields cfg =
      search (Yields-bind, Yields-raise, Yields-catch, Yields-if, fetch_once-Yields) depth 9

  pub fetch-IsPage :
      (cfg : Config) (w : World) (page : List (List Cell) × Bool)
      → (fetch h sql binds limit cfg w).0 ≡ ok page
      → IsPage page
  fetch-IsPage cfg w page e = (fetch-Yields cfg).holds w page e
