-- ===== src/Oracle/Tasks/Alone.antt =====
-- A request that no other one interleaves: its steps are `fetch`.
use cognic_tool_oracle_schem.Base.{
  ℕ, zero, suc, ◌≡◌, refl, inl, inr, Bool, List, Option, none, some,
}
use cognic_tool_oracle_schem.Base.{Bool-cases}
use cognic_tool_oracle_schem.Python.Exception.{Exc, Result, ok, raised, is_ok, Result-cases}
use cognic_tool_oracle_schem.Readonly.Cell.{Cell}
use cognic_tool_oracle_schem.Readonly.Execute.{is_auth_error}
use cognic_tool_oracle_schem.Oracle.{
  get_pool, set_pool, require_pool, init_pool, close_pool, fetch_once, fetch_again, fetch,
}
use cognic_tool_oracle_schem.Oracle.Tasks.{
  Query, Stage, starting, querying, closing, querying_again, returned, escaped, reopen, recover,
  resume, settle,
}
use cognic_tool_oracle_schem.Host.{
  Host, World, M, pool_closed, perform, pure, raise, catch, handle, continue, is_exception, ◌>>=◌,
  ◌>>◌,
}

abbrev Page : Type 0
Page = List (List Cell) × Bool

-- The end of a request.
abbrev pub ended : Result Page × World → Stage × World
ended (ok page, w) = (returned page, w)
ended (raised exc, w) = (escaped exc, w)

module _ (h : Host) (q : Query) where
  -- So many steps of one request.
  abbrev pub resumes : ℕ → Stage × World → Stage × World
  resumes zero s = s
  resumes (suc n) (stage, w) = resumes n (settle (resume h q stage w))

  resumes-escaped : (n : ℕ) (exc : Exc) (w : World) → resumes n (escaped exc, w) ≡ (escaped exc, w)
  unfolding resume pure
  resumes-escaped zero exc w = refl
  resumes-escaped (suc n) exc w = resumes-escaped n exc w

  resumes-returned :
      (n : ℕ) (page : Page) (w : World) → resumes n (returned page, w) ≡ (returned page, w)
  unfolding resume pure
  resumes-returned zero page w = refl
  resumes-returned (suc n) page w = resumes-returned n page w

  -- A step and `n` more come to what the block does.
  record Finishes (n : ℕ) (m : M Stage) (k : M Page) : Type 0 where
    at : (w : World) → resumes n (settle (m w)) ≡ ended (k w)

  Finishes-bind {ℓ} :
      {A : Type ℓ} (n : ℕ) (m : M A) (f : A → M Stage) (g : A → M Page)
      → ((a : A) → Finishes n (f a) (g a))
      → Finishes n (m >>= f) (m >>= g)
  unfolding ◌>>=◌
  Finishes-bind {A} n m f g r = record { at = λ w. go (m w).0 (m w).1 }
    where
      go :
          (res : Result A) (w : World)
          → resumes n (settle (continue res f w)) ≡ ended (continue res g w)
      go (ok a) w = (r a).at w
      go (raised exc) w = resumes-escaped n exc w

  Finishes-raise : (n : ℕ) (exc : Exc) → Finishes n (raise exc) (raise exc)
  unfolding raise
  Finishes-raise n exc = record { at = λ w. resumes-escaped n exc w }

  -- The step ends at an await, and the next one goes on behind it.
  Finishes-next :
      (n : ℕ) (stage : Stage) (k : M Page)
      → Finishes n (resume h q stage) k
      → Finishes (suc n) (pure stage) k
  unfolding pure
  Finishes-next n stage k r = record { at = r.at }

  query_again-Finishes :
      (n pool : ℕ)
      → Finishes n (resume h q (querying_again pool)) (fetch_once h pool q.sql q.binds q.limit)
  unfolding resume pure ◌>>=◌
  query_again-Finishes n pool = record {
    at = λ w.
        go (fetch_once h pool q.sql q.binds q.limit w).0
          (fetch_once h pool q.sql q.binds q.limit w).1;
  }
    where
      go :
          (res : Result Page) (w : World)
          → resumes n (settle (continue res (λ page. pure (returned page)) w)) ≡ ended (res, w)
      go (ok page) w = resumes-returned n page w
      go (raised exc) w = resumes-escaped n exc w

  -- What `fetch` does behind the close.
  abbrev reopened : M Page
  reopened = do init_pool h q.cfg; pool ← require_pool; fetch_once h pool q.sql q.binds q.limit

  reopen-Finishes : (n : ℕ) → Finishes (suc n) (reopen h q) reopened
  unfolding reopen
  reopen-Finishes n = Finishes-bind (suc n) _ _ _ (λ done.
      Finishes-bind (suc n) _ _ _
        (λ pool. Finishes-next n (querying_again pool) _ (query_again-Finishes n pool)))

  close-Finishes :
      (n pool : ℕ)
      → Finishes (suc n) (resume h q (closing pool)) (do
        (do
          perform (λ past. h.close_pool past pool) (λ r. pool_closed pool (is_ok r))
          set_pool none)
        reopened)
  unfolding resume set_pool ◌>>=◌
  close-Finishes n pool = record {
    at = λ w. elim (Result-cases (h.close_pool w.events pool)) [
      | inl (done, e) ↦ rw e ((reopen-Finishes n).at _)
      | inr (exc, e) ↦ rw e (resumes-escaped (suc n) exc _)
    ];
  }

  -- `close_pool`, from what it found.
  abbrev close_found : Option ℕ → M (Unit {0})
  close_found found = elim found [
    | none ↦ pure tt
    | some pool ↦ (do
      perform (λ past. h.close_pool past pool) (λ r. pool_closed pool (is_ok r))
      set_pool none)
  ]

  found-Finishes :
      (n : ℕ) (found : Option ℕ)
      → Finishes
          (suc (suc n))
          (elim found [ none ↦ reopen h q | some pool ↦ pure (closing pool) ])
          (do close_found found; reopened)
  unfolding pure ◌>>=◌
  found-Finishes n none = record { at = (reopen-Finishes (suc n)).at }
  found-Finishes n (some pool) = Finishes-next (suc n) (closing pool) _ (close-Finishes n pool)

  recover-Finishes :
      (n : ℕ) (exc : Exc)
      → Finishes (suc (suc n)) (recover h q exc) (fetch_again h q.sql q.binds q.limit q.cfg exc)
  unfolding recover fetch_again close_pool get_pool ◌>>=◌
  recover-Finishes n exc = elim (Bool-cases (is_auth_error exc)) [
    | inr other ↦ rw other (Finishes-raise (suc (suc n)) exc)
    | inl auth ↦ rw auth (record { at = λ w. (found-Finishes n w.pool).at w })
  ]

  query-Finishes :
      (n pool : ℕ)
      → Finishes (suc (suc n)) (resume h q (querying pool)) (
          catch is_exception
            (fetch_once h pool q.sql q.binds q.limit)
            (fetch_again h q.sql q.binds q.limit q.cfg))
  unfolding resume catch ◌>>=◌
  query-Finishes n pool = record {
    at = λ w.
        go (fetch_once h pool q.sql q.binds q.limit w).0
          (fetch_once h pool q.sql q.binds q.limit w).1;
  }
    where
      go :
          (res : Result Page) (w : World)
          → resumes (suc (suc n)) (
              settle (
                handle
                  (continue res (λ page. pure (returned page)) w).0
                  (recover h q)
                  is_exception
                  (continue res (λ page. pure (returned page)) w).1))
            ≡ ended (handle res (fetch_again h q.sql q.binds q.limit q.cfg) is_exception w)
      go (ok page) w = resumes-returned (suc (suc n)) page w
      go (raised exc) w = elim (Bool-cases (is_exception exc)) [
        | inl caught ↦ rw caught ((recover-Finishes n exc).at w)
        | inr through ↦ rw through (resumes-escaped (suc (suc n)) exc w)
      ]

  start-Finishes : Finishes 3 (resume h q starting) (fetch h q.sql q.binds q.limit q.cfg)
  unfolding resume fetch
  start-Finishes =
      Finishes-bind 3 _ _ _ (λ pool. Finishes-next 2 (querying pool) _ (query-Finishes 0 pool))

  -- A request that runs alone is at its end after four steps at most, with the result of `fetch` and in
  -- the world that `fetch` leaves: the steps cut `fetch` at its awaits and change nothing else.
  resumes-fetch :
      (w : World) → resumes 4 (starting, w) ≡ ended (fetch h q.sql q.binds q.limit q.cfg w)
  resumes-fetch w = start-Finishes.at w
