-- ===== src/Readonly/Replay/Spec.antt =====
-- The replay cache as a map from identifiers to expiries.
use cognic_tool_oracle_schem.Base.{
  ◌≡◌, refl, sym, ap, ◌∙◌, inl, inr, Bool, true, false, List, [], ◌∷◌, ◌++◌, Option, none, some,
  arith, if◌then◌else◌, Bool-cases,
}
use cognic_tool_oracle_schem.Base.{ℤ, leb_ℤ, Text, text_eq, text_eq_iff}
use cognic_tool_oracle_schem.Readonly.Replay.{Seen, evict, has, check_and_insert}
use cognic_tool_oracle_schem.Readonly.Replay.Once.{Calls}

-- The expiry with which each identifier is known.
abbrev pub Ids : Type 0
Ids = Text → Option ℤ

-- An expiry that the clock has reached is forgotten.
abbrev pub unexpired : ℤ → Option ℤ → Option ℤ
unexpired now none = none
unexpired now (some exp) = if leb_ℤ exp now then none else some exp

abbrev pub is_known : Option ℤ → Bool
is_known none = false
is_known (some exp) = true

abbrev pub set : Text → ℤ → Ids → Ids
set jti exp ids j = if text_eq j jti then some exp else ids j

-- What a call does to the map: an identifier that is known and has not expired is refused, any other is
-- set.
abbrev pub see : Text → ℤ → ℤ → Ids → Bool × Ids
see jti exp now ids =
    let live : Ids = λ j. unexpired now (ids j) in
    if is_known (live jti) then (false, live) else (true, set jti exp live)

abbrev pub lookup : Seen → Ids
lookup [] j = none
lookup ((k, exp) ∷ seen) j = if text_eq j k then some exp else lookup seen j

-- No identifier stands twice in the list.
abbrev pub IsUnique : Seen → Type 0
IsUnique [] = Unit
IsUnique ((k, exp) ∷ seen) = (has k seen ≡ false) × IsUnique seen

is_known-lookup : (seen : Seen) (j : Text) → is_known (lookup seen j) ≡ has j seen
unfolding has
is_known-lookup [] j = refl
is_known-lookup ((k, exp) ∷ seen) j = ground (arith, is_known-lookup seen j)

has-evict : (now : ℤ) (seen : Seen) (j : Text) → has j seen ≡ false → has j (evict now seen) ≡ false
unfolding has evict
has-evict now [] j h = refl
has-evict now ((k, exp) ∷ seen) j h = ground (arith, has-evict now seen j)

IsUnique-evict : (now : ℤ) (seen : Seen) → IsUnique seen → IsUnique (evict now seen)
unfolding evict
IsUnique-evict now [] u = tt
IsUnique-evict now ((k, exp) ∷ seen) (new, u) =
    ground (arith, has-evict now seen k new, IsUnique-evict now seen u)

lookup-absent : (seen : Seen) (j : Text) → has j seen ≡ false → lookup seen j ≡ none
unfolding has
lookup-absent [] j h = refl
lookup-absent ((k, exp) ∷ seen) j h = ground (arith, lookup-absent seen j)

lookup-evict :
    (now : ℤ) (seen : Seen) (j : Text)
    → IsUnique seen
    → lookup (evict now seen) j ≡ unexpired now (lookup seen j)
unfolding evict
lookup-evict now [] j u = refl
lookup-evict now ((k, exp) ∷ seen) j (new, u) = ground (
  arith,
  text_eq_iff j k,
  lookup-absent (evict now seen) k (has-evict now seen k new),
  lookup-evict now seen j u,
)

lookup-append :
    (seen : Seen) (jti : Text) (exp : ℤ) (j : Text)
    → has jti seen ≡ false
    → lookup (seen ++ (jti, exp) ∷ []) j ≡ set jti exp (lookup seen) j
unfolding has
lookup-append [] jti exp j h = refl
lookup-append ((k, e) ∷ seen) jti exp j h =
    ground
      (arith, text_eq_iff j k, text_eq_iff jti k, text_eq_iff j jti, lookup-append seen jti exp j)

has-append :
    (seen : Seen) (jti : Text) (exp : ℤ) (j : Text)
    → has j seen ≡ false
    → text_eq j jti ≡ false
    → has j (seen ++ (jti, exp) ∷ []) ≡ false
unfolding has
has-append [] jti exp j h d = ground arith
has-append ((k, e) ∷ seen) jti exp j h d = ground (arith, has-append seen jti exp j)

IsUnique-append :
    (seen : Seen) (jti : Text) (exp : ℤ)
    → has jti seen ≡ false
    → IsUnique seen
    → IsUnique (seen ++ (jti, exp) ∷ [])
unfolding has
IsUnique-append [] jti exp h u = (refl, tt)
IsUnique-append ((k, e) ∷ seen) jti exp h (new, u) = ground (
  arith,
  text_eq_iff k jti,
  text_eq_iff jti k,
  has-append seen jti exp k new,
  IsUnique-append seen jti exp _ u,
)

-- The list is what the map says, each identifier once.
pub record Represents (ids : Ids) (seen : Seen) : Type 0 where
  pub unique : IsUnique seen
  pub same : (j : Text) → lookup seen j ≡ ids j

-- What both say to one call, and that the list still is what the map says.
abbrev Agrees : Ids → Seen → Text → ℤ → ℤ → Type 0
Agrees ids seen jti exp now =
    ((check_and_insert jti exp now seen).0 ≡ (see jti exp now ids).0)
    × Represents (see jti exp now ids).1 (check_and_insert jti exp now seen).1

module _ (ids : Ids) (seen : Seen) (r : Represents ids seen) (now : ℤ) where
  live-same : (j : Text) → lookup (evict now seen) j ≡ unexpired now (ids j)
  live-same j = lookup-evict now seen j r.unique ∙ ap (unexpired now) (r.same j)

  known-same : (j : Text) → has j (evict now seen) ≡ is_known (unexpired now (ids j))
  known-same j = sym (is_known-lookup (evict now seen) j) ∙ ap is_known (live-same j)

  check_and_insert-Agrees : (jti : Text) (exp : ℤ) → Agrees ids seen jti exp now
  unfolding check_and_insert
  check_and_insert-Agrees jti exp = elim (Bool-cases (has jti (evict now seen))) [
    | inl known ↦
        rw (known, sym (known-same jti) ∙ known)
          (refl, record { unique = IsUnique-evict now seen r.unique; same = live-same })
    | inr fresh ↦
        rw (fresh, sym (known-same jti) ∙ fresh)
          (
            refl,
            record {
              unique =
                  IsUnique-append (evict now seen) jti exp fresh (IsUnique-evict now seen r.unique);
              same = λ j.
                  lookup-append (evict now seen) jti exp j fresh
                  ∙ ap (λ o. if text_eq j jti then some exp else o) (live-same j);
            },
          )
  ]

-- The answers to some calls, from a list and from a map.
abbrev pub answers : Calls → Seen → List Bool
answers [] seen = []
answers ((jti, exp, now) ∷ calls) seen =
    let (fresh, seen') = check_and_insert jti exp now seen in fresh ∷ answers calls seen'

abbrev pub sightings : Calls → Ids → List Bool
sightings [] ids = []
sightings ((jti, exp, now) ∷ calls) ids =
    let (fresh, ids') = see jti exp now ids in fresh ∷ sightings calls ids'

answers-sightings :
    (calls : Calls) (ids : Ids) (seen : Seen)
    → Represents ids seen
    → answers calls seen ≡ sightings calls ids
answers-sightings [] ids seen r = refl
answers-sightings ((jti, exp, now) ∷ calls) ids seen r =
    let (same, after) = check_and_insert-Agrees ids seen r now jti exp in
    let rest =
      answers-sightings calls (see jti exp now ids).1 (check_and_insert jti exp now seen).1 after in
    ap (λ b. b ∷ answers calls (check_and_insert jti exp now seen).1) same
    ∙ ap (λ bs. (see jti exp now ids).0 ∷ bs) rest

-- Over any sequence of calls, with clocks in any order, the cache of a new process answers as a map
-- from identifiers to expiries does, in which a call forgets what has expired, refuses an identifier
-- that is left, and sets any other.
pub cache_refines_map : (calls : Calls) → answers calls [] ≡ sightings calls (λ j. none)
cache_refines_map calls =
    answers-sightings calls (λ j. none) [] (record { unique = tt; same = λ j. refl })
