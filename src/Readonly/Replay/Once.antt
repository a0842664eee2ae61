-- ===== src/Readonly/Replay/Once.antt =====
-- The entries of the replay cache over a sequence of calls.
use cognic_tool_oracle_schem.Base.{◌≡◌, true, false, List, [], ◌∷◌, ◌++◌, arith}
use cognic_tool_oracle_schem.Base.{ℤ, leb_ℤ, Text, text_eq_iff, ◌⊎◌}
use cognic_tool_oracle_schem.Readonly.Replay.{Seen, evict, has, check_and_insert}

-- The entry stands in the cache.
abbrev pub Holds : Text → ℤ → Seen → Type 0
Holds jti exp [] = ⊥
Holds jti exp ((j, e) ∷ seen) = ((jti ≡ j) × (exp ≡ e)) ⊎ Holds jti exp seen

-- An entry outlives an eviction before its expiry.
Holds-evict :
    (jti : Text) (exp now : ℤ) (seen : Seen)
    → leb_ℤ exp now ≡ false
    → Holds jti exp seen
    → Holds jti exp (evict now seen)
unfolding evict
Holds-evict jti exp now [] before h = h
Holds-evict jti exp now ((j, e) ∷ seen) before h =
    ground (arith, Holds-evict jti exp now seen before)

Holds-append :
    (jti : Text) (exp : ℤ) (seen more : Seen) → Holds jti exp seen → Holds jti exp (seen ++ more)
Holds-append jti exp [] more h = absurd h
Holds-append jti exp ((j, e) ∷ seen) more h = ground (arith, Holds-append jti exp seen more)

Holds-concat : (jti : Text) (exp : ℤ) (seen : Seen) → Holds jti exp (seen ++ (jti, exp) ∷ [])
Holds-concat jti exp [] = ground arith
Holds-concat jti exp ((j, e) ∷ seen) = ground (arith, Holds-concat jti exp seen)

has_of_Holds : (jti : Text) (exp : ℤ) (seen : Seen) → Holds jti exp seen → has jti seen ≡ true
unfolding has
has_of_Holds jti exp [] h = absurd h
has_of_Holds jti exp ((j, e) ∷ seen) h =
    ground (arith, text_eq_iff jti j, has_of_Holds jti exp seen)

-- A first sighting is recorded.
pub check_and_insert-Holds :
    (jti : Text) (exp now : ℤ) (seen : Seen)
    → (check_and_insert jti exp now seen).0 ≡ true
    → Holds jti exp (check_and_insert jti exp now seen).1
unfolding check_and_insert
check_and_insert-Holds jti exp now seen h = ground (arith, Holds-concat jti exp (evict now seen))

-- Any call before the expiry keeps the entry.
pub check_and_insert-keeps :
    (jti : Text) (exp : ℤ) (j : Text) (e now : ℤ) (seen : Seen)
    → leb_ℤ exp now ≡ false
    → Holds jti exp seen
    → Holds jti exp (check_and_insert j e now seen).1
unfolding check_and_insert
check_and_insert-keeps jti exp j e now seen before h = ground (
  arith,
  Holds-evict jti exp now seen before h,
  Holds-append jti exp (evict now seen) ((j, e) ∷ []) (Holds-evict jti exp now seen before h),
)

-- A recorded identifier is refused before the expiry.
pub check_and_insert-refuses :
    (jti : Text) (exp e now : ℤ) (seen : Seen)
    → leb_ℤ exp now ≡ false
    → Holds jti exp seen
    → (check_and_insert jti e now seen).0 ≡ false
unfolding check_and_insert
check_and_insert-refuses jti exp e now seen before h =
    ground (arith, has_of_Holds jti exp (evict now seen) (Holds-evict jti exp now seen before h))

-- Calls of the cache, in the order in which they are made: identifier, expiry and clock.
abbrev pub Calls : Type 0
Calls = List (Text × ℤ × ℤ)

abbrev pub seen_after : Calls → Seen → Seen
seen_after [] seen = seen
seen_after ((j, e, now) ∷ calls) seen = seen_after calls (check_and_insert j e now seen).1

-- Every call reads the clock before `exp`.
abbrev pub AllBefore : ℤ → Calls → Type 0
AllBefore exp [] = Unit
AllBefore exp ((j, e, now) ∷ calls) = (leb_ℤ exp now ≡ false) × AllBefore exp calls

Holds-seen_after :
    (jti : Text) (exp : ℤ) (calls : Calls) (seen : Seen)
    → AllBefore exp calls
    → Holds jti exp seen
    → Holds jti exp (seen_after calls seen)
Holds-seen_after jti exp [] seen b h = h
Holds-seen_after jti exp ((j, e, now) ∷ calls) seen (b, bs) h =
    Holds-seen_after jti exp calls _ bs (check_and_insert-keeps jti exp j e now seen b h)

-- Once an identifier was accepted with an expiry, it is refused after any calls whatever, the call
-- itself included, as long as every one of them reads the clock before that expiry.
single_use :
    (jti : Text) (exp now : ℤ) (seen : Seen) (calls : Calls) (e later : ℤ)
    → (check_and_insert jti exp now seen).0 ≡ true
    → AllBefore exp calls
    → leb_ℤ exp later ≡ false
    → (check_and_insert jti e later (seen_after calls (check_and_insert jti exp now seen).1)).0
      ≡ false
single_use jti exp now seen calls e later fresh bs b =
    check_and_insert-refuses jti exp e later _ b
      (Holds-seen_after jti exp calls _ bs (check_and_insert-Holds jti exp now seen fresh))
