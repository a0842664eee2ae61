-- ===== src/Readonly/Replay.antt =====
-- `ReplayCache` of readonly_query.py. The dict is an association list in insertion order.
pub mod Once
pub mod Spec
use cognic_tool_oracle_schem.Base.{Bool, true, false, not, ◌||◌, List, [], ◌∷◌, ◌++◌, if◌then◌else◌}
use cognic_tool_oracle_schem.Base.{ℤ, leb_ℤ, Text, text_eq}

abbrev pub Seen : Type 0
Seen = List (Text × ℤ)

-- The loop that deletes the entries with `now >= exp`.
unfoldable pub evict : ℤ → Seen → Seen
evict now [] = []
evict now ((jti, exp) ∷ seen) =
    let rest = evict now seen in if leb_ℤ exp now then rest else (jti, exp) ∷ rest

-- `jti in seen`
unfoldable pub has : Text → Seen → Bool
has j [] = false
has j ((jti, exp) ∷ seen) = text_eq j jti || has j seen

unfoldable pub check_and_insert : Text → ℤ → ℤ → Seen → Bool × Seen
check_and_insert jti exp now seen =
    let live = evict now seen in
    if has jti live then (false, live) else (true, live ++ (jti, exp) ∷ [])
