-- ===== src/Readonly/Keys/Reads.antt =====
-- What the loading of the keys does outside the process.
use mathlib.Core.Path.{subst}
use cognic_tool_oracle_schem.Base.{◌≡◌, refl, sym, inl, inr, List, [], ◌∷◌}
use cognic_tool_oracle_schem.Base.{Bool-cases, Text}
use cognic_tool_oracle_schem.Python.Exception.{Result-cases}
use cognic_tool_oracle_schem.Python.Str.{is_blank_bytes}
use cognic_tool_oracle_schem.Readonly.Keys.{with_key, read_keys, load_paths, load_public_keys}
use cognic_tool_oracle_schem.Host.{
  ◌>>=◌, Event, key_file_read, Host, World, is_os_error, continue-pure,
}

-- The later events are the earlier ones behind some reads of key files.
pub data OnlyKeyReads (before : List Event) : List Event → Type 0 where
  none_read : OnlyKeyReads before before
  one_more :
      {after : List Event} (path : Text)
      → OnlyKeyReads before after
      → OnlyKeyReads before (key_file_read path ∷ after)

module _ (h : Host) where
  -- Only the events of the world changed, and those by reads of key files.
  pub record IsKeyLoad (before after : World) : Type 0 where
    pub same_seen : after.seen ≡ before.seen
    pub reads : OnlyKeyReads before.events after.events

  read_keys-IsKeyLoad :
      (paths : List Text) (start w : World)
      → IsKeyLoad start w
      → IsKeyLoad start (read_keys h paths w).1
  unfolding read_keys ◌>>=◌
  read_keys-IsKeyLoad [] start w k = k
  read_keys-IsKeyLoad (path ∷ paths) start w k = elim (Result-cases (h.read_key w.events path)) [
    | inl (pem, e) ↦ elim (Bool-cases (is_blank_bytes pem)) [
      | inl blank ↦ rw (e, blank) next
      | inr key ↦
          rw (e, key)
            (subst (IsKeyLoad start)
              (sym (
                continue-pure (read_keys h paths after).0 (with_key h pem)
                  (read_keys h paths after).1))
              (read_keys-IsKeyLoad paths start after next))
    ]
    | inr (exc, e) ↦ elim (Bool-cases (is_os_error exc)) [
      | inl os ↦ rw (e, os) next
      | inr crash ↦ rw (e, crash) next
    ]
  ]
    where
      after : World
      after = record w { events = key_file_read path ∷ w.events }

      next : IsKeyLoad start after
      next = record { same_seen = k.same_seen; reads = one_more path k.reads }

  load_paths-IsKeyLoad : (paths : List Text) (w : World) → IsKeyLoad w (load_paths h paths w).1
  unfolding ◌>>=◌
  load_paths-IsKeyLoad [] w = record { same_seen = refl; reads = none_read }
  load_paths-IsKeyLoad (path ∷ paths) w =
      read_keys-IsKeyLoad (path ∷ paths) w w (record { same_seen = refl; reads = none_read })

  pub load_public_keys-IsKeyLoad : (w : World) → IsKeyLoad w (load_public_keys h w).1
  unfolding load_public_keys ◌>>=◌
  load_public_keys-IsKeyLoad w = load_paths-IsKeyLoad _ w
