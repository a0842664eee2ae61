-- ===== src/Credential/Mounted.antt =====
-- What a credential that was read guarantees.
use cognic_tool_oracle_schem.Base.{
  ◌≡◌, refl, sym, ap, ◌∙◌, inl, inr, Bool, not, true, false, List, ◌∷◌, some,
}
use cognic_tool_oracle_schem.Base.{◌≤◌, ltb, Bool-cases, Option-cases, arith, Text, Bytes}
use cognic_tool_oracle_schem.Python.Exception.{Exc, Result, ok, raised, require, ok-injective}
use mathlib.Core.Path.{subst}
use cognic_tool_oracle_schem.Python.Utf8.{decode}
use cognic_tool_oracle_schem.Credential.{
  CredentialRead, max_credential_bytes, is_relative_to, drop_newline, is_malformed, password_of,
  stat_and_read, mount_of, read_credential, refuse_os_error, credential_file_error,
}
use cognic_tool_oracle_schem.Host.{
  Host, World, Stat, M, pure, lift, perform, raise, catch, handle, continue, credential_resolved,
  credential_stat, ◌>>=◌, is_os_error,
}

-- A block that returns got a value from its first step and returned from the rest.
bind-ok {ℓ κ} :
    {A : Type ℓ} {B : Type κ} {c : B} (m : M A) (f : A → M B) (w : World)
    → ((m >>= f) w).0 ≡ ok c
    → (x : A) × ((m w).0 ≡ ok x) × ((f x (m w).1).0 ≡ ok c)
unfolding ◌>>=◌
bind-ok {A = A} {B = B} {c = c} m f w e = go (m w).0 (m w).1 e
  where
    go :
        (r : Result A) (v : World)
        → (continue r f v).0 ≡ ok c
        → (x : A) × (r ≡ ok x) × ((f x v).0 ≡ ok c)
    go (ok x) v e = (x, refl, e)
    go (raised exc) v e = cc

raised-ok {ℓ} : {B : Type ℓ} {c : B} (exc : Exc) → ◌≡◌ {A = Result B} (raised exc) (ok c) → ⊥
raised-ok exc e = cc

-- A handler that raises does not return either.
refused-ok {ℓ κ} :
    {A : Type ℓ} {B : Type κ} {c : B} (h : Host) (m : M A) (f : A → M B) (w : World)
    → ((refuse_os_error h m >>= f) w).0 ≡ ok c
    → (x : A) × ((m w).0 ≡ ok x) × ((f x (m w).1).0 ≡ ok c)
unfolding ◌>>=◌ catch raise
refused-ok {A = A} {B = B} {c = c} h m f w e = go (m w).0 (m w).1 e
  where
    go :
        (r : Result A) (v : World)
        → (continue
            (handle r (λ _. raise credential_file_error) is_os_error v).0
            f
            (handle r (λ _. raise credential_file_error) is_os_error v).1).0
          ≡ ok c
        → (x : A) × (r ≡ ok x) × ((f x v).0 ≡ ok c)
    go (ok x) v e = (x, refl, e)
    go (raised exc) v e = elim (Bool-cases (is_os_error exc)) [
      | inl os ↦ absurd (raised-ok _ (rw os at e))
      | inr other ↦ absurd (raised-ok _ (rw other at e))
    ]

module _ (h : Host) (path : Text) (w : World) where
  -- The credential comes from a file that resolves to a place below the mount directory, is at most 4096
  -- bytes long when it is looked at, and holds the password in UTF-8 with at most a newline behind it.
  pub record IsMounted (c : CredentialRead) : Type 0 where
    pub mount : List Text
    pub mounted : h.mount_dir w.events path ≡ ok mount
    pub place : List Text
    pub resolved : h.resolve w.events path ≡ ok place
    pub inside : is_relative_to place mount ≡ true
    pub found : Stat
    pub looked_at : h.stat (credential_resolved path ∷ w.events) place ≡ ok found
    pub bound : found.st_size ≤ 4096
    pub raw : Bytes
    pub was_read :
        h.read_bytes (credential_stat place ∷ credential_resolved path ∷ w.events) place ≡ ok raw
    pub text : Text
    pub decoded : decode raw ≡ some text
    pub password : c.password ≡ drop_newline text
    pub well_formed : is_malformed h c.password ≡ false
    pub reference : h.iso_utc found.st_mtime ≡ ok c.rotation_ref

  -- The password stands in the bytes.
  IsPassword : Bytes → Text → Type 0
  IsPassword raw s =
      (text : Text) × (decode raw ≡ some text)
      × (s ≡ drop_newline text)
      × (is_malformed h s ≡ false)

  password_of-IsPassword : (raw : Bytes) (s : Text) → password_of h raw ≡ ok s → IsPassword raw s
  unfolding password_of IsPassword
  password_of-IsPassword raw s e = elim (Option-cases (decode raw)) [
    | inl bad ↦ ground arith
    | inr (text, d) ↦ elim (Bool-cases (is_malformed h (drop_newline text))) [
      | inl malformed ↦ ground arith
      | inr good ↦
          let same = ok-injective (rw (d, good, password_of) at e) in
          (text, d, sym same, rw (← same) good)
    ]
  ]

  require-ok : (b : Bool) (e : Exc) (x : Unit {0}) → require b e ≡ ok x → b ≡ true
  require-ok b e x h = ground arith

  -- The size that lets the file be read.
  bound_lem : (st : Stat) → not (ltb max_credential_bytes st.st_size) ≡ true → st.st_size ≤ 4096
  bound_lem st e = ground arith

  -- A credential that was read comes from a file that resolves to a place below its mount directory, that
  -- was at most 4096 bytes long when it was looked at, and whose bytes, read after that, are UTF-8 for the
  -- password with at most a newline behind it; the password is neither empty nor padded with white space,
  -- and the rotation reference is the time of the file's last change.
  pub read_credential-IsMounted :
      (c : CredentialRead) → (read_credential h path w).0 ≡ ok c → IsMounted c
  unfolding read_credential mount_of stat_and_read lift perform pure IsPassword
  read_credential-IsMounted c e =
      let (mount, a, e1) = bind-ok (mount_of h path) _ w e in
      let (place, b, e2) = refused-ok h _ _ w e1 in
      let (_, inside, e3) = bind-ok _ _ _ e2 in
      let ((st, raw), read, e4) = refused-ok h (stat_and_read h place) _ _ e3 in
      let (st', looked, r1) = bind-ok _ _ _ read in
      let (_, small, r2) = bind-ok _ _ _ r1 in
      let (raw', was_read, r3) = bind-ok _ _ _ r2 in
      let (s, p, e5) = bind-ok _ _ _ e4 in
      let (reference, f, e6) = bind-ok _ _ _ e5 in
      let same = ok-injective r3 in
      let (text, decoded, is, good) =
        password_of-IsPassword raw' s (ap (λ (r : Stat × Bytes). password_of h r.1) same ∙ p) in
      subst IsMounted (ok-injective e6) (record {
        mount = mount;
        mounted = a;
        place = place;
        resolved = b;
        inside = require-ok _ _ _ inside;
        found = st';
        looked_at = looked;
        bound = bound_lem st' (require-ok _ _ _ small);
        raw = raw';
        was_read = was_read;
        text = text;
        decoded = decoded;
        password = is;
        well_formed = good;
        reference = ap (λ (r : Stat × Bytes). h.iso_utc r.0.st_mtime) same ∙ f;
      })
