-- ===== src/Credential.antt =====
-- credential.py: `read_credential`.
pub mod Mounted
pub mod RoundTrip
pub mod Keeps
pub mod Costs
use cognic_tool_oracle_schem.Base.{ℕ, Bool, true, false, not, ◌&&◌, ◌||◌, List, [], ◌∷◌, none, some}
use cognic_tool_oracle_schem.Base.{
  ltb, ◌==◌, if◌then◌else◌, all, is_empty, Text, Bytes, lit, text_eq,
}
use cognic_tool_oracle_schem.Python.Exception.{Exc, plain_error, Result, ok, raised, require}
use cognic_tool_oracle_schem.Python.Str.{strip}
use cognic_tool_oracle_schem.Python.Utf8.{decode}
use cognic_tool_oracle_schem.Host.{
  Host, Stat, credential_resolved, credential_stat, credential_read, M, pure, raise, lift, perform,
  catch, is_os_error, ◌>>=◌, ◌>>◌,
}

abbrev pub max_credential_bytes : ℕ
max_credential_bytes = 4096

abbrev pub credential_file_error : Exc
credential_file_error = plain_error (lit "CredentialFileError")

pub record CredentialRead : Type 0 where
  pub password : Text
  pub rotation_ref : Text

-- `resolved.is_relative_to(mount_dir)`, over the parts of two resolved paths.
unfoldable pub is_relative_to : List Text → List Text → Bool
is_relative_to path [] = true
is_relative_to [] (d ∷ dir) = false
is_relative_to (p ∷ path) (d ∷ dir) = text_eq p d && is_relative_to path dir

-- `if text.endswith("\n"): text = text[:-1]`
unfoldable pub drop_newline : Text → Text
drop_newline [] = []
drop_newline (c ∷ []) = if c == 10 then [] else c ∷ []
drop_newline (c ∷ d ∷ s) = c ∷ drop_newline (d ∷ s)

-- `not text.strip("\r\n \t")`
abbrev pub is_blank : Text → Bool
is_blank s = all (λ c. c == 13 || c == 10 || c == 32 || c == 9) s

module _ (h : Host) where
  -- `not text or text.strip() != text or not text.strip("\r\n \t")`
  unfoldable pub is_malformed : Text → Bool
  is_malformed text = is_empty text || not (text_eq (strip h.unicode text) text) || is_blank text

  -- From the bytes of the file to the password.
  unfoldable pub password_of : Bytes → Result Text
  password_of raw = elim (decode raw) [
    | none ↦ raised credential_file_error
    | some text ↦
        if is_malformed (drop_newline text)
        then raised credential_file_error
        else ok (drop_newline text)
  ]

  abbrev pub refuse_os_error {ℓ} : {A : Type ℓ} → M A → M A
  refuse_os_error m = catch is_os_error m (λ _. raise credential_file_error)

  -- The second `try`: the size is tested before the file is read.
  unfoldable pub stat_and_read : List Text → M (Stat × Bytes)
  stat_and_read resolved = do
    stat ← perform (λ past. h.stat past resolved) (λ _. credential_stat resolved)
    lift (require (not (ltb max_credential_bytes stat.st_size)) credential_file_error)
    raw ← perform (λ past. h.read_bytes past resolved) (λ _. credential_read resolved)
    pure (stat, raw)

  -- `configured.parent.resolve(strict=False)`
  unfoldable pub mount_of : Text → M (List Text)
  mount_of path w = (h.mount_dir w.events path, w)

  unfoldable pub read_credential : Text → M CredentialRead
  read_credential path = do
    mount_dir ← mount_of path
    resolved ←
        refuse_os_error (perform (λ past. h.resolve past path) (λ _. credential_resolved path))
    lift (require (is_relative_to resolved mount_dir) credential_file_error)
    read ← refuse_os_error (stat_and_read resolved)
    password ← lift (password_of read.1)
    rotation_ref ← lift (h.iso_utc read.0.st_mtime)
    pure (record { password = password; rotation_ref = rotation_ref })
