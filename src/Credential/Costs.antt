-- ===== src/Credential/Costs.antt =====
-- What the reading of a credential adds to a count of calls.
use cognic_tool_oracle_schem.Base.{ℕ, ◌≤◌, ◌≡◌, Bool, false, List, Text, arith}
use cognic_tool_oracle_schem.Credential.{read_credential}
use cognic_tool_oracle_schem.Credential.Keeps.{read_credential-Keeps}
use cognic_tool_oracle_schem.Host.{
  Event, credential_resolved, credential_stat, credential_read, Host, World,
}
use cognic_tool_oracle_schem.Host.Costs.{count, Costs}

-- Reading a credential makes calls of its own only.
pub record IsNotReading (test : Event → Bool) : Type 0 where
  pub resolving : (path : Text) → test (credential_resolved path) ≡ false
  pub looking : (path : List Text) → test (credential_stat path) ≡ false
  pub reading : (path : List Text) → test (credential_read path) ≡ false

-- No more than `k` of them so far.
record Within (test : Event → Bool) (k : ℕ) (w : World) : Type 0 where
  so_far : count test w.events ≤ k

pub read_credential-Costs :
    (h : Host) (test : Event → Bool) (path : Text)
    → IsNotReading test
    → Costs test 0 (read_credential h path)
read_credential-Costs h test path other = record {
  at = λ w.
      let within =
        ((read_credential-Keeps h {P = Within test (count test w.events)}
            (record {
              resolving = λ p v s. record { so_far = rw (other.resolving p) s.so_far };
              looking = λ p v s. record { so_far = rw (other.looking p) s.so_far };
              reading = λ p v s. record { so_far = rw (other.reading p) s.so_far };
            })
            path).at
          w (record { so_far = omega arith })).so_far in
      omega (arith, within);
}
