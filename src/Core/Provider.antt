-- ===== src/Core/Provider.antt =====
-- crates/keyring-core/src/provider.rs, and what the program uses of the crate `ssh_key`.
use Prim.Native.Nat.{Ordering}
use keyring_rs.Base.{List, Option}
use keyring_rs.Base.Text.{Text}
use keyring_rs.Base.Result.{Run}

-- `ssh_key::Algorithm`, as far as the signing code tells algorithms apart.
pub data Algorithm : Type 0 where
  ed25519 rsa other_algorithm : Algorithm

-- The types and operations of `ssh_key` that stand in for private keys and public key blobs.
pub record SshKey : Type 1 where
  pub PrivateKey : Type 0
  pub KeyData : Type 0
  pub key_data : PrivateKey → KeyData
  pub comment : PrivateKey → Text
  pub set_comment : PrivateKey → Text → PrivateKey
  pub algorithm : PrivateKey → Algorithm
  pub from_openssh : Text → Option PrivateKey
  pub key_data_eq : Discrete KeyData
  pub cmp : KeyData → KeyData → Ordering

-- A loaded set of keys. Sharing by `Arc` is invisible, since nothing mutates a published key.
abbrev pub KeyPairSnapshot : SshKey → Type 0
KeyPairSnapshot K = List K.PrivateKey

-- `KeyPairProvider::load`, over a world `W` that holds the provider's own state, with errors `E`.
abbrev pub KeyPairProvider : SshKey → Type 0 → Type 0 → Type 0
KeyPairProvider K W E = Run W E (KeyPairSnapshot K)
