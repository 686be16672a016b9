-- ===== src/Providers/Dummy.antt =====
-- crates/keyring-providers/src/dummy: a provider of one fixed key. `Ed25519Keypair::from_seed` and the
-- conversion to a private key are the parameter `from_seed`.
use keyring_rs.Base.{ℕ, zero, suc, List, [], ◌∷◌, if◌then◌else◌}
use keyring_rs.Base.Text.{Text, is_blank}
use keyring_rs.Base.Result.{Result, ok, err}
use keyring_rs.Core.Provider.{SshKey, KeyPairSnapshot, KeyPairProvider}

pub record DummyProviderConfig : Type 0 where
  pub name : Text

pub record DummyProvider (K : SshKey) : Type 0 where
  pub identities : KeyPairSnapshot K

pub data DummyError : Type 0 where
  dummy_name_empty : DummyError

abbrev pub repeat : ℕ → ℕ → List ℕ
repeat x zero = []
repeat x (suc n) = x ∷ repeat x n

-- `[7_u8; 32]`
abbrev pub seed : List ℕ
seed = repeat 7 32

module _ (K : SshKey) where
  unfoldable pub load_dummy : {W E : Type 0} → DummyProvider K → KeyPairProvider K W E
  load_dummy provider w = (ok provider.identities, w)

  unfoldable pub try_from_dummy :
      (List ℕ → K.PrivateKey) → DummyProviderConfig → Result DummyError (DummyProvider K)
  unfolding is_blank
  try_from_dummy from_seed value =
      if is_blank value.name
      then err dummy_name_empty
      else ok (record { identities = from_seed seed ∷ [] })
