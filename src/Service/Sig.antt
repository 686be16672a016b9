-- ===== src/Service/Sig.antt =====
-- `ServiceSession::sig` of crates/keyring-service/src/runtime.rs. The crates `ssh_key`, `rsa` and
-- `sha2`, and the flag values of `ssh_agent_lib`, are the parameter `Signing`.
pub mod Laws
use Prim.Native.Nat.{bit_and}
use keyring_rs.Base.{
  ℕ, ◌-◌, ◌*◌, ◌^◌, Bool, not, List, [], ◌∷◌, Option, leb, ltb, ◌==◌, if◌then◌else◌,
}
use keyring_rs.Base.Result.{Result, ok, err, ok_or, and_then}
use keyring_rs.Core.Provider.{SshKey, Algorithm, ed25519, rsa, other_algorithm}

pub data HashAlg : Type 0 where
  sha256 sha512 : HashAlg

abbrev pub Bytes : Type 0
Bytes = List ℕ

-- The numbers of an RSA key pair that `sig` reads.
pub record RsaKeypair (Mpint : Type 0) : Type 0 where
  pub n : Mpint
  pub e : Mpint
  pub d : Mpint
  pub p : Mpint
  pub q : Mpint

pub record Signing (K : SshKey) : Type 1 where
  pub Signature : Type 0
  pub Mpint : Type 0
  pub BigUint : Type 0
  pub RsaPrivateKey : Type 0
  pub try_sign : K.PrivateKey → Bytes → Option Signature
  pub rsa_keypair : K.PrivateKey → Option (RsaKeypair Mpint)
  pub big_uint : Mpint → Option BigUint
  pub from_components : BigUint → BigUint → BigUint → List BigUint → Option RsaPrivateKey
  pub size : RsaPrivateKey → ℕ
  pub rsa_try_sign : HashAlg → RsaPrivateKey → Bytes → Option Bytes
  pub new_signature : HashAlg → Bytes → Option Signature
  pub rsa_sha2_256 : ℕ
  pub rsa_sha2_512 : ℕ

pub data SigError : Type 0 where
  failed_to_sign only_sha2 not_rsa bad_component failed_to_prepare too_small : SigError
  invalid_rsa_signature unsupported_algorithm : SigError

abbrev pub rsa_min_bits : ℕ
rsa_min_bits = 2048

-- `usize` has 64 bits on the supported targets.
abbrev pub usize_max : ℕ
usize_max = 2 ^ 64 - 1

unfoldable pub saturating_mul : ℕ → ℕ → ℕ
saturating_mul a b = if leb (a * b) usize_max then a * b else usize_max

-- `flags & flag != 0`
abbrev pub has_flag : ℕ → ℕ → Bool
has_flag flags flag = not (bit_and flags flag == 0)

infixl 5 ◌>>=◌ ◌>>◌
abbrev ◌>>=◌ {ℓ κ} :
    {A : Type ℓ} {B : Type κ} → Result SigError A → (A → Result SigError B) → Result SigError B
m >>= f = and_then m f

abbrev ◌>>◌ {ℓ} : {B : Type ℓ} → Result SigError (Unit {0}) → Result SigError B → Result SigError B
m >> k = and_then m (λ _. k)

module _ {K : SshKey} (S : Signing K) where
  unfoldable pub choose_hash : ℕ → Result SigError HashAlg
  choose_hash flags =
      if has_flag flags S.rsa_sha2_256
      then ok HashAlg.sha256
      else if has_flag flags S.rsa_sha2_512
      then ok HashAlg.sha512
      else err only_sha2

  unfoldable pub prepare : RsaKeypair S.Mpint → Result SigError S.RsaPrivateKey
  prepare pair = do
    n ← ok_or (S.big_uint pair.n) bad_component
    e ← ok_or (S.big_uint pair.e) bad_component
    d ← ok_or (S.big_uint pair.d) bad_component
    p ← ok_or (S.big_uint pair.p) bad_component
    q ← ok_or (S.big_uint pair.q) bad_component
    ok_or (S.from_components n e d (p ∷ q ∷ [])) failed_to_prepare

  abbrev check_size : S.RsaPrivateKey → Result SigError (Unit {0})
  check_size key = if ltb (saturating_mul (S.size key) 8) rsa_min_bits then err too_small else ok tt

  unfoldable pub sig_rsa : K.PrivateKey → Bytes → ℕ → Result SigError S.Signature
  unfolding choose_hash prepare saturating_mul
  sig_rsa key bytes flags = do
    hash ← choose_hash flags
    pair ← ok_or (S.rsa_keypair key) not_rsa
    signer ← prepare pair
    check_size signer
    signed ← ok_or (S.rsa_try_sign hash signer bytes) failed_to_sign
    ok_or (S.new_signature hash signed) invalid_rsa_signature

  -- The match of `sig`.
  unfoldable pub sig_as : Algorithm → K.PrivateKey → Bytes → ℕ → Result SigError S.Signature
  unfolding sig_rsa
  sig_as ed25519 key bytes flags = ok_or (S.try_sign key bytes) failed_to_sign
  sig_as rsa key bytes flags = sig_rsa key bytes flags
  sig_as other_algorithm key bytes flags = err unsupported_algorithm

  unfoldable pub sig : K.PrivateKey → Bytes → ℕ → Result SigError S.Signature
  unfolding sig_as
  sig key bytes flags = sig_as (K.algorithm key) key bytes flags
