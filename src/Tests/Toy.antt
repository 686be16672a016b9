-- ===== src/Tests/Toy.antt =====
-- Small stand-ins for the crates that the models take as parameters.
use Prim.Native.Nat.{compare}
use keyring_rs.Base.{ℕ, Bool, List, [], ◌∷◌, none, some, arith, ℕ_discrete, ltb, if◌then◌else◌}
use keyring_rs.Base.Text.{Text}
use keyring_rs.Base.Sort.{IsTotalOrder}
use keyring_rs.Core.Provider.{SshKey, Algorithm, ed25519}
use keyring_rs.Service.Sig.{Signing, Bytes}
use keyring_rs.Service.Session.{AgentProto}

pub record Key : Type 0 where
  pub number : ℕ
  pub label : Text
  pub kind : Algorithm

abbrev pub toy_key : SshKey
toy_key = record {
  PrivateKey = Key;
  KeyData = ℕ;
  key_data = λ k. k.number;
  comment = λ k. k.label;
  set_comment = λ k c. record k { label = c };
  algorithm = λ k. k.kind;
  from_openssh = λ s. elim s [
    | [] ↦ none
    | c ∷ rest ↦ some (record { number = c; label = rest; kind = ed25519 })
  ];
  key_data_eq = ℕ_discrete;
  cmp = compare;
}

pub compare-IsTotalOrder : IsTotalOrder compare
compare-IsTotalOrder = record {
  eq_of_cmp = λ a b h. ground arith;
  cmp_refl = λ a. ground arith;
  gt_flip = λ a b h. ground arith;
  lt_flip = λ a b h. ground arith;
  lt_trans = λ a b c h k. ground arith;
}

-- A signature shows the key and the data.
abbrev pub toy_signing : Signing toy_key
toy_signing = record {
  Signature = List ℕ;
  Mpint = ℕ;
  BigUint = ℕ;
  RsaPrivateKey = ℕ;
  try_sign = λ k bytes. some (k.number ∷ bytes);
  rsa_keypair = λ k. some (record { n = k.number; e = 3; d = 5; p = 7; q = 11 });
  big_uint = λ m. some m;
  from_components = λ n e d primes. if ltb 0 n then some n else none;
  size = λ n. n;
  rsa_try_sign = λ hash n bytes. some (n ∷ bytes);
  new_signature = λ hash bytes. some bytes;
  rsa_sha2_256 = 2;
  rsa_sha2_512 = 4;
}

-- A message with its name, the bind that it holds, and whether its signature is good.
pub record Message : Type 0 where
  pub title : Text
  pub id : Bytes
  pub fwd : Bool
  pub good : Bool

abbrev pub toy_proto : AgentProto
toy_proto = record {
  Extension = Message;
  name = λ m. m.title;
  SessionBind = Message;
  session_id = λ m. m.id;
  is_forwarding = λ m. m.fwd;
  parse_message = λ m. some (some m);
  verify_signature = λ m. m.good;
  query_response = λ names. none;
}

abbrev pub named : ℕ → Text → Key
named n label = record { number = n; label = label; kind = ed25519 }
