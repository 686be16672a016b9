-- ===== src/Service/Sig/Laws.antt =====
-- Which signatures `sig` can return, and when it must fail.
use Prim.Native.Nat.{bit_and}
use keyring_rs.Base.{ℕ, ◌*◌, ◌≤◌, ◌≡◌, refl, ◌≢◌, ◌↔◌, [], ◌∷◌, some, arith}
use keyring_rs.Base.Result.{ok, ok_or, and_then-eq-ok, ok_or-eq-ok}
use keyring_rs.Core.Provider.{SshKey, Algorithm, ed25519, rsa, other_algorithm}
use keyring_rs.Service.Sig.{
  HashAlg, sha256, sha512, Bytes, RsaKeypair, Signing, rsa_min_bits, bad_component, choose_hash,
  prepare, sig_as, sig_rsa, sig, not_rsa, failed_to_sign, check_size, saturating_mul,
}

module _ {K : SshKey} (S : Signing K) where
  -- SHA-256 wins if both flags are set.
  abbrev pub Chosen : ℕ → HashAlg → Type 0
  Chosen flags sha256 = bit_and flags S.rsa_sha2_256 ≢ 0
  Chosen flags sha512 = (bit_and flags S.rsa_sha2_256 ≡ 0) × (bit_and flags S.rsa_sha2_512 ≢ 0)

  -- The signing key is made of the stored n, e, d and of both primes, p first.
  pub record Prepared (pair : RsaKeypair S.Mpint) (signer : S.RsaPrivateKey) : Type 0 where
    pub n : S.BigUint
    pub e : S.BigUint
    pub d : S.BigUint
    pub p : S.BigUint
    pub q : S.BigUint
    pub has_n : S.big_uint pair.n ≡ some n
    pub has_e : S.big_uint pair.e ≡ some e
    pub has_d : S.big_uint pair.d ≡ some d
    pub has_p : S.big_uint pair.p ≡ some p
    pub has_q : S.big_uint pair.q ≡ some q
    pub built : S.from_components n e d (p ∷ q ∷ []) ≡ some signer

  pub data Signed (key : K.PrivateKey) (bytes : Bytes) (flags : ℕ) (out : S.Signature)
      : Type 0 where
    by_ed25519 :
        K.algorithm key ≡ ed25519 → S.try_sign key bytes ≡ some out → Signed key bytes flags out
    by_rsa :
        (hash : HashAlg) (pair : RsaKeypair S.Mpint) (signer : S.RsaPrivateKey) (signed : Bytes)
        → K.algorithm key ≡ rsa
        → Chosen flags hash
        → S.rsa_keypair key ≡ some pair
        → Prepared pair signer
        → rsa_min_bits ≤ S.size signer * 8
        → S.rsa_try_sign hash signer bytes ≡ some signed
        → S.new_signature hash signed ≡ some out
        → Signed key bytes flags out

  choose_hash-Chosen :
      (flags : ℕ) (hash : HashAlg) → choose_hash S flags ≡ ok hash → Chosen flags hash
  unfolding choose_hash
  choose_hash-Chosen flags sha256 h = ground arith
  choose_hash-Chosen flags sha512 h = ground arith

  Chosen-choose_hash :
      (flags : ℕ) (hash : HashAlg) → Chosen flags hash → choose_hash S flags ≡ ok hash
  unfolding choose_hash
  Chosen-choose_hash flags sha256 h = ground arith
  Chosen-choose_hash flags sha512 h = ground arith

  prepare-Prepared :
      (pair : RsaKeypair S.Mpint) (signer : S.RsaPrivateKey)
      → prepare S pair ≡ ok signer
      → Prepared pair signer
  unfolding prepare
  prepare-Prepared pair signer h =
      let (n, hn, h1) = and_then-eq-ok (ok_or (S.big_uint pair.n) bad_component) _ h in
      let (e, he, h2) = and_then-eq-ok (ok_or (S.big_uint pair.e) bad_component) _ h1 in
      let (d, hd, h3) = and_then-eq-ok (ok_or (S.big_uint pair.d) bad_component) _ h2 in
      let (p, hp, h4) = and_then-eq-ok (ok_or (S.big_uint pair.p) bad_component) _ h3 in
      let (q, hq, h5) = and_then-eq-ok (ok_or (S.big_uint pair.q) bad_component) _ h4 in
      record {
        n = n;
        e = e;
        d = d;
        p = p;
        q = q;
        has_n = ok_or-eq-ok _ _ hn;
        has_e = ok_or-eq-ok _ _ he;
        has_d = ok_or-eq-ok _ _ hd;
        has_p = ok_or-eq-ok _ _ hp;
        has_q = ok_or-eq-ok _ _ hq;
        built = ok_or-eq-ok _ _ h5;
      }

  Prepared-prepare :
      (pair : RsaKeypair S.Mpint) (signer : S.RsaPrivateKey)
      → Prepared pair signer
      → prepare S pair ≡ ok signer
  unfolding prepare
  Prepared-prepare pair signer P = rw (P.has_n, P.has_e, P.has_d, P.has_p, P.has_q, P.built)

  check_size_iff :
      (signer : S.RsaPrivateKey)
      → (check_size S signer ≡ ok tt) ↔ (rsa_min_bits ≤ S.size signer * 8)
  unfolding saturating_mul
  check_size_iff signer = (λ h. ground arith, λ h. ground arith)

  sig_rsa-Signed :
      (key : K.PrivateKey) (bytes : Bytes) (flags : ℕ) (out : S.Signature)
      → K.algorithm key ≡ rsa
      → sig_rsa S key bytes flags ≡ ok out
      → Signed key bytes flags out
  unfolding sig_rsa
  sig_rsa-Signed key bytes flags out alg h =
      let (hash, chosen, h1) = and_then-eq-ok (choose_hash S flags) _ h in
      let (pair, found, h2) = and_then-eq-ok (ok_or (S.rsa_keypair key) not_rsa) _ h1 in
      let (signer, prepared, h3) = and_then-eq-ok (prepare S pair) _ h2 in
      let (_, sized, h4) = and_then-eq-ok (check_size S signer) _ h3 in
      let (signed, made, h5) =
        and_then-eq-ok (ok_or (S.rsa_try_sign hash signer bytes) failed_to_sign) _ h4 in
      by_rsa hash pair signer signed alg (choose_hash-Chosen flags hash chosen)
        (ok_or-eq-ok _ _ found) (prepare-Prepared pair signer prepared)
        ((check_size_iff signer).0 sized) (ok_or-eq-ok _ _ made) (ok_or-eq-ok _ _ h5)

  sig_as-Signed :
      (alg : Algorithm) (key : K.PrivateKey) (bytes : Bytes) (flags : ℕ) (out : S.Signature)
      → K.algorithm key ≡ alg
      → sig_as S alg key bytes flags ≡ ok out
      → Signed key bytes flags out
  unfolding sig_as
  sig_as-Signed ed25519 key bytes flags out alg h = by_ed25519 alg (ok_or-eq-ok _ _ h)
  sig_as-Signed rsa key bytes flags out alg h = sig_rsa-Signed key bytes flags out alg h
  sig_as-Signed other_algorithm key bytes flags out alg h = cc

  Signed-sig :
      (key : K.PrivateKey) (bytes : Bytes) (flags : ℕ) (out : S.Signature)
      → Signed key bytes flags out
      → sig S key bytes flags ≡ ok out
  unfolding sig
  Signed-sig key bytes flags out (by_ed25519 alg made) = rw (alg, made)
  Signed-sig key bytes flags out
        (by_rsa hash pair signer signed alg chosen found prepared sized made done) =
      rw (
        alg,
        Chosen-choose_hash flags hash chosen,
        found,
        Prepared-prepare pair signer prepared,
        (check_size_iff signer).1 sized,
        made,
        done,
      )

  -- `sig` returns a signature exactly when the key is ed25519 and signs the data, or is RSA with
  -- a SHA-2 flag set (SHA-256 first), a key pair whose numbers build a signing key of at least
  -- 2048 bits from n, e, d and the primes p and q, and the signing and encoding succeed.
  pub sig_iff-Signed :
      (key : K.PrivateKey) (bytes : Bytes) (flags : ℕ) (out : S.Signature)
      → (sig S key bytes flags ≡ ok out) ↔ Signed key bytes flags out
  unfolding sig
  sig_iff-Signed key bytes flags out =
      (sig_as-Signed (K.algorithm key) key bytes flags out refl, Signed-sig key bytes flags out)
