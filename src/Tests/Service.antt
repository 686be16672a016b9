-- ===== src/Tests/Service.antt =====
-- The agent of crates/keyring-service on two providers with a key in common.
use mathlib.Core.HLevel.{hedberg}
use mathlib.Core.List.{reverse}
use mathlib.Core.List.Perm
use mathlib.Core.List.Permᴰ
use mathlib.Core.Option.{or_else}
use keyring_rs.Base.{
  ℕ, suc, ◌≡◌, ◌≢◌, All, refl, ap, ◌⊎◌, ◌↔◌, true, false, List, [], ◌∷◌, none, some, ℕ_discrete,
  arith,
}
use keyring_rs.Base.Text.{text, text_eq}
use keyring_rs.Base.Result.{ok, err}
use keyring_rs.Core.Provider.{Algorithm, KeyPairProvider, rsa}
use keyring_rs.Service.KeyMap.{key_map}
use keyring_rs.Service.KeyMap.Machine.{answers}
use keyring_rs.Service.KeyMap.Replies.{replies, replies-answers}
use keyring_rs.Service.Index.{get, extend}
use keyring_rs.Service.Index.Laws.{last_with}
use keyring_rs.Service.Sig.{sig}
use keyring_rs.Service.Sig.Laws.{Signed, sig_iff-Signed}
use keyring_rs.Service.Session.{
  ServiceAgent, ServiceSession, SignRequest, unpublished_key, new_session, load_once,
  request_identities, sign, extension, bind,
}
use keyring_rs.Service.Session.Loading.{collect, load_once-last, IsIndexed}
use keyring_rs.Service.Session.Listing.{listing, IsListing, request_identities-IsListing}
use keyring_rs.Service.Session.Agreement.{Answers, sign-request_identities}
use keyring_rs.Service.Session.Signatures.{sign-last}
use keyring_rs.Service.Session.Snapshot.{
  Call, lists, signs, perform_all, perform_all-warm, perform_all-new_session,
}
use keyring_rs.Service.Session.Binding.{
  IsBound, Accepts, appended, extensions, extension_cases, extensions-IsBound, extensions-locked,
}
use keyring_rs.Tests.Toy.{
  Key, Message, named, toy_key, toy_signing, toy_proto, compare-IsTotalOrder,
}

-- The world counts the calls of providers.
abbrev left : KeyPairProvider toy_key ℕ ℕ
left calls = (ok (named 5 (text "old") ∷ named 3 (text "b") ∷ []), suc calls)

abbrev right : KeyPairProvider toy_key ℕ ℕ
right calls = (ok (named 5 (text "new") ∷ []), suc calls)

abbrev broken : KeyPairProvider toy_key ℕ ℕ
broken calls = (err 7, suc calls)

abbrev agent : ServiceAgent toy_key ℕ ℕ
agent = record { providers = left ∷ right ∷ [] }

abbrev cold : ServiceSession toy_key ℕ ℕ
cold = record { providers = left ∷ right ∷ []; keys = none; binds = [] }

abbrev loaded : List (ℕ × Key)
loaded = (5, named 5 (text "new")) ∷ (3, named 3 (text "b")) ∷ []

abbrev warm : ServiceSession toy_key ℕ ℕ
warm = record { providers = left ∷ right ∷ []; keys = some loaded; binds = [] }

cold_loads : load_once toy_key (cold, 0) ≡ (ok loaded, (warm, 2))
unfolding load_once extend ℕ_discrete
cold_loads = refl

load_once-last_example :
    (m : List (ℕ × Key)) × (load_once toy_key (cold, 0)
      ≡ (ok m, (record cold { keys = some m }, 2)))
    × ((d : ℕ)
        → get toy_key d m
          ≡ last_with toy_key d
              (named 5 (text "old") ∷ named 3 (text "b") ∷ named 5 (text "new") ∷ []))
unfolding collect
load_once-last_example = (load_once-last toy_key cold 0 refl).0 _ _ refl

sign-last_example :
    (sign toy_key toy_signing (record { pubkey = 5; bytes = 1 ∷ []; flags = 0 }) (cold, 0)).0
    ≡ ok (5 ∷ 1 ∷ [])
unfolding collect sig ℕ_discrete or_else
sign-last_example =
    ((sign-last toy_key toy_signing (record { pubkey = 5; bytes = 1 ∷ []; flags = 0 }) cold 0
        refl).0
      _ _ refl).0

-- The map may be iterated in any order, here backwards.
request_identities-IsListing_example :
    (request_identities toy_key reverse (cold, 0) ≡ (ok (listing toy_key loaded), (warm, 2)))
    × IsListing toy_key loaded (listing toy_key loaded)
request_identities-IsListing_example =
    request_identities-IsListing toy_key reverse compare-IsTotalOrder
      (λ m. Perm.symm ∣ Permᴰ.reverse m ∣₁) (cold, 0) (warm, 2) loaded cold_loads (omega arith)

cold_lists : request_identities toy_key reverse (cold, 0) ≡ (ok (listing toy_key loaded), (warm, 2))
cold_lists =
    (request_identities-IsListing toy_key reverse compare-IsTotalOrder
      (λ m. Perm.symm ∣ Permᴰ.reverse m ∣₁) (cold, 0) (warm, 2) loaded cold_loads (omega arith)).0

sign-request_identities_example :
    All (Answers toy_key toy_signing (warm, 2)) (listing toy_key loaded)
    × ((req : SignRequest ℕ)
        → All (λ id. id.pubkey ≢ req.pubkey) (listing toy_key loaded)
        → sign toy_key toy_signing req (warm, 2) ≡ (err unpublished_key, (warm, 2)))
sign-request_identities_example =
    sign-request_identities toy_key toy_signing reverse compare-IsTotalOrder
      (λ m. Perm.symm ∣ Permᴰ.reverse m ∣₁) (cold, 0) (warm, 2) (listing toy_key loaded) tt
      cold_lists

abbrev calls : List (Call toy_key toy_proto)
calls = lists ∷ signs (record { pubkey = 3; bytes = []; flags = 2 }) ∷ lists ∷ []

perform_all-warm_example :
    ((perform_all toy_key toy_signing toy_proto reverse calls (warm, 2)).0.keys ≡ some loaded)
    × ((perform_all toy_key toy_signing toy_proto reverse calls (warm, 2)).1 ≡ 2)
perform_all-warm_example = perform_all-warm toy_key toy_signing toy_proto reverse calls warm 2 refl

perform_all-new_session_example :
    IsIndexed toy_key
      (perform_all toy_key toy_signing toy_proto reverse calls
        (new_session toy_key agent, 0)).0.keys
perform_all-new_session_example =
    perform_all-new_session toy_key toy_signing toy_proto reverse agent calls 0

Algorithm-discrete : Discrete Algorithm
Algorithm-discrete = hlevel

Key-set : IsSet Key
Key-set = hlevel (hedberg ℕ_discrete, hedberg Algorithm-discrete)

-- The requests reach a session that has loaded nothing yet.
replies-answers_example :
    replies toy_key toy_signing toy_proto reverse calls (cold, 0)
    ≡ answers toy_key toy_signing toy_proto Key-set compare-IsTotalOrder
        (record { keys = key_map toy_key loaded (omega arith); binds = [] })
        calls
replies-answers_example =
    replies-answers toy_key toy_signing toy_proto reverse Key-set compare-IsTotalOrder
      (λ m. Perm.symm ∣ Permᴰ.reverse m ∣₁) calls (cold, 0) loaded (omega arith)
      (ap (λ r. r.0) cold_loads)

abbrev rsa_key : Key
rsa_key = record { number = 256; label = []; kind = rsa }

-- Both SHA-2 flags are set.
sig_iff-Signed_example :
    (sig toy_signing rsa_key (9 ∷ []) 6 ≡ ok (256 ∷ 9 ∷ []))
    ↔ Signed toy_signing rsa_key (9 ∷ []) 6 (256 ∷ 9 ∷ [])
sig_iff-Signed_example = sig_iff-Signed toy_signing rsa_key (9 ∷ []) 6 (256 ∷ 9 ∷ [])

rsa_signs : sig toy_signing rsa_key (9 ∷ []) 6 ≡ ok (256 ∷ 9 ∷ [])
unfolding sig
rsa_signs = refl

abbrev hop : Message
hop = record { title = bind; id = 1 ∷ []; fwd = true; good = true }

abbrev login : Message
login = record { title = bind; id = 2 ∷ []; fwd = false; good = true }

extension_cases_example :
    ((extension toy_key toy_proto hop cold).1 ≡ cold)
    ⊎ ((b : Message) × Accepts toy_proto hop [] b
        × (extension toy_key toy_proto hop cold ≡ (ok none, appended toy_key toy_proto b cold)))
extension_cases_example = extension_cases toy_key toy_proto hop cold

extensions-IsBound_example :
    IsBound
      (extensions toy_key toy_proto (hop ∷ login ∷ hop ∷ []) (new_session toy_key agent)).binds
extensions-IsBound_example = extensions-IsBound toy_key toy_proto agent (hop ∷ login ∷ hop ∷ [])

binds_once :
    (extensions toy_key toy_proto (hop ∷ hop ∷ login ∷ hop ∷ []) cold).binds
    ≡ record { id = 1 ∷ []; fwd = true } ∷ record { id = 2 ∷ []; fwd = false } ∷ []
unfolding extensions extension text_eq
binds_once = refl

abbrev locked : ServiceSession toy_key ℕ ℕ
locked = record cold { binds = record { id = 2 ∷ []; fwd = false } ∷ [] }

locked_stays : extensions toy_key toy_proto (hop ∷ login ∷ []) locked ≡ locked
locked_stays = extensions-locked toy_key toy_proto (hop ∷ login ∷ []) locked refl
