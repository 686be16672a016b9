-- ===== src/Providers/Bitwarden/Models.antt =====
-- crates/keyring-providers/src/bitwarden/models.rs: the part of a `/sync` payload that is used.
-- A UUID is a number.
use keyring_rs.Base.{ℕ, Bool, false, not, List, Option, none, some}
use keyring_rs.Base.Int.{ℤ, pos, int_eq}
use keyring_rs.Base.Text.{Text, is_blank}

pub record BitwardenProfileOrganization : Type 0 where
  pub id : Option ℕ
  pub key : Option Text

pub record BitwardenProfile : Type 0 where
  pub organizations : Option (List BitwardenProfileOrganization)

pub record BitwardenCipherSshKey : Type 0 where
  pub private_key : Option Text

pub record BitwardenCipher : Type 0 where
  pub id : Option ℕ
  pub organization_id : Option ℕ
  pub cipher_type : Option ℤ
  pub name : Option Text
  pub deleted_date : Option Text
  pub archived_date : Option Text
  pub key : Option Text
  pub ssh_key : Option BitwardenCipherSshKey

pub record BitwardenSyncResponse : Type 0 where
  pub profile : Option BitwardenProfile
  pub ciphers : Option (List BitwardenCipher)

abbrev pub cipher_type_ssh_key : ℤ
cipher_type_ssh_key = pos 5

unfoldable pub has_non_blank_value : Option Text → Bool
unfolding is_blank
has_non_blank_value none = false
has_non_blank_value (some value) = not (is_blank value)

abbrev pub type_eq : Option ℤ → ℤ → Bool
type_eq none t = false
type_eq (some s) t = int_eq s t

unfoldable pub is_ssh_key : BitwardenCipher → Bool
is_ssh_key cipher = type_eq cipher.cipher_type cipher_type_ssh_key

unfoldable pub is_deleted : BitwardenCipher → Bool
unfolding has_non_blank_value
is_deleted cipher = has_non_blank_value cipher.deleted_date

unfoldable pub is_archived : BitwardenCipher → Bool
unfolding has_non_blank_value
is_archived cipher = has_non_blank_value cipher.archived_date
