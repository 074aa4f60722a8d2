-- ===== src/Tls.antt =====
-- src/tlsdate-helper.c: the checks of the server's certificate, for OpenSSL. What the library answers
-- is data; `none` and `false` are `die`.
pub mod Openssl
pub mod Names
pub mod Keys
pub mod Trust
pub mod Dated
pub mod Times
pub mod Success
pub mod Returns
pub mod Session
pub mod Polarssl
use tlsdate.Base.{
  ℕ, ◌+◌, Bool, true, false, not, ◌&&◌, ◌||◌, List, [], ◌∷◌, Option, none, some, ltb, leb, ◌==◌,
  if◌then◌else◌, length, Bytes, codes, str_eq, str_case_eq,
}
use tlsdate.Base.Int.{ℤ, is_minus_one, is_count}
use tlsdate.ProxyBio.{c_string}
use tlsdate.Wildcard.{check_wildcard_match_rfc2595}

-- A name among the subjectAltNames, as `i2v` prints it: its type and its value.
pub record GeneralName : Type 0 where
  pub name : Bytes
  pub value : Bytes

-- What the library makes of an extension: there is no method for it, it cannot be decoded, the method
-- prints no names, or it prints these.
pub data Content : Type 0 where
  no_method not_decoded not_printed : Content
  names : List GeneralName → Content

pub record Extension : Type 0 where
  pub short_name : Bytes
  pub content : Content

-- EVP_PKEY_*.
pub data KeyType : Type 0 where
  rsa rsa2 dsa dsa1 dsa2 dsa3 dsa4 dh ec unknown : KeyType

-- `bits` is the size of the number that the source measures for the type, or EVP_PKEY_bits.
pub record Key : Type 0 where
  pub key_type : KeyType
  pub bits : ℕ

-- `common_name` is the result of X509_NAME_get_text_by_NID with the bytes in its buffer.
pub record Certificate : Type 0 where
  pub common_name : ℤ × Bytes
  pub extensions : List Extension
  pub public_key : Option Key

-- X509_V_*.
pub data VerifyResult : Type 0 where
  x509_v_ok depth_zero_self_signed_cert self_signed_cert_in_chain : VerifyResult
  another : ℤ → VerifyResult

-- `check_cn`: does the name match? `none` where it cannot be read.
unfoldable pub check_cn : Certificate → Bytes → Option Bool
check_cn cert hostname =
    let (ret, buf) = cert.common_name in
    let cn_buf = c_string buf in
    if is_minus_one ret || not (is_count ret (length cn_buf))
    then none
    else some (str_case_eq cn_buf hostname)

abbrev pub is_match : Option Bool → Bool
is_match none = false
is_match (some ok) = ok

-- One round of the loop over the names.
abbrev pub name_matches : Bytes → GeneralName → Bool
name_matches hostname nval =
    (str_case_eq nval.name (codes "DNS") && str_case_eq nval.value hostname)
    || (str_case_eq nval.name (codes "iPAddress") && str_case_eq nval.value hostname)
    || (str_case_eq nval.name (codes "DNS")
        && is_match (check_wildcard_match_rfc2595 hostname nval.value))

unfoldable pub check_names : Bytes → List GeneralName → Bool
check_names hostname [] = false
check_names hostname (nval ∷ rest) = name_matches hostname nval || check_names hostname rest

-- The part for an extension subjectAltName, before the result of the later ones; two of the contents
-- end the loop.
unfoldable pub check_content : Bytes → Content → Bool → Bool
unfolding check_names
check_content hostname Content.no_method later = false
check_content hostname Content.not_decoded later = false
check_content hostname Content.not_printed later = later
check_content hostname (Content.names vals) later = check_names hostname vals || later

-- The loop over the extensions.
unfoldable pub check_extensions : Bytes → List Extension → Bool
unfolding check_content
check_extensions hostname [] = false
check_extensions hostname (ext ∷ rest) =
    let later = check_extensions hostname rest in
    if str_eq ext.short_name (codes "subjectAltName")
    then check_content hostname ext.content later
    else later

-- `check_san`.
abbrev pub check_san : Certificate → Bytes → Bool
check_san cert hostname = check_extensions hostname cert.extensions

-- `check_name`.
unfoldable pub check_name : Option Certificate → Bytes → Bool
unfolding check_cn check_extensions
check_name none hostname = false
check_name (some cert) hostname = elim (check_cn cert hostname) [
  | none ↦ false
  | some cn ↦ cn || check_san cert hostname
]

-- `verify_signature`.
abbrev pub verify_signature : Option Certificate → VerifyResult → Bool
verify_signature none result = false
verify_signature (some cert) VerifyResult.x509_v_ok = true
verify_signature (some cert) _ = false

-- `inspect_key`.
unfoldable pub inspect_key : Option Certificate → VerifyResult → Bytes → Bool
unfolding check_name
inspect_key cert result hostname = verify_signature cert result && check_name cert hostname

-- `get_certificate_keybits`, by the type of the key.
abbrev pub keybits : KeyType → ℕ → Option ℕ
keybits KeyType.unknown bits = none
keybits _ bits = some bits

abbrev pub get_certificate_keybits : Key → Option ℕ
get_certificate_keybits key = keybits key.key_type key.bits

abbrev pub is_ec : KeyType → Bool
is_ec KeyType.ec = true
is_ec _ = false

-- MIN_PUB_KEY_LEN, MIN_ECC_PUB_KEY_LEN, MAX_ECC_PUB_KEY_LEN.
abbrev pub min_pub_key_len : ℕ
min_pub_key_len = 1023

abbrev pub min_ecc_pub_key_len : ℕ
min_ecc_pub_key_len = 160

abbrev pub max_ecc_pub_key_len : ℕ
max_ecc_pub_key_len = 521

abbrev pub safe_bits : KeyType → ℕ → Bool
safe_bits type key_bits =
    if leb key_bits min_pub_key_len && not (is_ec type)
    then false
    else if is_ec type
    then leb min_ecc_pub_key_len key_bits && leb key_bits max_ecc_pub_key_len
    else true

abbrev pub safe_key : Key → Bool
safe_key key = elim (get_certificate_keybits key) [
  | none ↦ false
  | some key_bits ↦ safe_bits key.key_type key_bits
]

-- `check_key_length`.
unfoldable pub check_key_length : Option Certificate → Bool
check_key_length none = false
check_key_length (some cert) = elim cert.public_key [ none ↦ false | some key ↦ safe_key key ]
