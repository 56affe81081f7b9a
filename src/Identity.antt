-- ===== src/Identity.antt =====
-- crates/nxfr-crypto/src/identity.rs: the public key of a certificate and the device id that is derived
-- from it. The X.509 parser (`from_der`, which yields the raw SubjectPublicKeyInfo) and SHA-256 are
-- arguments.
use nxfr.Prelude.{ℕ, List, Result, ok, ◌>>=◌}

-- `X.509 parse failed: …`, with the text of the parser left out.
pub data IdentityError : Type 0 where
  parse_failed : IdentityError

module _ (from_der : List ℕ → Result IdentityError (List ℕ)) where
  abbrev pub extract_spki : List ℕ → Result IdentityError (List ℕ)
  extract_spki cert_der = do subject_pki ← from_der cert_der; ok subject_pki

  unfoldable pub device_id_from_cert : (List ℕ → List ℕ) → List ℕ → Result IdentityError (List ℕ)
  device_id_from_cert sha256 cert_der = do spki ← extract_spki cert_der; ok (sha256 spki)
