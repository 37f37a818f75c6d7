-- ===== src/Paging/Device.antt =====
-- What the VM uses of the device, and the keys of vm/src/auth.rs.
use vanadium.Prelude.{ℕ, List, [], ◌∷◌, ◌++◌, Option}
use vanadium.Accumulator.{HashOutput}
use vanadium.Message.{to_be_bytes}

-- SHA-256, the AES block cipher under the key of the session, HMAC-SHA256 of a key and the bytes it
-- is fed, and the secret in the memory of the device.
pub record Device : Type 0 where
  pub digest : List ℕ → HashOutput
  pub block_cipher : List ℕ → Option (List ℕ)
  pub hmac_sha256 : List ℕ → List ℕ → Option (List ℕ)
  pub vm_auth_key : List ℕ

-- "VND_APP_AUTH_KEY"
abbrev tag_app_auth_key : List ℕ
tag_app_auth_key =
    b'V' ∷ b'N' ∷ b'D' ∷ b'_' ∷ b'A' ∷ b'P' ∷ b'P' ∷ b'_' ∷ b'A' ∷ b'U' ∷ b'T' ∷ b'H' ∷ b'_' ∷ b'K'
    ∷ b'E' ∷ b'Y' ∷ []

-- "VND_PAGE_TAG"
abbrev tag_page_hmac : List ℕ
tag_page_hmac =
    b'V' ∷ b'N' ∷ b'D' ∷ b'_' ∷ b'P' ∷ b'A' ∷ b'G' ∷ b'E' ∷ b'_' ∷ b'T' ∷ b'A' ∷ b'G' ∷ []

module _ (D : Device) where
  pub tagged_hash : List ℕ → List ℕ → List ℕ
  tagged_hash tag buffer = D.digest (D.digest tag ++ (D.vm_auth_key ++ buffer))

  pub get_vapp_auth_key : List ℕ → List ℕ
  get_vapp_auth_key vapp_hash = tagged_hash tag_app_auth_key vapp_hash

  pub compute_code_page_hmac : List ℕ → List ℕ → ℕ → List ℕ → Option (List ℕ)
  compute_code_page_hmac app_auth_key vapp_hash page_index page_hash =
      D.hmac_sha256 app_auth_key
        (tag_page_hmac ++ (vapp_hash ++ (to_be_bytes page_index ++ page_hash)))
