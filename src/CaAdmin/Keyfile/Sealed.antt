-- ===== src/CaAdmin/Keyfile/Sealed.antt =====
-- A sealed CA key opens under its passphrase, is refused without one, and under another whose key AES-GCM
-- does not accept.
use ttd_elektronik.Prelude.{
  String, none, some, false, ok, err, ◌==◌, ◌≡◌, ◌≢◌, arith, Bool-cases, ==-false,
}
use ttd_elektronik.Store.Types.{Bytes}
use ttd_elektronik.CaAdmin.Files.{Json, ReadsBack, wrong_passphrase, passphrase_needed}
use ttd_elektronik.CaAdmin.Keyfile.{
  Sealing, seal_key_pem, open_key_pem, sealed_blob, derive_key, argon_time, argon_mem_kib,
  argon_threads,
}

-- AES-GCM: what is sealed opens under its key and nonce.
pub record Opens (z : Sealing) : Type 0 where
  pub opens : (key nonce pt : Bytes) → z.open_ key nonce (z.seal key nonce pt) ≡ some pt

module _ (j : Json) (z : Sealing) (reads : ReadsBack j) (law : Opens z) where
  abbrev key_of : String → Bytes → Bytes
  key_of pass salt = derive_key j z pass salt argon_time argon_mem_kib argon_threads

  -- The authentication of what was sealed under the one passphrase fails under the other.
  abbrev pub IsApart : Bytes → Bytes → Bytes → String → String → Type 0
  IsApart salt nonce pem pass other =
      z.open_ (key_of other salt) nonce (z.seal (key_of pass salt) nonce pem) ≡ none

  -- What is sealed under a passphrase opens under it as the same key; it is refused without a
  -- passphrase, and under one with which the authentication fails.
  pub open_key_pem-seal_key_pem :
      (salt nonce pem blob : Bytes) (pass other : String)
      → seal_key_pem j z (some salt) (some nonce) pem pass ≡ ok blob
      → IsApart salt nonce pem pass other
      → (open_key_pem j z blob pass ≡ ok pem)
        × (open_key_pem j z blob "" ≡ err passphrase_needed)
        × (other ≢ "" → open_key_pem j z blob other ≡ err wrong_passphrase)
  unfolding seal_key_pem open_key_pem
  open_key_pem-seal_key_pem salt nonce pem blob pass other e apart =
      let given : (pass == "") ≡ false = ground (arith, Bool-cases (pass == "")) in
      let written : j.blob (sealed_blob j z pass salt nonce pem) ≡ blob = ground arith in
      let read = reads.blob (sealed_blob j z pass salt nonce pem) in
      (
        rw (← written, open_key_pem, read, given)
            (ground (arith, law.opens (key_of pass salt) nonce pem)),
        rw (← written, open_key_pem, read) (ground arith),
        λ named.
            rw (← written, open_key_pem, read, ==-false other "" named) (ground (arith, apart)),
      )
