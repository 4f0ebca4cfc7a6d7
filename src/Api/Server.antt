-- ===== src/Api/Server.antt =====
-- api.go: the configuration and the state of the server.
use ttd_elektronik.Prelude.{
  ℕ, ◌*◌, ◌≤◌, ◌<◌, min, String, Bool, ◌||◌, eqb, ltb, if◌then◌else◌, arith,
}
use ttd_elektronik.Store.Types.{Bytes}
use ttd_elektronik.Store.Memory.{Memory}
use ttd_elektronik.Api.Uploads.{Uploads}

-- `lab_issuer` says whether a CA is online, `issuer_org` is its `Org`.
pub record Config : Type 0 where
  pub root_ca_pem : Bytes
  pub ca_chain_pem : Bytes
  pub public_base_url : String
  pub max_upload_bytes : ℕ
  pub max_stamp_bytes : ℕ
  pub max_verify_bytes : ℕ
  pub access_ttl : ℕ
  pub lab_issuer : Bool
  pub issuer_org : String

-- What requests change.
pub record Server : Type 0 where
  pub st : Memory
  pub crl : Bytes
  pub uploads : Uploads

abbrev mib : ℕ
mib = 1048576

-- The defaults that `New` fills in for the size limits, one statement after another. The limits
-- are `int64` in the code; negative ones are not modelled.
abbrev default_upload : Config → Config
default_upload c = if eqb c.max_upload_bytes 0 then record c { max_upload_bytes = 25 * mib } else c

abbrev default_stamp : Config → Config
default_stamp c =
    if eqb c.max_stamp_bytes 0 || ltb c.max_upload_bytes c.max_stamp_bytes
    then record c { max_stamp_bytes = min c.max_upload_bytes (150 * mib) }
    else c

abbrev default_verify : Config → Config
default_verify c =
    if eqb c.max_verify_bytes 0 || ltb c.max_upload_bytes c.max_verify_bytes
    then record c { max_verify_bytes = min c.max_upload_bytes (350 * mib) }
    else c

abbrev raise_verify : Config → Config
raise_verify c =
    if ltb c.max_verify_bytes c.max_stamp_bytes
    then record c { max_verify_bytes = c.max_stamp_bytes }
    else c

unfoldable pub with_limits : Config → Config
with_limits c = raise_verify (default_verify (default_stamp (default_upload c)))

-- Whatever is configured, the tiers nest: the server stamps nothing that it could not verify, and
-- verifies nothing that it could not receive; no tier is empty.
pub with_limits_nest :
    (c : Config)
    → (0 < (with_limits c).max_stamp_bytes)
      × ((with_limits c).max_stamp_bytes ≤ (with_limits c).max_verify_bytes)
      × ((with_limits c).max_verify_bytes ≤ (with_limits c).max_upload_bytes)
unfolding with_limits
with_limits_nest c = ground arith
