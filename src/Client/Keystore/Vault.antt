-- ===== src/Client/Keystore/Vault.antt =====
-- store.go: the client's vault on disk. A file is named by its path in the vault; `Disk` says which
-- files can be written and renamed.
use ttd_elektronik.Prelude.{
  ℕ, String, ◌&◌, Bool, true, false, none, some, Result, ok, err, Dict, empty, get, put, remove,
  if◌then◌else◌,
}
use ttd_elektronik.Store.Types.{Bytes}
use ttd_elektronik.CaAdmin.Keyfile.{Sealing}
use ttd_elektronik.Client.Keystore.{
  Dpapi, Codec, Draws, Failure, no_file, unwritable, protect, unprotect,
}

abbrev pub key_file : String
key_file = "keys/device-key.pqk"

abbrev pub device_cert : String
device_cert = "certificates/device.crt.pem"

abbrev pub chain_cert : String
chain_cert = "certificates/ca-chain.pem"

abbrev pub root_cert : String
root_cert = "certificates/root-ca.crt.pem"

abbrev pub state_file : String
state_file = "state.json"

pub record State : Type 0 where
  pub server_base_url : String
  pub account_email : String
  pub device_id : String
  pub enrollment_id : String
  pub certificate_sn : String
  pub has_pin : Bool
  pub updated_at : ℕ

abbrev pub no_state : State
no_state = record {
  server_base_url = "";
  account_email = "";
  device_id = "";
  enrollment_id = "";
  certificate_sn = "";
  has_pin = false;
  updated_at = 0;
}

-- encoding/json of the state; reading one gives what could be decoded, and whether there was no error.
pub record StateCodec : Type 0 where
  pub write : State → Bytes
  pub read : Bytes → State × Bool

pub record Disk : Type 0 where
  pub writes : String → Bool
  pub renames : String → Bool

abbrev pub Vault : Type 0
Vault = Dict Bytes

module _ (d : Disk) where
  -- `writeFile`: to a file beside it, which takes its place.
  unfoldable pub write_file : String → Bytes → Vault → Vault × Result Failure (Unit {0})
  write_file p b v =
      if d.writes (p & ".tmp")
      then (if d.renames p
          then (put (remove v (p & ".tmp")) p b, ok tt)
          else (put v (p & ".tmp") b, err unwritable))
      else (v, err unwritable)

  -- `SaveDeviceCertPEM`, `SaveChainPEM`, `SaveRootPEM`
  abbrev pub save_device_cert_pem : Bytes → Vault → Vault × Result Failure (Unit {0})
  save_device_cert_pem pem = write_file device_cert pem

  abbrev pub save_chain_pem : Bytes → Vault → Vault × Result Failure (Unit {0})
  save_chain_pem pem = write_file chain_cert pem

  abbrev pub save_root_pem : Bytes → Vault → Vault × Result Failure (Unit {0})
  save_root_pem pem = write_file root_cert pem

  module _ (z : Sealing) (w : Dpapi) (j : Codec) where
    -- `SaveKey`
    unfoldable pub save_key : Draws → String → Bytes → Vault → Vault × Result Failure (Unit {0})
    save_key draws pin pkcs8 v = elim (protect z w j draws pin pkcs8) [
      | err e ↦ (v, err e)
      | ok b ↦ write_file key_file b v
    ]

  module _ (sc : StateCodec) where
    -- `SaveState`, at the time `now`
    unfoldable pub save_state : ℕ → State → Vault → Vault × Result Failure (Unit {0})
    save_state now st v = write_file state_file (sc.write (record st { updated_at = now })) v

-- `HasKey`
abbrev pub has_key : Vault → Bool
has_key v = elim (get v key_file) [ none ↦ false | some b ↦ true ]

-- `LoadKey`
unfoldable pub load_key : Sealing → Dpapi → Codec → String → Vault → Result Failure Bytes
load_key z w j pin v = elim (get v key_file) [ none ↦ err no_file | some b ↦ unprotect z w j pin b ]

-- `DeleteKey`
abbrev pub delete_key : Vault → Vault
delete_key v = remove v key_file

abbrev read_file : String → Vault → Result Failure Bytes
read_file p v = elim (get v p) [ none ↦ err no_file | some b ↦ ok b ]

-- `DeviceCertPEM`, `ChainPEM`, `RootPEM`
abbrev pub device_cert_pem : Vault → Result Failure Bytes
device_cert_pem v = read_file device_cert v

abbrev pub chain_pem : Vault → Result Failure Bytes
chain_pem v = read_file chain_cert v

abbrev pub root_pem : Vault → Result Failure Bytes
root_pem v = read_file root_cert v

-- `State`, with its error thrown away, as every caller does.
abbrev pub state_of : StateCodec → Vault → State
state_of sc v = elim (get v state_file) [ none ↦ no_state | some b ↦ (sc.read b).0 ]

-- `Reset`
abbrev pub reset : Vault → Vault
reset v = empty
