-- ===== src/Tests/CaAdmin.antt =====
-- Examples for the results on the offline CA tool.
use ttd_elektronik.Prelude.{
  ℕ, ◌+◌, ◌*◌, String, true, some, List, [], ◌∷◌, ok, err, get, put, empty, not, ◌==◌, ◌≡◌, refl,
  in_order, subst, arith,
}
use ttd_elektronik.Store.Types.{Bytes}
use ttd_elektronik.Core.Certutil.{Certificate, CrlStatus, validate_crl}
use ttd_elektronik.Core.Labpki.{
  Ca, Draw, DeviceCertOptions, hour, issue_device_cert, RevokedEntry, plain, new_crl_detailed, day,
}
use ttd_elektronik.Core.Labpki.Issued.{IsPaired, issue_device_cert-accepted}
use ttd_elektronik.CaAdmin.Serials.{set_string, hex, cert_serial_hex}
use ttd_elektronik.CaAdmin.Files.{Files, Env, Ledger, unwritable, Spares, write_file}
use ttd_elektronik.CaAdmin.Castore.{
  loaded, load_ledger, load_ca, open_store, save_ledger, publish, init, write_ca,
}
use ttd_elektronik.CaAdmin.Commands.{cmd_init, cmd_revoke, cmd_crl}
use ttd_elektronik.CaAdmin.Commands.Revoked.{ledger_of}
use ttd_elektronik.CaAdmin.Commands.Listed.{HasRevoked}
use ttd_elektronik.CaAdmin.Commands.Refines.{Shows, cmd_crl-refines, cmd_crl-cmd_revoke}
use ttd_elektronik.CaAdmin.Commands.Unsaved.{IsSigned, cmd_crl-unsaved}
use ttd_elektronik.CaAdmin.History.{Command, revoke, crl, run_all}
use ttd_elektronik.CaAdmin.History.Grows.{Grows, IsCareful, AreCareful, run_all-Grows}
use ttd_elektronik.Core.Keys.{generate_mldsa65_key, marshal_pkcs8_pem, marshal_pkcs8, parse_pkcs8}
use ttd_elektronik.Core.Certutil.{parse_certificate_pem, parse_and_validate_certificate, describe}
use ttd_elektronik.Core.Labpki.{new_root_ca, new_intermediate_ca, self_sign, cert_pem, chain_pem}
use ttd_elektronik.CaAdmin.Audit.{log_ceremony, sha256_file, sums}
use ttd_elektronik.CaAdmin.Files.{append_line}
use ttd_elektronik.CaAdmin.Serials.{hex_onto, digits_value}
use ttd_elektronik.CaAdmin.Commands.{reason_code}
use ttd_elektronik.Tests.World.{requests, request, leaf}
use ttd_elektronik.Tests.Authority.{
  x509, keyring, pki, pki-IsFaithful, json, json-ReadsBack, sealing, env, initialised,
}

abbrev fresh_ledger : Ledger
fresh_ledger = record { crl_number = 0; revocations = [] }

abbrev note : ℕ → ℕ → String
note number count = ""

abbrev target : Certificate
target = record leaf { serial = 26 }

abbrev revoked : Files
revoked =
    (cmd_revoke x509 requests keyring pki json sealing env (cert_serial_hex 26) "superseded"
      initialised).0

abbrev published : Files
published = (cmd_crl x509 requests keyring pki json sealing env in_order note 7 "" revoked).0

abbrev after : Ledger
after = record {
  crl_number = 1;
  revocations =
      record { serial = "1a"; reason = "superseded"; reason_code = 4; revoked_at = 5000000000 }
      ∷ [];
}

initialised_ledger : ledger_of json initialised ≡ ok fresh_ledger
unfolding cmd_init init open_store write_ca loaded load_ca load_ledger save_ledger publish
    write_file append_line log_ceremony sha256_file sums new_root_ca new_intermediate_ca self_sign
    generate_mldsa65_key marshal_pkcs8_pem marshal_pkcs8 parse_pkcs8 parse_certificate_pem cert_pem
    chain_pem get put empty
initialised_ledger = refl

revoke-ok :
    cmd_revoke x509 requests keyring pki json sealing env
      (cert_serial_hex 26)
      "superseded"
      initialised
    ≡ (revoked, ok tt)
unfolding cmd_init init open_store write_ca loaded load_ca load_ledger save_ledger publish
    write_file append_line log_ceremony sha256_file sums new_root_ca new_intermediate_ca self_sign
    generate_mldsa65_key marshal_pkcs8_pem marshal_pkcs8 parse_pkcs8 parse_certificate_pem cert_pem
    chain_pem get put empty cmd_revoke set_string hex hex_onto digits_value reason_code
revoke-ok = refl

crl-ok :
    cmd_crl x509 requests keyring pki json sealing env in_order note 7 "" revoked
    ≡ (published, ok after)
unfolding cmd_init init open_store write_ca loaded load_ca load_ledger save_ledger publish
    write_file append_line log_ceremony sha256_file sums new_root_ca new_intermediate_ca self_sign
    generate_mldsa65_key marshal_pkcs8_pem marshal_pkcs8 parse_pkcs8 parse_certificate_pem cert_pem
    chain_pem get put empty cmd_revoke set_string hex hex_onto digits_value reason_code cmd_crl
    new_crl_detailed
crl-ok = refl

abbrev issuer : Ca
issuer = elim (loaded x509 keyring pki json sealing env "intermediate" revoked) [
  | ok ca ↦ ca
  | err e ↦ record { key = []; cert = leaf }
]

issuer-ok : loaded x509 keyring pki json sealing env "intermediate" revoked ≡ ok issuer
unfolding cmd_init init open_store write_ca loaded load_ca load_ledger save_ledger publish
    write_file append_line log_ceremony sha256_file sums new_root_ca new_intermediate_ca self_sign
    generate_mldsa65_key marshal_pkcs8_pem marshal_pkcs8 parse_pkcs8 parse_certificate_pem cert_pem
    chain_pem get put empty cmd_revoke set_string hex hex_onto digits_value reason_code cmd_crl
    new_crl_detailed
issuer-ok = refl

issuer-pair : IsPaired keyring issuer
unfolding cmd_init init open_store write_ca loaded load_ca load_ledger save_ledger publish
    write_file append_line log_ceremony sha256_file sums new_root_ca new_intermediate_ca self_sign
    generate_mldsa65_key marshal_pkcs8_pem marshal_pkcs8 parse_pkcs8 parse_certificate_pem cert_pem
    chain_pem get put empty cmd_revoke set_string hex hex_onto digits_value reason_code cmd_crl
    new_crl_detailed
issuer-pair = refl

spares : (path : String) → Spares env "" path
spares path q e = absurd (ground arith)

issuer-IsPaired :
    (inter : Ca)
    → loaded x509 keyring pki json sealing env "intermediate" revoked ≡ ok inter
    → IsPaired keyring inter
unfolding cmd_init init open_store write_ca loaded load_ca load_ledger save_ledger publish
    write_file append_line log_ceremony sha256_file sums new_root_ca new_intermediate_ca self_sign
    generate_mldsa65_key marshal_pkcs8_pem marshal_pkcs8 parse_pkcs8 parse_certificate_pem cert_pem
    chain_pem get put empty cmd_revoke set_string hex hex_onto digits_value reason_code cmd_crl
    new_crl_detailed
issuer-IsPaired inter e =
    let same : issuer ≡ inter = ground (arith, issuer-ok, e) in
    subst (IsPaired keyring) same issuer-pair

cmd_crl-refines_example :
    (before : Ledger) × (ledger_of json revoked ≡ ok before)
    × (ledger_of json published ≡ ok after)
    × (after ≡ record before { crl_number = before.crl_number + 1 })
    × Shows x509 requests keyring pki json sealing json-ReadsBack pki-IsFaithful env revoked
        published
        (HasRevoked before.revocations)
cmd_crl-refines_example =
    cmd_crl-refines x509 requests keyring pki json sealing json-ReadsBack pki-IsFaithful env
      in_order note 7 "" revoked published after issuer-IsPaired (spares "ledger.json")
      (spares "public/crl.pem") crl-ok

cmd_crl-cmd_revoke_example :
    (pem : Bytes) × (inter : Ca) × (get published.files "public/crl.pem" ≡ some pem)
    × (loaded x509 keyring pki json sealing env "intermediate" revoked ≡ ok inter)
    × ((now : ℕ)
        → (st : CrlStatus) × (validate_crl x509 pem (some inter.cert) target now ≡ ok st)
          × (st.revoked ≡ true))
cmd_crl-cmd_revoke_example =
    cmd_crl-cmd_revoke x509 requests keyring pki json sealing json-ReadsBack pki-IsFaithful env env
      "superseded" target in_order note 7 "" initialised revoked published after revoke-ok
      issuer-IsPaired (spares "ledger.json") (spares "public/crl.pem") crl-ok

abbrev runs : List (Env × Command)
runs = (env, revoke "1a" "superseded") ∷ (env, crl note 7 "") ∷ []

env-IsCareful : IsCareful x509 requests keyring pki json sealing in_order json-ReadsBack env
env-IsCareful = (refl, λ p q e. absurd (ground arith))

runs-AreCareful : AreCareful x509 requests keyring pki json sealing in_order json-ReadsBack runs
runs-AreCareful = (env-IsCareful, (env-IsCareful, tt))

run_all-Grows_example :
    (l : Ledger) × (ledger_of json
        (run_all x509 requests keyring pki json sealing in_order runs initialised)
      ≡ ok l)
    × Grows fresh_ledger l
run_all-Grows_example =
    run_all-Grows x509 requests keyring pki json sealing in_order json-ReadsBack runs fresh_ledger
      initialised runs-AreCareful initialised_ledger

-- The intermediate authority issues a certificate for the key of a sample request.
abbrev draw : Draw
draw = record { now = 2 * hour; serial = some 26; random = [] }

abbrev options : DeviceCertOptions
options = record {
  subject = record { common_name = "Sari"; organization = []; organizational_unit = [] };
  validity = 0;
  crl_url = "";
  not_before = 0;
}

abbrev issued : Certificate
issued = elim (issue_device_cert x509 keyring pki draw issuer request options) [
  | ok cert ↦ cert
  | err e ↦ leaf
]

issued-ok : issue_device_cert x509 keyring pki draw issuer request options ≡ ok issued
unfolding issue_device_cert
issued-ok = refl

issue_device_cert-accepted_example :
    (issued.public_key ≡ request.public_key)
    × (parse_and_validate_certificate x509 (cert_pem x509 keyring pki issued) (3 * hour)
        ≡ ok (issued, describe x509 issued))
issue_device_cert-accepted_example =
    issue_device_cert-accepted x509 keyring pki pki-IsFaithful draw issuer request options issued
      issued-ok refl (3 * hour) (omega arith) (omega arith)

-- A disk on which the ledger cannot be written.
abbrev full : Env
full = record env { can_write = λ path. not (path == "ledger.json") }

abbrev before : Ledger
before = record after { crl_number = 0 }

abbrev listed : List RevokedEntry
listed = record { serial = plain 26; reason = 4; at = 5000000000 } ∷ []

abbrev crl_pem : Bytes
crl_pem = elim (new_crl_detailed x509 keyring pki env.now issuer listed 1 (7 * day)) [
  | ok pem ↦ pem
  | err e ↦ []
]

revoked-IsSigned :
    IsSigned x509 requests keyring pki json sealing full in_order revoked 7 before crl_pem
unfolding cmd_init init open_store write_ca loaded load_ca load_ledger save_ledger publish
    write_file append_line log_ceremony sha256_file sums new_root_ca new_intermediate_ca self_sign
    generate_mldsa65_key marshal_pkcs8_pem marshal_pkcs8 parse_pkcs8 parse_certificate_pem cert_pem
    chain_pem get put empty cmd_revoke set_string hex hex_onto digits_value reason_code cmd_crl
    new_crl_detailed
revoked-IsSigned = record {
  entries = listed;
  inter = issuer;
  open_now = refl;
  found = refl;
  signer = refl;
  read = refl;
  made = refl;
  published = refl;
}

cmd_crl-unsaved_example :
    let (f, result) =
      cmd_crl x509 requests keyring pki json sealing full in_order note 7 "" revoked in
    (result ≡ err unwritable)
    × (get f.files "public/crl.pem" ≡ some crl_pem)
    × (ledger_of json f ≡ ok before)
cmd_crl-unsaved_example =
    cmd_crl-unsaved x509 requests keyring pki json sealing full in_order note 7 "" revoked before
      crl_pem revoked-IsSigned refl
