-- ===== src/Store/Certificates.antt =====
-- memory.go: certificates, and what a search through them finds.
use ttd_elektronik.Prelude.{
  ℕ, String, Bool, Option, none, some, List, [], ◌∷◌, ◌==◌, get, put, values, Result, ok, err, ltb,
  or_else, Ranging, sort_by, keep, if◌then◌else◌,
}
use ttd_elektronik.Store.Types.{Certificate, Error, not_found, cert_active, cert_revoked}
use ttd_elektronik.Store.Memory.{Memory}

unfoldable pub create_certificate : String → Certificate → Memory → Memory × Certificate
create_certificate fresh c m =
    let c' = record c { id = or_else c.id fresh; status = or_else c.status cert_active } in
    (record m { certificates = put m.certificates c'.id c' }, c')

unfoldable pub certificate : String → Memory → Result Error Certificate
certificate id m = elim (get m.certificates id) [ none ↦ err not_found | some c ↦ ok c ]

-- One round of the loop of `CertificateByDevice`; `none` is `!found`.
abbrev pub newer_certificate : String → Option Certificate → Certificate → Option Certificate
newer_certificate device none c = if c.device_id == device then some c else none
newer_certificate device (some l) c =
    if c.device_id == device
    then (if ltb l.not_before c.not_before then some c else some l)
    else some l

abbrev pub latest_certificate : String → Option Certificate → List Certificate → Option Certificate
latest_certificate device latest [] = latest
latest_certificate device latest (c ∷ cs) =
    latest_certificate device (newer_certificate device latest c) cs

unfoldable pub certificate_by_device : Ranging → String → Memory → Result Error Certificate
certificate_by_device r device m =
    elim (latest_certificate device none (r.range Certificate (values m.certificates))) [
      | none ↦ err not_found
      | some c ↦ ok c
    ]

abbrev pub certificate_before : Certificate → Certificate → Bool
certificate_before a b = ltb a.not_before b.not_before

unfoldable pub certificates_by_account : Ranging → String → Memory → List Certificate
certificates_by_account r id m =
    sort_by certificate_before
      (keep (λ c. c.account_id == id) (r.range Certificate (values m.certificates)))

abbrev pub first_serial : String → List Certificate → Option Certificate
first_serial serial [] = none
first_serial serial (c ∷ cs) = if c.serial == serial then some c else first_serial serial cs

unfoldable pub certificate_by_serial : Ranging → String → Memory → Result Error Certificate
certificate_by_serial r serial m =
    elim (first_serial serial (r.range Certificate (values m.certificates))) [
      | none ↦ err not_found
      | some c ↦ ok c
    ]

abbrev pub revoked : String → ℕ → Certificate → Certificate
revoked reason now c = record c { status = cert_revoked; revoked_at = now; rev_reason = reason }

unfoldable pub revoke_certificate : String → String → ℕ → Memory → Memory × Result Error (Unit {0})
revoke_certificate id reason now m = elim (get m.certificates id) [
  | none ↦ (m, err not_found)
  | some c ↦ (record m { certificates = put m.certificates id (revoked reason now c) }, ok tt)
]
