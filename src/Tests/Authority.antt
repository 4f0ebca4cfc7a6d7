-- ===== src/Tests/Authority.antt =====
-- A sample authority: what crypto/x509, encoding/pem, encoding/json and AES-GCM do, on the sample
-- encoding, and a CA directory that has just been initialised.
use ttd_elektronik.Prelude.{
  ℕ, ◌+◌, String, Bool, true, false, Option, none, some, List, [], ◌∷◌, ◌≡◌, ◌↔◌, refl, arith,
  Bool-cases, inl, inr, In, same_bytes, same_bytes_iff, subst, in_order, if◌then◌else◌, empty, ap,
  sym, ◌∙◌,
}
use ttd_elektronik.Store.Types.{Bytes}
use ttd_elektronik.Core.Certutil.{X509, Certificate, Block, Crl}
use ttd_elektronik.Core.Certutil.Revocation.{Lists}
use ttd_elektronik.Core.Keys.{Keyring, PublicKey}
use ttd_elektronik.Core.Labpki.{Pki, Template, ListTemplate, RevokedEntry}
use ttd_elektronik.Core.Labpki.Issued.{IsFaithful, IsMadeFrom, Names, in_seconds}
use ttd_elektronik.CaAdmin.Files.{Files, Json, ReadsBack, Env, Ledger, Revocation, EncBlob}
use ttd_elektronik.CaAdmin.Keyfile.{Sealing}
use ttd_elektronik.CaAdmin.Keyfile.Sealed.{Opens}
use ttd_elektronik.CaAdmin.Commands.{cmd_init}
use ttd_elektronik.Tests.Encoding.{
  Encoding, number, via, both, list, bit, text, to_bytes, of_bytes, of_bytes-to_bytes,
}
use ttd_elektronik.Tests.World.{requests}

abbrev bytes : Encoding Bytes
bytes = list number

abbrev pub block : Encoding Block
block =
    via (both text bytes) (λ (t, b). record { type = t; bytes = b }) (λ b. (b.type, b.bytes))
      (λ b. refl)

-- The serial, the two instants, whether it is a CA, the EKUs, the key and whether that is ML-DSA.
abbrev pub Fields : Type 0
Fields = (ℕ × (ℕ × ℕ)) × ((Bool × List String) × (Bytes × Bool))

abbrev pub fields : Encoding Fields
fields = both (both number (both number number)) (both (both bit (list text)) (both bytes bit))

abbrev as_certificate : Bytes → Fields → Certificate
as_certificate der ((serial, (begins, ends)), ((is_ca, ekus), (key, is_mldsa))) = record {
  raw = der;
  subject = "CN=Sari";
  issuer = "CN=Lab";
  serial = serial;
  key_algorithm = "ML-DSA-65";
  signature_algorithm = "ML-DSA-65";
  is_mldsa = is_mldsa;
  public_key = key;
  not_before = begins;
  not_after = ends;
  is_ca = is_ca;
  unknown_ekus = ekus;
}

abbrev read_certificate : Bytes → Option Certificate
read_certificate der = elim (of_bytes fields der) [
  | none ↦ none
  | some f ↦ some (as_certificate der f)
]

abbrev fields_of : Template → PublicKey → Fields
fields_of t key = (
  (t.serial, (in_seconds t.not_before, in_seconds t.not_after)),
  ((t.is_ca, t.unknown_ekus), (key.bytes, key.is_mldsa)),
)

-- The key of the signer, the two instants and the serials with the instants of their revocation; a
-- serial that is negative is not printed.
abbrev Listing : Type 0
Listing = Bytes × ((ℕ × ℕ) × List (ℕ × ℕ))

abbrev entries : Encoding Listing
entries = both bytes (both (both number number) (list (both number number)))

-- The key of the signer is that of the certificate.
abbrev is_signed_by : Crl → Certificate → Bool
is_signed_by crl c = elim (of_bytes entries crl.raw) [
  | none ↦ false
  | some (key, rest) ↦ same_bytes key c.public_key
]

abbrev kept : List RevokedEntry → List (ℕ × ℕ)
kept [] = []
kept (e ∷ es) = if e.serial.negative then kept es else (e.serial.magnitude, e.at) ∷ kept es

abbrev read_crl : Bytes → Option Crl
read_crl der = elim (of_bytes entries der) [
  | none ↦ none
  | some (key, ((from, to), es)) ↦
      some (record { raw = der; this_update = from; next_update = to; entries = es })
]

abbrev blocks_of : Bytes → List Block
blocks_of raw = elim (of_bytes block raw) [ none ↦ [] | some b ↦ b ∷ [] ]

abbrev pub x509 : X509
x509 = record {
  blocks = blocks_of;
  parse_certificate = read_certificate;
  parse_crl = read_crl;
  signed_by = is_signed_by;
  chains = λ c inter roots at. some 1;
  sha256_hex = λ b. "fp";
  hex = λ n. "07";
}

abbrev pub keyring : Keyring
keyring = record {
  generate = λ random. some random;
  der = λ sk. some sk;
  parse_der = λ der. some (record { secret = der; is_mldsa = true; is_mldsa65 = true });
  public = λ sk. record { bytes = sk; is_mldsa = true };
  encode_pem = to_bytes block;
}

abbrev pub pki : Pki
pki = record {
  create_certificate = λ t parent key sk. some (to_bytes fields (fields_of t key));
  create_list =
      λ t issuer sk. some (to_bytes entries (sk, ((t.this_update, t.next_update), kept t.entries)));
}

made-IsMadeFrom :
    (t : Template) (parent : Option Certificate) (key : PublicKey) (sk der : Bytes)
    (c : Certificate)
    → pki.create_certificate t parent key sk ≡ some der
    → x509.parse_certificate der ≡ some c
    → IsMadeFrom t key der c
made-IsMadeFrom t parent key sk der c made read =
    let f : Fields = fields_of t key in
    let d : Bytes = to_bytes fields f in
    let same : d ≡ der = ground (arith, made) in
    let read_back : read_certificate d ≡ some (as_certificate d f) =
      rw (read_certificate, of_bytes-to_bytes fields f) refl in
    let read_der : read_certificate der ≡ some (as_certificate der f) =
      subst (λ e. read_certificate e ≡ some (as_certificate e f)) same read_back in
    let same_cert : as_certificate der f ≡ c = ground (arith, read_der, read) in
    subst (IsMadeFrom t key der) same_cert (record {
      raw = refl;
      serial = refl;
      begins = refl;
      ends = refl;
      leaf = refl;
      usages = refl;
      keyed = refl;
      mldsa = refl;
    })

abbrev Held : List (ℕ × ℕ) → ℕ → Type 0
Held es n = (at : ℕ) × In (n, at) es

kept-Names : (es : List RevokedEntry) (n : ℕ) → Held (kept es) n ↔ Names es n
kept-Names [] n = (λ (t, i). elim i [ ], λ (e, i, s). elim i [ ])
kept-Names (e ∷ es) n =
    let (down, up) = kept-Names es n in
    elim (Bool-cases e.serial.negative) [
      | inl negative ↦
          let same : kept es ≡ kept (e ∷ es) = rw (kept, negative) refl in
          (
            λ h. let (e', i, s) = down (subst (λ l. Held l n) (sym same) h) in (e', inr i, s),
            λ (e', i, s).
                subst (λ l. Held l n) same
                  (elim i [
                    | inl first ↦ absurd (
                        ground (
                          arith,
                          ap (λ y. y.serial.negative) first,
                          ap (λ y. y.negative) s,
                          negative,
                        ))
                    | inr later ↦ up (e', later, s)
                  ]),
          )
      | inr positive ↦
          let same : (e.serial.magnitude, e.at) ∷ kept es ≡ kept (e ∷ es) =
            rw (kept, positive) refl in
          (
            λ h.
                let (t, i) = subst (λ l. Held l n) (sym same) h in
                elim i [
                  | inl first ↦ (e, inl refl, ground (arith, ap (λ y. y.0) first, positive))
                  | inr later ↦ let (e', i', s) = down (t, later) in (e', inr i', s)
                ],
            λ (e', i, s).
                subst (λ l. Held l n) same
                  (elim i [
                    | inl first ↦ (
                      e.at,
                      inl (
                          ap (λ m. (m, e.at))
                            (sym (
                              ap (λ y. y.serial.magnitude) (sym first) ∙ ap (λ y. y.magnitude) s))),
                    )
                    | inr later ↦ let (t, i') = up (e', later, s) in (t, inr i')
                  ]),
          )
    ]

pub blocks-encode_pem : (b : Block) → x509.blocks (keyring.encode_pem b) ≡ b ∷ []
blocks-encode_pem b = rw (blocks_of, of_bytes-to_bytes block b) refl

listed :
    (t : ListTemplate) (issuer : Certificate) (sk der : Bytes)
    → (keyring.public sk).bytes ≡ issuer.public_key
    → pki.create_list t issuer sk ≡ some der
    → (crl : Crl) × (x509.parse_crl der ≡ some crl)
      × (x509.signed_by crl issuer ≡ true)
      × ((n : ℕ) → Lists crl n ↔ Names t.entries n)
listed t issuer sk der paired made =
    let held : Listing = (sk, ((t.this_update, t.next_update), kept t.entries)) in
    let same : to_bytes entries held ≡ der = ground (arith, made) in
    let crl : Bytes → Crl = λ raw. record {
      raw = raw;
      this_update = t.this_update;
      next_update = t.next_update;
      entries = kept t.entries;
    } in
    let read_back : read_crl (to_bytes entries held) ≡ some (crl (to_bytes entries held)) =
      rw (read_crl, of_bytes-to_bytes entries held) refl in
    (
      crl der,
      subst (λ raw. read_crl raw ≡ some (crl raw)) same read_back,
      subst (λ raw. is_signed_by (crl raw) issuer ≡ true) same
          (rw (is_signed_by, of_bytes-to_bytes entries held)
            ((same_bytes_iff sk issuer.public_key).1 paired)),
      λ n. kept-Names t.entries n,
    )

pub pki-IsFaithful : IsFaithful x509 keyring pki
pki-IsFaithful = record { certificate = made-IsMadeFrom; list = listed; pem = blocks-encode_pem }

abbrev revocation : Encoding Revocation
revocation =
    via (both (both text text) (both number number))
      (λ ((s, r), (c, t)). record { serial = s; reason = r; reason_code = c; revoked_at = t })
      (λ r. ((r.serial, r.reason), (r.reason_code, r.revoked_at))) (λ r. refl)

abbrev ledger : Encoding Ledger
ledger =
    via (both number (list revocation)) (λ (n, rs). record { crl_number = n; revocations = rs })
      (λ l. (l.crl_number, l.revocations)) (λ l. refl)

abbrev blob : Encoding EncBlob
blob =
    via
      (both (both (both number text) (both number number))
        (both number (both bytes (both bytes bytes))))
      (λ (((v, k), (t, m)), (p, (s, (n, c)))). record {
        version = v;
        kdf = k;
        time = t;
        mem_kib = m;
        threads = p;
        salt = s;
        nonce = n;
        ct = c;
      })
      (λ b. (((b.version, b.kdf), (b.time, b.mem_kib)), (b.threads, (b.salt, (b.nonce, b.ct)))))
      (λ b. refl)

abbrev pub json : Json
json = record {
  ledger = to_bytes ledger;
  read_ledger = of_bytes ledger;
  issued = λ r. to_bytes text r.serial;
  ceremony = λ e. to_bytes text e.action;
  blob = to_bytes blob;
  read_blob = of_bytes blob;
}

pub json-ReadsBack : ReadsBack json
json-ReadsBack = record { ledger = of_bytes-to_bytes ledger; blob = of_bytes-to_bytes blob }

-- What is sealed is the key in front of the text.
abbrev sealed : Encoding (Bytes × Bytes)
sealed = both bytes bytes

abbrev opened : Bytes → Bytes → Option Bytes
opened key ct = elim (of_bytes sealed ct) [
  | none ↦ none
  | some (k, pt) ↦ if same_bytes k key then some pt else none
]

abbrev pub sealing : Sealing
sealing = record {
  derive = λ pass salt t m p. to_bytes text pass;
  seal = λ key nonce pt. to_bytes sealed (key, pt);
  open_ = λ key nonce ct. opened key ct;
}

pub sealing-Opens : Opens sealing
sealing-Opens = record {
  opens = λ key nonce pt.
      rw (opened, of_bytes-to_bytes sealed (key, pt), (same_bytes_iff key key).1 refl) refl;
}

abbrev pub env : Env
env = record {
  passphrase = "";
  operator = "op";
  now = 5000000000;
  can_write = λ path. true;
  breaks = λ path. none;
  inside = λ path. none;
  random = λ n. some (n ∷ []);
  serial = λ n. some (n + 26);
}

abbrev pub blank : Files
blank = record { present = false; files = empty; outputs = empty }

abbrev pub initialised : Files
initialised =
    (cmd_init x509 requests keyring pki json sealing env in_order "Root" "Issuing" blank).0
