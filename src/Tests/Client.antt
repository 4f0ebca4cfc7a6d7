-- ===== src/Tests/Client.antt =====
-- Examples for the results on the client's uploads and its key store.
use ttd_elektronik.Prelude.{
  ℕ, ◌+◌, String, Option, none, some, List, [], ◌∷◌, ok, err, empty, ◌≡◌, ◌≢◌, refl, arith,
}
use ttd_elektronik.Store.Types.{Bytes}
use ttd_elektronik.Api.Types.{Response}
use ttd_elektronik.Api.Uploads.{Uploads}
use ttd_elektronik.Api.Uploads.Resume.{HasReceived}
use ttd_elektronik.Client.Api.{Call, Client, out_of_fuel}
use ttd_elektronik.Client.Keystore.{
  Dpapi, Codec, Draws, Blob, KdfParams, pin_needed, protect, unprotect,
}
use ttd_elektronik.Client.Keystore.Opened.{ReadsBack, unprotect-protect}
use ttd_elektronik.Client.Upload.{upload_bytes}
use ttd_elektronik.Client.Upload.Sent.{upload_bytes-ends}
use ttd_elektronik.Client.Upload.Received.{serve, upload_bytes-HasReceived}
use ttd_elektronik.Tests.Encoding.{
  Encoding, number, via, both, list, text, to_bytes, of_bytes, of_bytes-to_bytes,
}
use ttd_elektronik.Tests.World.{pdf}
use ttd_elektronik.Tests.Authority.{sealing, sealing-Opens, block}

abbrev pub client : Client
client = record { base = "https://ttd"; token = "t" }

-- A network that is down.
abbrev down : String → Call → ℕ → ℕ × Option Response
down token call n = (n + 1, none)

upload_bytes-ends_example : (upload_bytes down client (1 ∷ 2 ∷ []) 0).1 ≢ err out_of_fuel
upload_bytes-ends_example = upload_bytes-ends down client (1 ∷ 2 ∷ []) 0

abbrev uploads : Uploads
uploads = record { dir = "/tmp"; sessions = empty; files = empty }

upload_bytes-HasReceived_example :
    (um : Uploads) × (upload_bytes (serve "7" 10 200 "a1") client pdf uploads ≡ (um, ok "up_7"))
    × HasReceived um "up_7" "a1" pdf
upload_bytes-HasReceived_example =
    upload_bytes-HasReceived "7" 10 200 "a1" client pdf uploads (omega arith)

abbrev bytes : Encoding Bytes
bytes = list number

abbrev kdf_params : Encoding KdfParams
kdf_params =
    via (both (both text number) (both number (both number bytes)))
      (λ ((n, t), (m, (p, s))). record {
        name = n;
        time_cost = t;
        mem_kib = m;
        threads = p;
        salt = s;
      })
      (λ k. ((k.name, k.time_cost), (k.mem_kib, (k.threads, k.salt)))) (λ k. refl)

abbrev listed : Option KdfParams → List KdfParams
listed none = []
listed (some k) = k ∷ []

abbrev first : List KdfParams → Option KdfParams
first [] = none
first (k ∷ ks) = some k

abbrev first-listed : (k : Option KdfParams) → first (listed k) ≡ k
first-listed none = refl
first-listed (some k) = refl

abbrev kdf : Encoding (Option KdfParams)
kdf = via (list kdf_params) first listed first-listed

abbrev blob : Encoding Blob
blob =
    via
      (both (both (both number number) (both kdf bytes))
        (both (both bytes bytes) (both bytes bytes)))
      (λ (((v, t), (k, n)), ((c, wn), (wc, d))). record {
        version = v;
        created_at = t;
        kdf = k;
        key_nonce = n;
        key_ct = c;
        wrap_nonce = wn;
        wrap_ct = wc;
        dpapi_blob = d;
      })
      (λ b. (
        ((b.version, b.created_at), (b.kdf, b.key_nonce)),
        ((b.key_ct, b.wrap_nonce), (b.wrap_ct, b.dpapi_blob)),
      ))
      (λ b. refl)

abbrev pub codec : Codec
codec = record { write = to_bytes blob; read = of_bytes blob }

-- DPAPI puts a byte in front.
abbrev opened : Bytes → Option Bytes
opened [] = none
opened (b ∷ bs) = some bs

abbrev pub dpapi : Dpapi
dpapi = record { protect = λ secret. some (9 ∷ secret); unprotect = opened }

dpapi_back : (secret dp : Bytes) → dpapi.protect secret ≡ some dp → dpapi.unprotect dp ≡ some secret
dpapi_back secret [] e = absurd (ground arith)
dpapi_back secret (b ∷ bs) e = ground arith

codec-ReadsBack : ReadsBack dpapi codec
codec-ReadsBack = record { blob = of_bytes-to_bytes blob; dpapi = dpapi_back }

abbrev pub draws : Draws
draws = record {
  now = 5;
  wrap_key = some (1 ∷ []);
  key_nonce = some (2 ∷ []);
  salt = some (3 ∷ []);
  wrap_nonce = some (4 ∷ []);
}

-- The PKCS#8 form of a sample key, in PEM, and its blob under a PIN.
abbrev pub pkcs8 : Bytes
pkcs8 = to_bytes block (record { type = "PRIVATE KEY"; bytes = 5 ∷ [] })

abbrev pub pin : String
pin = "1234"

abbrev pub kept : Bytes
kept = elim (protect sealing dpapi codec draws pin pkcs8) [ ok raw ↦ raw | err e ↦ [] ]

protect-ok : protect sealing dpapi codec draws pin pkcs8 ≡ ok kept
unfolding protect
protect-ok = refl

unprotect-protect_example :
    (unprotect sealing dpapi codec pin kept ≡ ok pkcs8)
    × (pin ≢ "" → unprotect sealing dpapi codec "" kept ≡ err pin_needed)
unprotect-protect_example =
    unprotect-protect sealing dpapi codec sealing-Opens codec-ReadsBack draws "1234" pkcs8 kept
      protect-ok
