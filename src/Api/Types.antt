-- ===== src/Api/Types.antt =====
-- server/internal/api: what the handlers share. A handler takes the server's state and a request
-- that has been decoded, and gives the new state and the response.
use ttd_elektronik.Prelude.{ℕ, ◌&◌, String, Bool, true, Option, some, ◌≡◌, List, [], ◌∷◌}
use ttd_elektronik.Store.Types.{
  Bytes, AuditEvent, Error, not_found, email_taken, signature_exists, event,
}
use ttd_elektronik.Core.Verification.{Report}
use ttd_elektronik.Store.Memory.{Memory}
use ttd_elektronik.Store.Signatures.{append}

-- A JSON scalar; `time` is an instant that `fmtTime` prints.
pub data Value : Type 0 where
  str : String → Value
  num : ℕ → Value
  flag : Bool → Value
  time : ℕ → Value

abbrev pub Object : Type 0
Object = List (String × Value)

-- `table` is an object with one field, an array of objects; `report` is the answer of the public
-- verifier, with the record where the document is registered.
pub data Body : Type 0 where
  json : Object → Body
  table : String → List Object → Body
  file : Bytes → Body
  report : Report → Option Object → Body

pub record Response : Type 0 where
  pub code : ℕ
  pub body : Body

-- `writeJSON` and `writeErr`
abbrev pub write_json : ℕ → Object → Response
write_json code fields = record { code = code; body = json fields }

abbrev pub write_err : ℕ → String → Response
write_err code msg = write_json code (("error", str msg) ∷ [])

-- auth.Claims
pub record Claims : Type 0 where
  pub sub : String
  pub role : String
  pub exp : ℕ
  pub iat : ℕ

-- What a request draws from outside: one reading of the clock, and random ids by number.
pub record Draw : Type 0 where
  pub now : ℕ
  pub id : ℕ → String

-- `s.st.Append(…)`, with the id that it draws
abbrev pub log : String → ℕ → AuditEvent → Memory → Memory
log = append

-- `s.audit(…)`
abbrev pub audit : String → ℕ → String → Claims → String → String → String → Memory → Memory
audit fresh now type c device result detail =
    append fresh now (event type c.sub device result detail)

-- `err.Error()` of an error of the store
unfoldable pub error_text : Error → String
error_text not_found = "store: not found"
error_text email_taken = "store: email already registered"
error_text (signature_exists id) = "store: signature " & id & " already exists"

-- `auth.HashPassword`, with the salt that it draws (`none` where it fails), and
-- `auth.VerifyPassword`.
pub record Passwords : Type 0 where
  pub hash : String → String → Option String
  pub verify : String → String → Bool
  pub verify_hash : (salt p h : String) → hash salt p ≡ some h → verify p h ≡ true
