-- ===== src/Client/Upload/Received.antt =====
-- The client's loop against the server's handlers of resumable uploads.
use ttd_elektronik.Prelude.{
  ℕ, zero, suc, ◌+◌, ◌-◌, ◌≤◌, ◌<◌, String, ◌&◌, false, Option, some, [], ◌∷◌, ◌++◌, ok, ◌≡◌, refl,
  ap, sym, subst, ◌∙◌, arith, ltb, leb, length, take, drop, min, ==-false, append-nonempty,
  Bool-cases, inl, inr, get-put, eq_refl, length-take, length-drop, take_all,
}
use ttd_elektronik.Store.Types.{Bytes}
use ttd_elektronik.Api.Types.{Response, write_err, write_json, num}
use ttd_elektronik.Api.Uploads.{
  Uploads, Session, healthy, h_upload_create, h_upload_chunk, create, lookup, path_of,
}
use ttd_elektronik.Api.Uploads.Resume.{HasReceived, grown, grown-HasReceived, h_upload_chunk-fits}
use ttd_elektronik.Client.Api.{Call, Client, create_upload, patch_upload, do_call}
use ttd_elektronik.Client.Upload.{send_chunk, send_from, upload_bytes, upload_chunk_bytes}

take-drop : (n m : ℕ) (xs : Bytes) → take n xs ++ take m (drop n xs) ≡ take (n + m) xs
take-drop zero m xs = ap (λ k. take k xs) (omega arith)
take-drop (suc n) m [] =
    let empty : take m [] ≡ [] = take_all m [] (omega arith) in
    let empty' : take (suc n + m) [] ≡ [] = take_all (suc n + m) [] (omega arith) in
    empty ∙ sym empty'
take-drop (suc n) m (x ∷ xs) =
    let shift : suc n + m ≡ suc (n + m) = omega arith in
    ap (λ l. x ∷ l) (take-drop n m xs) ∙ ap (λ k. take k (x ∷ xs)) (sym shift)

-- The two routes of resumable uploads, for the requests of one account on a healthy disk. Any other
-- call is answered 404.
module _ (random : String) (now limit : ℕ) (account : String) where
  unfoldable pub serve : String → Call → Uploads → Uploads × Option Response
  serve token create_upload um =
      let (um', r) = h_upload_create (some random) now healthy limit account um in (um', some r)
  serve token (patch_upload id offset chunk) um =
      let (um', r) = h_upload_chunk id offset limit now healthy chunk account um in (um', some r)
  serve token _ um = (um, some (write_err 404 "page not found"))

  module _ (c : Client) (id : String) (raw : Bytes) (fits : length raw ≤ limit) where
    chunk-HasReceived :
        (content chunk : Bytes) (off n : ℕ) (um : Uploads)
        → length content ≡ off
        → length chunk ≡ n
        → off + n ≤ limit
        → HasReceived um id account content
        → (um' : Uploads) × (h_upload_chunk id off limit now healthy chunk account um
            ≡ (um', write_json 200 (("received", num (off + n)) ∷ [])))
          × HasReceived um' id account (content ++ chunk)
    chunk-HasReceived content chunk off n um sent size room h = (
      grown limit now id account h.session content chunk um,
      rw (← sent, ← size)
          (h_upload_chunk-fits limit now id account um content chunk
            (omega (arith, sent, size, room)) h),
      grown-HasReceived limit now id account um content chunk h,
    )

    send_chunk-HasReceived :
        (off : ℕ) (um : Uploads)
        → off < length raw
        → HasReceived um id account (take off raw)
        → (received : ℕ) × (um' : Uploads) × (send_chunk serve c id raw off um ≡ (um', ok received))
          × (off < received)
          × (received ≤ length raw)
          × HasReceived um' id account (take received raw)
    unfolding send_chunk do_call serve
    send_chunk-HasReceived off um more h =
        let n : ℕ = min (off + upload_chunk_bytes) (length raw) - off in
        let chunk = take n (drop off raw) in
        let (um', answer, h') =
          chunk-HasReceived (take off raw) chunk off n um (omega (arith, length-take off raw, more))
            (omega (arith, length-take n (drop off raw), length-drop off raw, more))
            (omega (arith, fits, more)) h in
        let rises : leb (off + n) off ≡ false = ground (arith, more) in
        (
          off + n,
          um',
          ground (arith, answer, rises),
          omega (arith, more),
          omega (arith, more),
          subst (HasReceived um' id account) (take-drop off n raw) h',
        )

    send_from-HasReceived :
        (fuel off : ℕ) (um : Uploads)
        → length raw - off < fuel
        → off ≤ length raw
        → HasReceived um id account (take off raw)
        → (um' : Uploads) × (send_from serve c fuel id raw off um ≡ (um', ok tt))
          × HasReceived um' id account raw
    unfolding send_from
    send_from-HasReceived zero off um enough within h = absurd (omega arith)
    send_from-HasReceived (suc fuel) off um enough within h =
        elim (Bool-cases (ltb off (length raw))) [
          | inr past ↦ (
            um,
            ground (arith, past),
            subst (HasReceived um id account) (take_all off raw (ground (arith, past))) h,
          )
          | inl more ↦
              let below : off < length raw = ground (arith, more) in
              let (received, um', sent, rises, inside, h') =
                send_chunk-HasReceived off um below h in
              let (um'', rest, all) =
                send_from-HasReceived fuel received um' (omega arith) inside h' in
              (um'', ground (arith, more, sent, rest), all)
        ]

  abbrev upload_id : String
  upload_id = "up_" & random

  created-HasReceived :
      (um : Uploads)
      → HasReceived (create (some random) now healthy account um).0 upload_id account []
  unfolding create lookup
  created-HasReceived um =
      let s : Session = record {
        id = upload_id;
        account = account;
        path = path_of um.dir upload_id;
        size = 0;
        updated = now;
      } in
      let nothing_yet : Bytes = [] in
      record {
        session = s;
        found =
            ground (
              arith,
              get-put um.sessions upload_id upload_id s,
              eq_refl upload_id,
              eq_refl account,
            );
        named = refl;
        sized = refl;
        filed = ground (arith, get-put um.files s.path s.path nothing_yet, eq_refl s.path);
      }

  -- The client's upload of a file within the limit, against the server's handlers on a healthy disk over
  -- a network that loses nothing, ends with the id of a session that has received exactly the file.
  pub upload_bytes-HasReceived :
      (c : Client) (raw : Bytes) (um : Uploads)
      → length raw ≤ limit
      → (um' : Uploads) × (upload_bytes serve c raw um ≡ (um', ok upload_id))
        × HasReceived um' upload_id account raw
  unfolding upload_bytes do_call serve h_upload_create create
  upload_bytes-HasReceived c raw um fits =
      let um1 = (create (some random) now healthy account um).0 in
      let (um', sent, h) =
        send_from-HasReceived c upload_id raw fits (length raw + 1) 0 um1 (omega arith)
          (omega arith) (created-HasReceived um) in
      (um', ground (arith, sent, ==-false upload_id "" (append-nonempty "u" "p_" random)), h)
