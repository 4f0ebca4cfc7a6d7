-- ===== src/Api/Uploads/Resume.antt =====
-- A file that is sent in chunks, each at the offset that the server has reached.
use mathlib.Core.List.{flatten}
use ttd_elektronik.Prelude.{
  ℕ, ◌+◌, ◌-◌, min, ◌≤◌, String, none, some, List, [], ◌∷◌, ◌++◌, get, put, get-put, ◌≡◌, ap,
  eq_iff, eq_refl, arith, length, take, length-append, take_all, append-nil, append_assoc,
}
use ttd_elektronik.Store.Types.{Bytes}
use ttd_elektronik.Api.Types.{write_json, num}
use ttd_elektronik.Api.Uploads.{Session, Uploads, healthy, lookup, append_chunk, h_upload_chunk}

-- The account's session `id` has received exactly this content.
pub record HasReceived (um : Uploads) (id account : String) (content : Bytes) : Type 0 where
  pub session : Session
  pub found : lookup id account um ≡ some session
  pub named : session.id ≡ id
  pub sized : session.size ≡ length content
  pub filed : get um.files session.path ≡ some content

module _ (limit now : ℕ) (id account : String) where
  abbrev pub grown : Session → Bytes → Bytes → Uploads → Uploads
  grown s content chunk um = record um {
    sessions = put um.sessions s.id (record s { size = s.size + length chunk; updated = now });
    files = put um.files s.path (content ++ chunk);
  }

  append_chunk-fits :
      (um : Uploads) (s : Session) (content chunk : Bytes)
      → length content + length chunk ≤ limit
      → s.size ≡ length content
      → get um.files s.path ≡ some content
      → append_chunk s (length content) limit now healthy chunk um
        ≡ (grown s content chunk um, s.size + length chunk, none)
  unfolding append_chunk
  append_chunk-fits um s content chunk fits sized filed =
      let n : ℕ = min (limit + 1 - s.size) (length chunk) in
      let whole : n ≡ length chunk = omega arith in
      ground (arith, whole, ap (λ k. take k chunk) whole, take_all (length chunk) chunk)

  pub h_upload_chunk-fits :
      (um : Uploads) (content chunk : Bytes)
      → length content + length chunk ≤ limit
      → (h : HasReceived um id account content)
      → h_upload_chunk id (length content) limit now healthy chunk account um ≡ (
        grown h.session content chunk um,
        write_json 200 (("received", num (length content + length chunk)) ∷ []),
      )
  unfolding h_upload_chunk
  h_upload_chunk-fits um content chunk fits h =
      rw
        (h.found, h_upload_chunk, append_chunk-fits um h.session content chunk fits h.sized h.filed)
        (ground (arith, h.sized))

  pub grown-HasReceived :
      (um : Uploads) (content chunk : Bytes) (h : HasReceived um id account content)
      → HasReceived (grown h.session content chunk um) id account (content ++ chunk)
  unfolding lookup
  grown-HasReceived um content chunk h =
      let s = h.session in
      record {
        session = record s { size = s.size + length chunk; updated = now };
        found = ground (
          arith,
          get-put um.sessions s.id id (record s { size = s.size + length chunk; updated = now }),
          eq_iff s.id id,
          h.named,
          h.found,
        );
        named = h.named;
        sized = omega (arith, h.sized, length-append content chunk);
        filed = ground (arith, get-put um.files s.path s.path (content ++ chunk), eq_refl s.path);
      }

  -- The client's loop: each chunk goes to the offset that the chunks before it have reached.
  pub send : List Bytes → ℕ → Uploads → Uploads
  send [] offset um = um
  send (chunk ∷ chunks) offset um =
      send chunks (offset + length chunk)
        (h_upload_chunk id offset limit now healthy chunk account um).0

  -- On a healthy disk, however a file is cut into chunks, sent one after another behind what the
  -- session has received, and within the limit with it, the scratch file ends as what it held and
  -- then the file.
  pub send-HasReceived :
      (um : Uploads) (content : Bytes) (chunks : List Bytes)
      → length content + length (flatten chunks) ≤ limit
      → HasReceived um id account content
      → HasReceived (send chunks (length content) um) id account (content ++ flatten chunks)
  unfolding send flatten
  send-HasReceived um content [] fits h = rw append-nil h
  send-HasReceived um content (chunk ∷ chunks) fits h =
      let all_fits : length (content ++ chunk) + length (flatten chunks) ≤ limit =
        omega (arith, length-append content chunk, length-append chunk (flatten chunks)) in
      let this_fits : length content + length chunk ≤ limit =
        omega (arith, length-append content chunk, all_fits) in
      let done =
        send-HasReceived (grown h.session content chunk um) (content ++ chunk) chunks all_fits
          (grown-HasReceived um content chunk h) in
      rw (h_upload_chunk-fits um content chunk this_fits h, ← append_assoc, ← length-append) done
