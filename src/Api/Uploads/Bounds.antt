-- ===== src/Api/Uploads/Bounds.antt =====
-- The invariant of upload sessions: each has its own scratch file, which holds as many bytes as the
-- session says, and at most one byte more than the limit.
use text.Mathlib.TextLemmas.{append_cancel_left, append_cancel_right}
use ttd_elektronik.Prelude.{
  ℕ, ◌+◌, ◌-◌, ◌≤◌, String, ◌&◌, Option, none, some, ◌++◌, get, put, get-put, get-remove, ◌≡◌, ◌≢◌,
  refl, sym, ap, ◌∙◌, eq_iff, arith, length, take, length-append, Bool-cases, [], Option-cases, inl,
  inr, length-take, eqb,
}
use ttd_elektronik.Store.Types.{Bytes}
use ttd_elektronik.Api.Uploads.{
  Session, Uploads, Disk, UploadError, upload_too_big, path_of, create, lookup, append_chunk,
  discard, copied, h_upload_chunk, chunk_reply,
}

abbrev pub size_of : Option Bytes → Option ℕ
size_of none = none
size_of (some b) = some (length b)

pub record IsSound (limit : ℕ) (um : Uploads) : Type 0 where
  pub named : (id : String) (s : Session) → get um.sessions id ≡ some s → s.id ≡ id
  pub placed :
      (id : String) (s : Session) → get um.sessions id ≡ some s → s.path ≡ path_of um.dir id
  pub filed :
      (id : String) (s : Session)
      → get um.sessions id ≡ some s
      → size_of (get um.files s.path) ≡ some s.size
  pub bounded : (id : String) (s : Session) → get um.sessions id ≡ some s → s.size ≤ limit + 1

-- Two sessions never share a file.
path_of-injective : (dir i j : String) → path_of dir i ≡ path_of dir j → i ≡ j
path_of-injective dir i j e = append_cancel_right i j ".part" (
    append_cancel_left "/" (i & ".part") (j & ".part")
      (append_cancel_left dir ("/" & i & ".part") ("/" & j & ".part") e))

path_of-ne : (dir i j : String) → i ≢ j → path_of dir i ≢ path_of dir j
path_of-ne dir i j ne e = ne (path_of-injective dir i j e)

copied-le :
    (disk : Disk) (limit : ℕ) (chunk : Bytes)
    → ((copied disk limit chunk).0 ≤ limit) × ((copied disk limit chunk).0 ≤ length chunk)
copied-le disk limit chunk = ground arith

length-copied :
    (n : ℕ) (content chunk : Bytes)
    → n ≤ length chunk
    → length (content ++ take n chunk) ≡ length content + n
length-copied n content chunk h =
    omega (arith, length-append content (take n chunk), length-take n chunk)

-- A session written anew, with its file.
module _ (limit : ℕ) (um : Uploads) (h : IsSound limit um) (id : String) (s : Session)
    (content : Bytes) (same : s.id ≡ id) (at_path : s.path ≡ path_of um.dir id)
    (fits : s.size ≤ limit + 1) (filled : length content ≡ s.size) where
  written-IsSound :
      IsSound limit
        (record um { sessions = put um.sessions id s; files = put um.files s.path content })
  written-IsSound = record {
    named = λ j t e. ground (arith, get-put um.sessions id j s, eq_iff id j, h.named j t);
    placed = λ j t e. ground (arith, get-put um.sessions id j s, eq_iff id j, h.placed j t);
    filed = λ j t e. ground (
      arith,
      get-put um.sessions id j s,
      eq_iff id j,
      h.filed j t,
      h.placed j t,
      get-put um.files s.path t.path content,
      eq_iff s.path t.path,
      path_of-injective um.dir id j,
    );
    bounded = λ j t e. ground (arith, get-put um.sessions id j s, eq_iff id j, h.bounded j t);
  }

module _ (limit : ℕ) (um : Uploads) (h : IsSound limit um) where
  pub create-IsSound :
      (random : Option String) (now : ℕ) (disk : Disk) (account : String)
      → IsSound limit (create random now disk account um).0
  unfolding create
  create-IsSound none now disk account = h
  create-IsSound (some random) now disk account = elim (Bool-cases disk.opens) [
    | inl opened ↦
        rw (opened, create) (written-IsSound limit um h _ _ [] refl refl (omega arith) refl)
    | inr failed ↦ rw (failed, create) h
  ]

  -- A session that is found is stored under its own id.
  lookup_sound :
      (id account : String) (s : Session)
      → lookup id account um ≡ some s
      → (get um.sessions id ≡ some s) × (s.id ≡ id) × (s.account ≡ account)
  unfolding lookup
  lookup_sound id account s e =
      ground (arith, Option-cases (get um.sessions id), eq_iff s.account account, h.named id s)

  discard-IsSound : (s : Session) → s.path ≡ path_of um.dir s.id → IsSound limit (discard s um)
  unfolding discard
  discard-IsSound s at_path = record {
    named = λ j t e. ground (arith, get-remove um.sessions s.id j, h.named j t);
    placed = λ j t e. ground (arith, get-remove um.sessions s.id j, h.placed j t);
    filed = λ j t e. ground (
      arith,
      get-remove um.sessions s.id j,
      eq_iff s.id j,
      h.filed j t,
      h.placed j t,
      get-remove um.files s.path t.path,
      eq_iff s.path t.path,
      path_of-injective um.dir s.id j,
    );
    bounded = λ j t e. ground (arith, get-remove um.sessions s.id j, h.bounded j t);
  }

  placed_at :
      (id : String) (s : Session) → get um.sessions id ≡ some s → s.path ≡ path_of um.dir s.id
  placed_at id s found = h.placed id s found ∙ ap (path_of um.dir) (sym (h.named id s found))

  append_chunk-IsSound :
      (id : String) (s : Session) (offset now : ℕ) (disk : Disk) (chunk : Bytes)
      → get um.sessions id ≡ some s
      → IsSound limit (append_chunk s offset limit now disk chunk um).0
  unfolding append_chunk
  append_chunk-IsSound id s offset now disk chunk found = elim (Bool-cases (eqb offset s.size)) [
    | inr other ↦ rw (other, append_chunk) h
    | inl here ↦ elim (Option-cases (get um.files s.path)) [
      | inl gone ↦ rw (here, gone, append_chunk) h
      | inr (content, held) ↦ elim (Bool-cases disk.opens) [
        | inr failed ↦ rw (here, held, failed, append_chunk) h
        | inl opened ↦ rw (here, held, opened, append_chunk) (grown content held)
      ]
    ]
  ]
    where
      n : ℕ
      n = (copied disk (limit + 1 - s.size) chunk).0

      grown :
          (content : Bytes)
          → get um.files s.path ≡ some content
          → IsSound limit (record um {
            sessions = put um.sessions s.id (record s { size = s.size + n; updated = now });
            files = put um.files s.path (content ++ take n chunk);
          })
      grown content held =
          written-IsSound limit um h s.id (record s { size = s.size + n; updated = now })
            (content ++ take n chunk) refl (placed_at id s found)
            (omega (arith, copied-le disk (limit + 1 - s.size) chunk, h.bounded id s found))
            (ground (
              arith,
              length-copied n content chunk,
              copied-le disk (limit + 1 - s.size) chunk,
              h.filed id s found,
            ))

  append_chunk-dir :
      (s : Session) (offset now : ℕ) (disk : Disk) (chunk : Bytes)
      → (append_chunk s offset limit now disk chunk um).0.dir ≡ um.dir
  unfolding append_chunk
  append_chunk-dir s offset now disk chunk = ground arith

module _ (limit : ℕ) where
  -- What the chunk handler answers leaves the sessions sound, also where it throws one away.
  chunk_reply-IsSound :
      (um : Uploads) (h : IsSound limit um) (s : Session) (got : ℕ) (e : Option UploadError)
      → s.path ≡ path_of um.dir s.id
      → IsSound limit (chunk_reply s (um, got, e)).0
  chunk_reply-IsSound um h s got none p = h
  chunk_reply-IsSound um h s got (some upload_too_big) p = discard-IsSound limit um h s p
  chunk_reply-IsSound um h s got (some _) p = h

  -- Where every session has its own file of its size and is at most one byte over the limit, this
  -- still holds after any chunk, well sent or not, on any disk.
  pub h_upload_chunk-IsSound :
      (um : Uploads) (id : String) (offset now : ℕ) (disk : Disk) (chunk : Bytes) (account : String)
      → IsSound limit um
      → IsSound limit (h_upload_chunk id offset limit now disk chunk account um).0
  unfolding h_upload_chunk
  h_upload_chunk-IsSound um id offset now disk chunk account h =
      elim (Option-cases (lookup id account um)) [
        | inl absent ↦ rw (absent, h_upload_chunk) h
        | inr (s, found) ↦
            let (held, same, mine) = lookup_sound limit um h id account s found in
            let (um', got, e) = append_chunk s offset limit now disk chunk um in
            rw (found, h_upload_chunk)
              (chunk_reply-IsSound um'
                (append_chunk-IsSound limit um h id s offset now disk chunk held) s got e
                (placed_at limit um h id s held
                  ∙ ap (λ d. path_of d s.id)
                      (sym (append_chunk-dir limit um h s offset now disk chunk))))
      ]
