-- ===== src/Api/Uploads.antt =====
-- uploads.go: resumable uploads. A session and the scratch file that it appends to; `Disk` says how
-- the file system answers one call. The mutex makes each method one step. `int64` values are ℕ.
pub mod Bounds
pub mod Resume
use Prim.Native.String.{[]}
use ttd_elektronik.Prelude.{
  ℕ, ◌+◌, ◌-◌, ◌*◌, min, String, ◌&◌, Bool, true, false, not, Option, none, some, List, ◌++◌, Dict,
  get, put, remove, ◌==◌, ltb, eqb, if◌then◌else◌, length, take, ◌∷◌, values, Ranging,
}
use ttd_elektronik.Store.Types.{Bytes}
use ttd_elektronik.Api.Types.{Response, write_json, write_err, str, num}

pub record Session : Type 0 where
  pub id : String
  pub account : String
  pub path : String
  pub size : ℕ
  pub updated : ℕ

-- `files` is the content of the scratch directory, by path.
pub record Uploads : Type 0 where
  pub dir : String
  pub sessions : Dict Session
  pub files : Dict Bytes

pub data UploadError : Type 0 where
  upload_offset upload_too_big no_upload io : UploadError

-- Whether the file can be opened, and after how many bytes the copy fails, if it does.
pub record Disk : Type 0 where
  pub opens : Bool
  pub fails_after : Option ℕ

abbrev pub healthy : Disk
healthy = record { opens = true; fails_after = none }

-- `filepath.Join(um.dir, id+".part")`, of a clean directory name
abbrev pub path_of : String → String → String
path_of dir id = dir & "/" & id & ".part"

-- `create`; `random` is the hex text of the 16 random bytes, `none` where they cannot be read.
unfoldable pub create : Option String → ℕ → Disk → String → Uploads → Uploads × Option Session
create none now disk account um = (um, none)
create (some random) now disk account um =
    let id = "up_" & random in
    let path = path_of um.dir id in
    let s : Session = record { id = id; account = account; path = path; size = 0; updated = now } in
    if disk.opens
    then (record um { sessions = put um.sessions id s; files = put um.files path List.[] }, some s)
    else (um, none)

unfoldable pub lookup : String → String → Uploads → Option Session
lookup id account um = elim (get um.sessions id) [
  | none ↦ none
  | some s ↦ if s.account == account then some s else none
]

-- `io.Copy(f, io.LimitReader(r, limit))`: how many bytes are copied, and whether without an error.
abbrev pub copied : Disk → ℕ → Bytes → ℕ × Bool
copied disk limit chunk =
    let n = min limit (length chunk) in
    elim disk.fails_after [ none ↦ (n, true) | some k ↦ if ltb k n then (k, false) else (n, true) ]

-- `appendChunk`: the new size, and the error if there is one.
unfoldable pub append_chunk :
    Session → ℕ → ℕ → ℕ → Disk → Bytes → Uploads → Uploads × ℕ × Option UploadError
append_chunk s offset limit now disk chunk um =
    if not (eqb offset s.size)
    then (um, s.size, some upload_offset)
    else elim (get um.files s.path) [
      | none ↦ (um, s.size, some io)
      | some content ↦
          if not disk.opens
          then (um, s.size, some io)
          else let (n, clean) = copied disk (limit + 1 - s.size) chunk in
            let s' : Session = record s { size = s.size + n; updated = now } in
            (
              record um {
                sessions = put um.sessions s.id s';
                files = put um.files s.path (content ++ take n chunk);
              },
              s'.size,
              (if not clean
                  then some io
                  else if ltb limit s'.size
                  then some upload_too_big
                  else none),
            )
    ]

unfoldable pub discard : Session → Uploads → Uploads
discard s um = record um { sessions = remove um.sessions s.id; files = remove um.files s.path }

-- One round of `reaper`: sessions idle for more than two hours go, with their files.
abbrev pub two_hours : ℕ
two_hours = 2 * 60 * 60 * 1000000000

abbrev pub reap_each : ℕ → List Session → Uploads → Uploads
reap_each now List.[] um = um
reap_each now (s ∷ ss) um =
    reap_each now ss (if ltb two_hours (now - s.updated) then discard s um else um)

unfoldable pub reap : Ranging → ℕ → Uploads → Uploads
unfolding discard
reap r now um = reap_each now (r.range Session (values um.sessions)) um

-- The handlers; `account` is `claims(r).Sub`.
unfoldable pub h_upload_create :
    Option String → ℕ → Disk → ℕ → String → Uploads → Uploads × Response
unfolding create
h_upload_create random now disk limit account um =
    let (um', made) = create random now disk account um in
    elim made [
      | none ↦ (um', write_err 500 "gagal memulai unggah")
      | some s ↦ (
        um',
        write_json 201
            (("upload_id", str s.id) ∷ ("received", num 0) ∷ ("max_bytes", num limit) ∷ List.[]),
      )
    ]

abbrev pub chunk_reply : Session → Uploads × ℕ × Option UploadError → Uploads × Response
chunk_reply s (um, got, none) = (um, write_json 200 (("received", num got) ∷ List.[]))
chunk_reply s (um, got, some upload_offset) =
    (um, write_json 409 (("error", str "offset tidak sesuai") ∷ ("received", num got) ∷ List.[]))
chunk_reply s (um, got, some upload_too_big) =
    (discard s um, write_err 413 "unggahan melebihi batas")
chunk_reply s (um, got, some _) = (um, write_err 500 "gagal menulis potongan")

unfoldable pub h_upload_chunk :
    String → ℕ → ℕ → ℕ → Disk → Bytes → String → Uploads → Uploads × Response
h_upload_chunk id offset limit now disk chunk account um = elim (lookup id account um) [
  | none ↦ (um, write_err 404 "sesi unggah tidak ditemukan")
  | some s ↦ chunk_reply s (append_chunk s offset limit now disk chunk um)
]

unfoldable pub h_upload_status : String → String → Uploads → Response
h_upload_status id account um = elim (lookup id account um) [
  | none ↦ write_err 404 "sesi unggah tidak ditemukan"
  | some s ↦ write_json 200 (("received", num s.size) ∷ List.[])
]
