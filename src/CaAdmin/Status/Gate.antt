-- ===== src/CaAdmin/Status/Gate.antt =====
-- The gate: the status is an error as soon as a file of public/ holds a private key.
use ttd_elektronik.Prelude.{
  String, false, none, some, [], ◌∷◌, Dict, ◌≡◌, arith, Option-cases, Bool-cases, inl, inr, In, sym,
  ap, ◌∙◌, strip_prefix,
}
use ttd_elektronik.Store.Types.{Bytes}
use ttd_elektronik.Core.Certutil.{X509}
use ttd_elektronik.Core.Keys.{Keyring}
use ttd_elektronik.Core.Labpki.{Pki}
use ttd_elektronik.CaAdmin.Files.{Files, Json, Env}
use ttd_elektronik.CaAdmin.Keyfile.{Sealing}
use ttd_elektronik.CaAdmin.Audit.{looks_private, public_entries, first_leak, has_private_key_leak}
use ttd_elektronik.CaAdmin.Status.{cmd_status}

first_leak-none :
    (d : Dict Bytes) (name : String) (b : Bytes)
    → first_leak d ≡ none
    → In (name, b) d
    → looks_private b ≡ false
first_leak-none [] name b e i = elim i [ ]
first_leak-none ((n, c) ∷ d) name b e (inl same) =
    ground (arith, Bool-cases (looks_private c), ap (λ y. y.1) same)
first_leak-none ((n, c) ∷ d) name b e (inr i) =
    first_leak-none d name b (ground (arith, Bool-cases (looks_private c))) i

public_entries-In :
    (d : Dict Bytes) (path name : String) (b : Bytes)
    → strip_prefix "public/" path ≡ some name
    → In (path, b) d
    → In (name, b) (public_entries d)
unfolding public_entries
public_entries-In [] path name b e i = elim i [ ]
public_entries-In ((p, c) ∷ d) path name b e (inl same) =
    let inside : strip_prefix "public/" p ≡ some name =
      ap (λ y. strip_prefix "public/" y.0) (sym same) ∙ e in
    rw (public_entries, inside, In) (inl (ap (λ y. (name, y.1)) same))
public_entries-In ((p, c) ∷ d) path name b e (inr i) =
    let rest = public_entries-In d path name b e i in
    elim (Option-cases (strip_prefix "public/" p)) [
      | inl outside ↦ rw (public_entries, outside) rest
      | inr (n, inside) ↦ rw (public_entries, inside, In) (inr rest)
    ]

-- The status ends without an error only if no file of public/ looks like a private key; the directory
-- is read whole.
pub cmd_status-clean :
    (x : X509) (k : Keyring) (p : Pki) (j : Json) (z : Sealing) (env : Env)
    (read_dir : Dict Bytes → Dict Bytes)
    → ((d : Dict Bytes) (e : String × Bytes) → In e d → In e (read_dir d))
    → (f : Files) → (cmd_status x k p j z env read_dir f).1 ≡ none
    → (path name : String) (b : Bytes) → strip_prefix "public/" path ≡ some name
    → In (path, b) f.files
    → looks_private b ≡ false
unfolding cmd_status has_private_key_leak
cmd_status-clean x k p j z env read_dir whole f e path name b inside i =
    let clean : first_leak (read_dir (public_entries f.files)) ≡ none =
      ground (arith, Option-cases (first_leak (read_dir (public_entries f.files)))) in
    first_leak-none (read_dir (public_entries f.files)) name b clean
      (whole (public_entries f.files) (name, b) (public_entries-In f.files path name b inside i))
