-- ===== src/Api/Submit/Outcome.antt =====
-- What a submission leaves behind: a new record, and what its document is in the request.
use ttd_elektronik.Prelude.{
  ℕ, ◌+◌, ◌<◌, ◌≤◌, ◌==◌, ◌∙◌, sym, take, take_all, length-take, Option-cases, String, Option, none,
  some, Result, ok, err, ◌≡◌, ◌≢◌, refl, ap, arith, eq_iff, eq_refl, get, get-put, Result-cases,
  Bool-cases, inl, inr, ◌⊎◌, leb, length, Ranging,
}
use ttd_elektronik.Core.Certutil.{X509}
use ttd_elektronik.Core.Verification.{Pdfsign}
use ttd_elektronik.Store.Types.{Bytes, Reservation, Signature}
use ttd_elektronik.Store.Signatures.{
  reservation, create_signature, set_reservation_status, append, put_object, put_object_from,
}
use ttd_elektronik.Api.Types.{Claims, Draw}
use ttd_elektronik.Api.Uploads.{Disk, Session, lookup}
use ttd_elektronik.Api.Server.{Config, Server}
use ttd_elektronik.Api.Verify.{VerifiedInfo, strict_verify}
use ttd_elektronik.Api.Submit.{
  Input, InputError, h_submit_document, signed_input, submit_input, submit_verified, submit_stored,
  record_signature, verified_record, stored_record,
}

module _ (x : X509) (p : Pdfsign) (cfg : Config) (r : Ranging) (key_of : ℕ → String → String)
    (c : Claims) (d : Draw) (res : Reservation) where
  -- A record that was not there before is the one that was handed over.
  record_signature-new :
      (sess : Option Session) (sig t : Signature) (s : Server) (k : String)
      → get s.st.signatures k ≡ none
      → get (record_signature x p cfg r key_of c d res sess sig s).0.st.signatures k ≡ some t
      → (k ≡ sig.public_id) × (t ≡ record sig { created_at = d.now })
  unfolding record_signature create_signature set_reservation_status append
  record_signature-new sess sig t s k before after = ground (
    arith,
    get-put s.st.signatures sig.public_id k (record sig { created_at = d.now }),
    eq_iff sig.public_id k,
  )

  -- The object stays as it was written.
  record_signature-objects :
      (sess : Option Session) (sig : Signature) (s : Server)
      → (record_signature x p cfg r key_of c d res sess sig s).0.st.objects ≡ s.st.objects
  unfolding record_signature create_signature set_reservation_status append
  record_signature-objects sess sig s = ground arith

  -- What stands behind a new record.
  pub record WasVerified (s s' : Server) (t : Signature) (body : Bytes) : Type 0 where
    pub info : VerifiedInfo
    pub checked : strict_verify x p cfg r d.now res body s ≡ ok info
    pub content :
        t
        ≡ record (verified_record d.now res
            (key_of d.now res.public_id)
            (p.sha512_hex body)
            (length body)
            info) { created_at = d.now }
    pub stored : get s'.st.objects t.storage_object_key ≡ some body

  -- What stands behind a new record of the tier that is only stored.
  pub record WasStored (s' : Server) (t : Signature) (document : Bytes) (size : ℕ) : Type 0 where
    pub large : cfg.max_verify_bytes < size
    pub recorded :
        t
        ≡ record (stored_record d.now res
            (key_of d.now res.public_id)
            (p.sha512_hex document)
            size) { created_at = d.now }
    pub kept : get s'.st.objects t.storage_object_key ≡ some document

  put_object-get :
      (key : String) (body : Bytes) (s : Server)
      → get (put_object key body s.st).objects key ≡ some body
  unfolding put_object
  put_object-get key body s = ground (arith, get-put s.st.objects key key body, eq_refl key)

  abbrev with_object : Bytes → Server → Server
  with_object body s = record s { st = put_object (key_of d.now res.public_id) body s.st }

  -- A new record whose object was written just before it.
  recorded :
      (sess : Option Session) (sig : Signature) (body : Bytes) (s : Server) (k : String)
      (t : Signature)
      → sig.storage_object_key ≡ key_of d.now res.public_id
      → get s.st.signatures k ≡ none
      → get
          (record_signature x p cfg r key_of c d res sess sig (with_object body s)).0.st.signatures
          k
        ≡ some t
      → (k ≡ sig.public_id)
        × (t ≡ record sig { created_at = d.now })
        × (get
              (record_signature x p cfg r key_of c d res sess sig (with_object body s)).0.st.objects
              t.storage_object_key
            ≡ some body)
  unfolding put_object
  recorded sess sig body s k t placed before after =
      let (name, same) = record_signature-new sess sig t (with_object body s) k before after in
      (
        name,
        same,
        cc (
          record_signature-objects sess sig (with_object body s),
          put_object-get (key_of d.now res.public_id) body s,
          ap (λ (u : Signature). u.storage_object_key) same,
        ),
      )

  submit_verified-new :
      (sess : Option Session) (body : Bytes) (s : Server) (k : String) (t : Signature)
      → get s.st.signatures k ≡ none
      → get (submit_verified x p cfg r key_of c d res sess (some body) s).0.st.signatures k ≡ some t
      → (k ≡ res.public_id)
        × WasVerified s (submit_verified x p cfg r key_of c d res sess (some body) s).0 t body
  unfolding submit_verified append
  submit_verified-new sess body s k t before after =
      elim (Result-cases (strict_verify x p cfg r d.now res body s)) [
        | inr (reason, refused) ↦ absurd (ground arith)
        | inl (info, passed) ↦
            let (name, same, kept) =
              recorded sess _ body s k t refl before (rw (passed, submit_verified) at after) in
            rw (passed, submit_verified)
              (name, record { info = info; checked = passed; content = same; stored = kept })
      ]

  submit_stored-new :
      (sess : Option Session) (body : Bytes) (size : ℕ) (s : Server) (k : String) (t : Signature)
      → cfg.max_verify_bytes < size
      → get s.st.signatures k ≡ none
      → get (submit_stored x p cfg r key_of c d res sess (some body) size s).0.st.signatures k
        ≡ some t
      → (k ≡ res.public_id)
        × WasStored (submit_stored x p cfg r key_of c d res sess (some body) size s).0 t body size
  unfolding submit_stored put_object_from
  submit_stored-new sess body size s k t large before after =
      let (name, same, kept) = recorded sess _ body s k t refl before after in
      (name, record { large = large; recorded = same; kept = kept })

  -- A new record of either tier, from a document and its size.
  abbrev pub Established : Server → Server → Signature → Bytes → ℕ → Type 0
  Established s s' t document size =
      (size ≤ cfg.max_verify_bytes) × WasVerified s s' t document ⊎ WasStored s' t document size

  submit_input-new :
      (input : Result InputError Input) (s : Server) (k : String) (t : Signature)
      → get s.st.signatures k ≡ none
      → get (submit_input x p cfg r key_of c d res input s).0.st.signatures k ≡ some t
      → (i : Input) × (document : Bytes) × (input ≡ ok i)
        × (i.bytes ≡ some document)
        × (k ≡ res.public_id)
        × Established s (submit_input x p cfg r key_of c d res input s).0 t document i.size
  unfolding submit_input submit_verified submit_stored
  submit_input-new (err e) s k t before after = cc
  submit_input-new (ok i) s k t before after = elim (Option-cases i.bytes) [
    | inl unread ↦ absurd (ground (arith, unread))
    | inr (document, sent) ↦ elim (Bool-cases (leb i.size cfg.max_verify_bytes)) [
      | inl small ↦
          let (name, made) =
            submit_verified-new i.session document s k t before
              (rw (small, sent, submit_input) at after) in
          let tier : i.size ≤ cfg.max_verify_bytes = ground (arith, small) in
          (i, document, refl, sent, name, rw (small, sent, submit_input) (inl (tier, made)))
      | inr large ↦
          let (name, made) =
            submit_stored-new i.session document i.size s k t (ground (arith, large)) before
              (rw (large, sent, submit_input) at after) in
          (i, document, refl, sent, name, rw (large, sent, submit_input) (inr made))
    ]
  ]

module _ (x : X509) (p : Pdfsign) (cfg : Config) (r : Ranging) (key_of : ℕ → String → String)
    (c : Claims) (d : Draw) (disk : Disk) (public_id upload_id : String) (body : Option Bytes)
    (s : Server) where
  -- The document of the request and the size by which its tier is chosen: the body, if that is within
  -- the limit of an upload, or else the file of the upload session that is named, which is the caller's.
  pub data IsSent (document : Bytes) (size : ℕ) : Type 0 where
    in_body :
        upload_id ≡ ""
        → body ≡ some document
        → length document ≤ cfg.max_upload_bytes
        → size ≡ length document
        → IsSent document size
    uploaded :
        (session : Session)
        → upload_id ≢ ""
        → lookup upload_id c.sub s.uploads ≡ some session
        → get s.uploads.files session.path ≡ some document
        → size ≡ session.size
        → IsSent document size

  signed_input-IsSent :
      (i : Input) (document : Bytes)
      → signed_input cfg.max_upload_bytes disk upload_id body c.sub s ≡ ok i
      → i.bytes ≡ some document
      → IsSent document i.size
  unfolding signed_input
  signed_input-IsSent i document e sent = elim (Bool-cases (upload_id == "")) [
    | inl inline ↦ elim (Option-cases body) [
      | inl missing ↦ absurd (ground (arith, inline, missing))
      | inr (b, given) ↦
          let n : ℕ = cfg.max_upload_bytes in
          let got : take (n + 1) b ≡ document = ground (arith, inline, given) in
          let fits : length (take (n + 1) b) ≤ n = ground (arith, inline, given) in
          let whole : take (n + 1) b ≡ b =
            take_all (n + 1) b (omega (arith, length-take (n + 1) b, fits)) in
          let same : b ≡ document = sym whole ∙ got in
          in_body ((eq_iff upload_id "").0 inline) (given ∙ ap some same) (rw (← got) fits)
            (rw (← got) (ground (arith, inline, given)))
    ]
    | inr named ↦ elim (Option-cases (lookup upload_id c.sub s.uploads)) [
      | inl missing ↦ absurd (ground (arith, named, missing))
      | inr (session, found) ↦ elim (Option-cases (get s.uploads.files session.path)) [
        | inl missing ↦ absurd (ground (arith, named, found, missing))
        | inr (content, held) ↦
            let same : content ≡ document =
              ground (arith, named, found, held, Option-cases disk.fails_after) in
            uploaded session (λ empty. cc (named, (eq_iff upload_id "").1 empty)) found
              (held ∙ ap some same) (ground (arith, named, found, held))
      ]
    ]
  ]

  -- How the handler ends for a known reservation of the caller.
  h_submit_document-cases :
      (res : Reservation)
      → reservation public_id s.st ≡ ok res
      → (h_submit_document x p cfg r key_of c d disk public_id upload_id body s).0 ≢ s
      → (res.account_id ≡ c.sub)
        × (h_submit_document x p cfg r key_of c d disk public_id upload_id body s
            ≡ submit_input x p cfg r key_of c d res
                (signed_input cfg.max_upload_bytes disk upload_id body c.sub s)
                s)
  unfolding h_submit_document
  h_submit_document-cases res found changed = ground (arith, eq_iff res.account_id c.sub)

  pub h_submit_document-new :
      (k : String) (t : Signature)
      → get s.st.signatures k ≡ none
      → get
          (h_submit_document x p cfg r key_of c d disk public_id upload_id body s).0.st.signatures
          k
        ≡ some t
      → (res : Reservation) × (reservation public_id s.st ≡ ok res)
        × (res.account_id ≡ c.sub)
        × (k ≡ res.public_id)
        × ((document : Bytes) × (size : ℕ) × IsSent document size
            × Established x p cfg r key_of c d res s
                (h_submit_document x p cfg r key_of c d disk public_id upload_id body s).0
                t
                document
                size)
  h_submit_document-new k t before after = elim (Result-cases (reservation public_id s.st)) [
    | inr (e, failed) ↦
        absurd (changed (unfold h_submit_document in rw (failed, h_submit_document)))
    | inl (res, found) ↦
        let (mine, ran) = h_submit_document-cases res found changed in
        let input = signed_input cfg.max_upload_bytes disk upload_id body c.sub s in
        let (i, document, read, sent, name, made) =
          submit_input-new x p cfg r key_of c d res input s k t before (rw ran at after) in
        (
          res,
          found,
          mine,
          name,
          (document, i.size, signed_input-IsSent i document read sent, rw ran made),
        )
  ]
    where
      changed : (h_submit_document x p cfg r key_of c d disk public_id upload_id body s).0 ≢ s
      changed e = cc (ap (λ (u : Server). get u.st.signatures k) e)
