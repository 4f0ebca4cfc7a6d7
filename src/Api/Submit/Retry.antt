-- ===== src/Api/Submit/Retry.antt =====
-- A submission that succeeded can be sent again: the answer is the same and nothing changes.
use ttd_elektronik.Prelude.{
  ℕ, String, Option, none, some, Result, ok, err, ◌≡◌, ◌≢◌, refl, sym, arith, eq_iff, eq_refl, get,
  get-put, get-key, Option-cases, Result-cases, Bool-cases, inl, inr, ◌⊎◌, leb, Ranging,
}
use ttd_elektronik.Core.Certutil.{X509}
use ttd_elektronik.Core.Verification.{Pdfsign}
use ttd_elektronik.Store.Types.{Bytes, Reservation, Signature, Error, reservation_accepted}
use ttd_elektronik.Store.Signatures.{
  reservation, signature, create_signature, set_reservation_status, append, put_object,
  put_object_from,
}
use ttd_elektronik.Store.Invariant.{IsConsistent}
use ttd_elektronik.Api.Types.{Claims, Draw, Response, write_json}
use ttd_elektronik.Api.Uploads.{Disk, Session}
use ttd_elektronik.Api.Server.{Config, Server}
use ttd_elektronik.Api.Verify.{strict_verify}
use ttd_elektronik.Api.Submit.{
  Input, InputError, no_upload, too_large, unreadable, h_submit_document, signed_input,
  submit_input, submit_verified, submit_stored, record_signature, submission_result,
}

-- The reservation is done and its record says what the response says.
pub record IsSettled (public_id account : String) (s : Server) (reply : Response) : Type 0 where
  pub res : Reservation
  pub known : reservation public_id s.st ≡ ok res
  pub mine : res.account_id ≡ account
  pub done : res.status ≡ reservation_accepted
  pub sig : Signature
  pub recorded : signature res.public_id s.st ≡ ok sig
  pub told : reply ≡ write_json 200 (submission_result sig)

module _ (x : X509) (p : Pdfsign) (cfg : Config) (r : Ranging) (key_of : ℕ → String → String)
    (c : Claims) where
  IsSettled-again :
      (public_id : String) (s : Server) (reply : Response)
      → IsSettled public_id c.sub s reply
      → (d : Draw) (disk : Disk) (upload_id : String) (body : Option Bytes)
      → h_submit_document x p cfg r key_of c d disk public_id upload_id body s ≡ (s, reply)
  unfolding h_submit_document
  IsSettled-again public_id s reply h d disk upload_id body = ground (
    arith,
    h.known,
    h.mine,
    h.done,
    h.recorded,
    h.told,
    eq_iff h.res.account_id c.sub,
    eq_iff h.res.status reservation_accepted,
  )

  module _ (d : Draw) (res : Reservation) (mine : res.account_id ≡ c.sub) where
    -- A record that was made is found under the reservation, which is done.
    finish-IsSettled :
        (sess : Option Session) (sig : Signature) (s : Server)
        → get s.st.reservations res.public_id ≡ some res
        → sig.public_id ≡ res.public_id
        → get s.st.signatures sig.public_id ≡ none
        → IsSettled res.public_id c.sub
            (record_signature x p cfg r key_of c d res sess sig s).0
            (record_signature x p cfg r key_of c d res sess sig s).1
    unfolding record_signature create_signature set_reservation_status append reservation signature
    finish-IsSettled sess sig s held named fresh =
        let sig' = record sig { created_at = d.now } in
        let res' = record res { status = reservation_accepted } in
        rw (fresh, record_signature, create_signature)
          (record {
            res = res';
            known = ground (
              arith,
              held,
              get-put s.st.reservations res.public_id res.public_id res',
              eq_refl res.public_id,
            );
            mine = mine;
            done = refl;
            sig = sig';
            recorded = ground (
              arith,
              held,
              named,
              get-put s.st.signatures sig.public_id res.public_id sig',
              eq_iff sig.public_id res.public_id,
            );
            told = refl;
          })

    record_signature-IsSettled :
        (sess : Option Session) (sig : Signature) (s : Server)
        → get s.st.reservations res.public_id ≡ some res
        → sig.public_id ≡ res.public_id
        → (record_signature x p cfg r key_of c d res sess sig s).1.code ≡ 200
        → IsSettled res.public_id c.sub
            (record_signature x p cfg r key_of c d res sess sig s).0
            (record_signature x p cfg r key_of c d res sess sig s).1
    unfolding record_signature create_signature
    record_signature-IsSettled sess sig s held named success =
        elim (Option-cases (get s.st.signatures sig.public_id)) [
          | inl fresh ↦ finish-IsSettled sess sig s held named fresh
          | inr (old, found) ↦ absurd (ground arith)
        ]

    submit_verified-IsSettled :
        (sess : Option Session) (bytes : Option Bytes) (s : Server)
        → get s.st.reservations res.public_id ≡ some res
        → (submit_verified x p cfg r key_of c d res sess bytes s).1.code ≡ 200
        → IsSettled res.public_id c.sub
            (submit_verified x p cfg r key_of c d res sess bytes s).0
            (submit_verified x p cfg r key_of c d res sess bytes s).1
    unfolding submit_verified put_object
    submit_verified-IsSettled sess none s held success = absurd (ground arith)
    submit_verified-IsSettled sess (some body) s held success =
        elim (Result-cases (strict_verify x p cfg r d.now res body s)) [
          | inr (reason, refused) ↦ absurd (ground arith)
          | inl (info, passed) ↦
              rw (passed, submit_verified)
                (record_signature-IsSettled sess _ _ held refl
                  (rw (passed, submit_verified) at success))
        ]

    submit_stored-IsSettled :
        (sess : Option Session) (bytes : Option Bytes) (size : ℕ) (s : Server)
        → get s.st.reservations res.public_id ≡ some res
        → (submit_stored x p cfg r key_of c d res sess bytes size s).1.code ≡ 200
        → IsSettled res.public_id c.sub
            (submit_stored x p cfg r key_of c d res sess bytes size s).0
            (submit_stored x p cfg r key_of c d res sess bytes size s).1
    unfolding submit_stored put_object_from put_object
    submit_stored-IsSettled sess none size s held success = absurd (ground arith)
    submit_stored-IsSettled sess (some body) size s held success =
        record_signature-IsSettled sess _ _ held refl success

    submit_input-IsSettled :
        (input : Result InputError Input) (s : Server)
        → get s.st.reservations res.public_id ≡ some res
        → (submit_input x p cfg r key_of c d res input s).1.code ≡ 200
        → IsSettled res.public_id c.sub
            (submit_input x p cfg r key_of c d res input s).0
            (submit_input x p cfg r key_of c d res input s).1
    unfolding submit_input
    submit_input-IsSettled (err no_upload) s held success = absurd (ground arith)
    submit_input-IsSettled (err too_large) s held success = absurd (ground arith)
    submit_input-IsSettled (err unreadable) s held success = absurd (ground arith)
    submit_input-IsSettled (ok i) s held success =
        elim (Bool-cases (leb i.size cfg.max_verify_bytes)) [
          | inl small ↦
              rw (small, submit_input)
                (submit_verified-IsSettled i.session i.bytes s held
                  (rw (small, submit_input) at success))
          | inr large ↦
              rw (large, submit_input)
                (submit_stored-IsSettled i.session i.bytes i.size s held
                  (rw (large, submit_input) at success))
        ]

module _ (x : X509) (p : Pdfsign) (cfg : Config) (r : Ranging) (key_of : ℕ → String → String)
    (c : Claims) (d : Draw) (disk : Disk) (public_id upload_id : String) (body : Option Bytes)
    (s : Server) where
  -- A known reservation that is answered 200 is the caller's, and its record is there or is made now.
  h_submit_document-ways :
      (res : Reservation)
      → reservation public_id s.st ≡ ok res
      → (h_submit_document x p cfg r key_of c d disk public_id upload_id body s).1.code ≡ 200
      → (res.account_id ≡ c.sub)
        × (((sig : Signature) × (res.status ≡ reservation_accepted)
              × (signature res.public_id s.st ≡ ok sig)
              × (h_submit_document x p cfg r key_of c d disk public_id upload_id body s
                  ≡ (s, write_json 200 (submission_result sig))))
            ⊎ (h_submit_document x p cfg r key_of c d disk public_id upload_id body s
                ≡ submit_input x p cfg r key_of c d res
                    (signed_input cfg.max_upload_bytes disk upload_id body c.sub s)
                    s))
  unfolding h_submit_document
  h_submit_document-ways res found success = elim (Result-cases (signature res.public_id s.st)) [
    | inl (sig, there) ↦
        ground (arith, eq_iff res.account_id c.sub, eq_iff res.status reservation_accepted)
    | inr (e, missing) ↦
        ground (arith, eq_iff res.account_id c.sub, eq_iff res.status reservation_accepted)
  ]

  h_submit_document-unknown :
      (e : Error)
      → reservation public_id s.st ≡ err e
      → (h_submit_document x p cfg r key_of c d disk public_id upload_id body s).1.code ≢ 200
  unfolding h_submit_document
  h_submit_document-unknown e failed success = ground arith

  -- A submission that is answered 200 is the one that was done before, or runs its tier now.
  h_submit_document-IsSettled :
      IsConsistent s.st
      → (h_submit_document x p cfg r key_of c d disk public_id upload_id body s).1.code ≡ 200
      → IsSettled public_id c.sub
          (h_submit_document x p cfg r key_of c d disk public_id upload_id body s).0
          (h_submit_document x p cfg r key_of c d disk public_id upload_id body s).1
  unfolding reservation
  h_submit_document-IsSettled h success = elim (Result-cases (reservation public_id s.st)) [
    | inr (e, failed) ↦ absurd (h_submit_document-unknown e failed success)
    | inl (res, found) ↦
        let (mine, way) = h_submit_document-ways res found success in
        elim way [
          | inl (sig, done, there, ran) ↦ rw ran (record {
            res = res;
            known = found;
            mine = mine;
            done = done;
            sig = sig;
            recorded = there;
            told = refl;
          })
          | inr ran ↦
              let held : get s.st.reservations public_id ≡ some res = ground arith in
              let named =
                get-key (λ x. x.public_id) s.st.reservations public_id res h.reservations_keyed
                  held in
              rw (ran, sym named)
                (submit_input-IsSettled x p cfg r key_of c d res mine _ s (rw (sym named) at held)
                  (rw ran at success))
        ]
  ]

  -- In a consistent store, once a submission for a public id is answered 200, one made right after it for
  -- that public id by the same account, whatever it carries and however it is sent, is answered the
  -- same and changes nothing.
  pub h_submit_document-again :
      IsConsistent s.st
      → (h_submit_document x p cfg r key_of c d disk public_id upload_id body s).1.code ≡ 200
      → (d' : Draw) (disk' : Disk) (upload_id' : String) (body' : Option Bytes)
      → h_submit_document x p cfg r key_of c d' disk' public_id upload_id' body'
          (h_submit_document x p cfg r key_of c d disk public_id upload_id body s).0
        ≡ h_submit_document x p cfg r key_of c d disk public_id upload_id body s
  h_submit_document-again h success =
      IsSettled-again x p cfg r key_of c public_id _ _ (h_submit_document-IsSettled h success)
