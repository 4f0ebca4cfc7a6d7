-- ===== src/Client/Upload.antt =====
-- client.go: bodies that are larger than one chunk go up in a resumable upload.
pub mod Sent
pub mod Received
use ttd_elektronik.Prelude.{
  ℕ, zero, suc, ◌+◌, ◌-◌, ◌*◌, ◌^◌, min, String, true, false, Option, Result, ok, err,
  if◌then◌else◌, ◌==◌, ltb, leb, length, take, drop,
}
use ttd_elektronik.Store.Types.{Bytes}
use ttd_elektronik.Api.Types.{Object, Response}
use ttd_elektronik.Client.Api.{
  Call, Client, Failure, Payload, inline, uploaded, create_upload, patch_upload, stamp,
  put_document, verify, out_of_fuel, no_upload_id, stuck_at, do_call, ask, text_in, number_in,
  fields_of, bytes_of,
}

-- `uploadChunkBytes`
abbrev pub upload_chunk_bytes : ℕ
upload_chunk_bytes = 8 * 2 ^ 20

module _ {S : Type 0} (wire : String → Call → S → S × Option Response) (c : Client) where
  -- One round of the loop of `uploadBytes` at `off`: the offset that the server has reached.
  unfoldable pub send_chunk : String → Bytes → ℕ → S → S × Result Failure ℕ
  send_chunk id raw off s =
      let end = min (off + upload_chunk_bytes) (length raw) in
      let (s', r) = do_call wire c (patch_upload id off (take (end - off) (drop off raw))) s in
      elim r [
        | err e ↦ (s', err e)
        | ok r ↦
            let received = number_in "received" (fields_of r) in
            (s', if leb received off then err (stuck_at off) else ok received)
      ]

  -- The loop, on fuel.
  unfoldable pub send_from : ℕ → String → Bytes → ℕ → S → S × Result Failure (Unit {0})
  unfolding send_chunk
  send_from zero id raw off s = (s, err out_of_fuel)
  send_from (suc fuel) id raw off s = elim (ltb off (length raw)) [
    | false ↦ (s, ok tt)
    | true ↦
        let (s', r) = send_chunk id raw off s in
        elim r [ err e ↦ (s', err e) | ok received ↦ send_from fuel id raw received s' ]
  ]

  -- `uploadBytes`: the id of the upload. Each round reaches a higher offset.
  unfoldable pub upload_bytes : Bytes → S → S × Result Failure String
  unfolding send_from
  upload_bytes raw s =
      let (s', r) = do_call wire c create_upload s in
      elim r [
        | err e ↦ (s', err e)
        | ok r ↦
            let id = text_in "upload_id" (fields_of r) in
            if id == ""
            then (s', err no_upload_id)
            else let (s'', sent) = send_from (length raw + 1) id raw 0 s' in
              elim sent [ err e ↦ (s'', err e) | ok u ↦ (s'', ok id) ]
      ]

  -- Where a body is larger than a chunk it goes up first, and the call names it.
  abbrev pub via_upload :
      {A : Type 0} → (Response → A) → (Payload → Call) → Bytes → S → S × Result Failure A
  via_upload part call raw s =
      let (s', r) = upload_bytes raw s in
      elim r [ err e ↦ (s', err e) | ok id ↦ ask wire c part (call (uploaded id)) s' ]

  abbrev pub with_payload :
      {A : Type 0} → (Response → A) → (Payload → Call) → Bytes → S → S × Result Failure A
  with_payload part call raw s =
      if ltb upload_chunk_bytes (length raw)
      then via_upload part call raw s
      else ask wire c part (call (inline raw)) s

  -- `Stamp`; the reason, the place and the placements are the query.
  unfoldable pub stamp_document : String → Bytes → Object → S → S × Result Failure Bytes
  stamp_document id pdf query = with_payload bytes_of (stamp id query) pdf

  -- `SubmitDocument`
  unfoldable pub submit_document : String → Bytes → S → S × Result Failure Object
  submit_document id pdf = with_payload fields_of (put_document id) pdf

  -- `VerifyPublic`
  unfoldable pub verify_public : Bytes → S → S × Result Failure Response
  verify_public pdf = do_call wire c (verify pdf)
