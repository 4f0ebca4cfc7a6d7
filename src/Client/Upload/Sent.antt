-- ===== src/Client/Upload/Sent.antt =====
-- The loop of the client always ends: whatever the server answers, the fuel is enough.
use ttd_elektronik.Prelude.{
  ℕ, zero, suc, ◌+◌, ◌-◌, ◌<◌, String, Option, ok, err, ◌≡◌, ◌≢◌, arith, ltb, ◌==◌, length, take,
  drop, min, Bool-cases, Result-cases, inl, inr,
}
use ttd_elektronik.Store.Types.{Bytes}
use ttd_elektronik.Api.Types.{Response}
use ttd_elektronik.Client.Api.{
  Call, Client, out_of_fuel, do_call, fields_of, patch_upload, create_upload, text_in,
}
use ttd_elektronik.Client.Upload.{send_chunk, send_from, upload_bytes, upload_chunk_bytes}

module _ {S : Type 0} (wire : String → Call → S → S × Option Response) (c : Client) where
  do_call-fuel : (call : Call) (s : S) → (do_call wire c call s).1 ≢ err out_of_fuel
  unfolding do_call
  do_call-fuel call s e = ground arith

  send_chunk-rises :
      (id : String) (raw : Bytes) (off received : ℕ) (s : S)
      → (send_chunk wire c id raw off s).1 ≡ ok received
      → off < received
  unfolding send_chunk
  send_chunk-rises id raw off received s e = ground arith

  send_chunk-fuel :
      (id : String) (raw : Bytes) (off : ℕ) (s : S)
      → (send_chunk wire c id raw off s).1 ≢ err out_of_fuel
  unfolding send_chunk
  send_chunk-fuel id raw off s e =
      let end = min (off + upload_chunk_bytes) (length raw) in
      ground (arith, do_call-fuel (patch_upload id off (take (end - off) (drop off raw))) s)

  -- The fuel is more than what is left to send.
  send_from-ends :
      (fuel : ℕ) (id : String) (raw : Bytes) (off : ℕ) (s : S)
      → length raw - off < fuel
      → (send_from wire c fuel id raw off s).1 ≢ err out_of_fuel
  unfolding send_from
  send_from-ends zero id raw off s enough e = absurd (omega arith)
  send_from-ends (suc fuel) id raw off s enough e = elim (Bool-cases (ltb off (length raw))) [
    | inr past ↦ ground (arith, past)
    | inl more ↦ elim (Result-cases (send_chunk wire c id raw off s).1) [
      | inr (why, failed) ↦ ground (arith, more, send_chunk-fuel id raw off s)
      | inl (received, got) ↦
          let rises = send_chunk-rises id raw off received s got in
          let s' = (send_chunk wire c id raw off s).0 in
          let below : off < length raw = ground (arith, more) in
          ground (arith, more, got, send_from-ends fuel id raw received s' (omega arith))
    ]
  ]

  -- An upload ends, with a result or with an error of the network or of the server: it never runs out
  -- of fuel, whatever the server answers.
  pub upload_bytes-ends : (raw : Bytes) (s : S) → (upload_bytes wire c raw s).1 ≢ err out_of_fuel
  unfolding upload_bytes
  upload_bytes-ends raw s e = elim (Result-cases (do_call wire c create_upload s).1) [
    | inr (why, failed) ↦ ground (arith, do_call-fuel create_upload s)
    | inl (r, made) ↦
        let id = text_in "upload_id" (fields_of r) in
        let s' = (do_call wire c create_upload s).0 in
        ground (
          arith,
          send_from-ends (length raw + 1) id raw 0 s' (omega arith),
          Bool-cases (id == ""),
          Result-cases (send_from wire c (length raw + 1) id raw 0 s').1,
        )
  ]
