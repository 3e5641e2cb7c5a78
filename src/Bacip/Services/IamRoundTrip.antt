-- ===== src/Bacip/Services/IamRoundTrip.antt =====
-- An I-Am is read back as it was written.
use baetyl_bacnet.Common.{ℕ, ◌≡◌, refl, List, [], ◌++◌, none, append-nil, append_assoc, ◌∙◌, sym}
use baetyl_bacnet.Common.Go.{ok, returns}
use baetyl_bacnet.Bacnet.ObjectId.Packing.{IsStandard}
use baetyl_bacnet.Bacnet.Value.{uint32, segmentation, object_id}
use baetyl_bacnet.Encoding.Bytes.{IsByte, IsU32}
use baetyl_bacnet.Encoding.Buffer.{new_buffer}
use baetyl_bacnet.Encoding.Encoder.{new_encoder, Encoder}
use baetyl_bacnet.Encoding.Decoder.Reflect.{to_object_id, to_uint32, to_segmentation}
use baetyl_bacnet.Encoding.RoundTrip.AppData.{
  app_field, app_data_lem, app_field-Reads, is_object_id, is_uint32, is_segmentation,
  object_id_same, uint32_same, segmentation_same,
}
use baetyl_bacnet.Bacip.Services.{Iam}
use baetyl_bacnet.Bacip.Services.Marshal.{marshal_iam}
use baetyl_bacnet.Bacip.Services.Unmarshal.{unmarshal_iam}

-- The fields are in the range of their types, and the identifier is a standard one.
pub record IsWireIam (i : Iam) : Type 0 where
  pub standard : IsStandard i.object_id
  pub apdu_fits : IsU32 i.max_apdu_length
  pub segmentation_fits : IsByte i.segmentation_support
  pub vendor_fits : IsU32 i.vendor_id

abbrev wrote : List ℕ → Encoder
wrote bytes = record { buf = bytes; failure = none }

module _ (i : Iam) (h : IsWireIam i) where
  abbrev pub iam_bytes : List ℕ
  iam_bytes =
      app_field (object_id i.object_id)
      ++ (app_field (uint32 i.max_apdu_length)
          ++ (app_field (segmentation i.segmentation_support) ++ app_field (uint32 i.vendor_id)))

  pub marshal_iam_lem : marshal_iam i ≡ ok iam_bytes
  unfolding marshal_iam
  marshal_iam_lem =
      let o : List ℕ = app_field (object_id i.object_id) in
      let m : List ℕ = app_field (uint32 i.max_apdu_length) in
      let g : List ℕ = app_field (segmentation i.segmentation_support) in
      let v : List ℕ = app_field (uint32 i.vendor_id) in
      rw (
        app_data_lem new_encoder (object_id i.object_id) (is_object_id i.object_id h.standard) refl,
        app_data_lem (wrote o) (uint32 i.max_apdu_length) (is_uint32 i.max_apdu_length h.apdu_fits)
            refl,
        app_data_lem (wrote (o ++ m)) (segmentation i.segmentation_support)
            (is_segmentation i.segmentation_support h.segmentation_fits) refl,
        app_data_lem (wrote ((o ++ m) ++ g)) (uint32 i.vendor_id)
            (is_uint32 i.vendor_id h.vendor_fits) refl,
        append_assoc (o ++ m) g v,
        append_assoc o m (g ++ v),
      )

  pub unmarshal_iam-iam_bytes : (i0 : Iam) → unmarshal_iam i0 iam_bytes ≡ returns (i, none)
  unmarshal_iam-iam_bytes i0 =
      let (b1, p1, r1) =
        app_field-Reads (object_id i.object_id) to_object_id (object_id i0.object_id) _
          (new_buffer iam_bytes) _ (is_object_id i.object_id h.standard)
          (object_id_same i.object_id _) refl in
      let (b2, p2, r2) =
        app_field-Reads (uint32 i.max_apdu_length) to_uint32 (uint32 i0.max_apdu_length) _ b1 _
          (is_uint32 i.max_apdu_length h.apdu_fits) (uint32_same _ _) r1 in
      let (b3, p3, r3) =
        app_field-Reads (segmentation i.segmentation_support) to_segmentation
          (segmentation i0.segmentation_support) _ b2 _
          (is_segmentation i.segmentation_support h.segmentation_fits) (segmentation_same _ _) r2 in
      let (b4, p4, r4) =
        app_field-Reads (uint32 i.vendor_id) to_uint32 (uint32 i0.vendor_id) _ b3 []
          (is_uint32 i.vendor_id h.vendor_fits) (uint32_same _ _) (r3 ∙ sym (append-nil _)) in
      unfold unmarshal_iam in rw (p1, p2, p3, p4)

  -- `MarshalBinary` of an I-Am in range succeeds, and `UnmarshalBinary` into any receiver gives
  -- the same I-Am from its bytes.
  pub unmarshal_iam-marshal_iam :
      (i0 : Iam)
      → (bytes : List ℕ) × (marshal_iam i ≡ ok bytes) × (unmarshal_iam i0 bytes ≡ returns (i, none))
  unmarshal_iam-marshal_iam i0 = (iam_bytes, marshal_iam_lem, unmarshal_iam-iam_bytes i0)
