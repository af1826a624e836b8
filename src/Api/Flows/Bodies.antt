-- ===== src/Api/Flows/Bodies.antt =====
-- What `get_body` returns of what is stored.
use decrypt0r_x.Prelude.{
  ℕ, ◌≡◌, refl, subst, true, List, Option, none, some, if◌then◌else◌, length, Bool-cases, inl, inr,
}
use decrypt0r_x.Text.{Text, codes, text_eq}
use decrypt0r_x.Recorder.Flows.{Flow}
use decrypt0r_x.Api.Reply.{reply_same, reply, http_error}
use decrypt0r_x.Api.Flows.Views.{find_flow}
use decrypt0r_x.Api.Flows.Contents.{
  Encodings, BodyResponse, is_textual, is_direction, ref_of, type_of, as_text, rendered, with_bytes,
  with_ref, with_row, get_body,
}

-- decoders that undo what the response has encoded
module _ (enc : Encodings) (fetch : Text → Option Text) (utf8_encode base64_decode : Text → Text)
    (utf8_law : (bytes text : Text) → enc.utf8 bytes ≡ some text → utf8_encode text ≡ bytes)
    (base64_law : (bytes : Text) → base64_decode (enc.base64 bytes) ≡ bytes) where
  -- the bytes that a response stands for
  abbrev pub bytes_of : BodyResponse → Text
  bytes_of r =
      if text_eq r.encoding (codes "utf-8") then utf8_encode r.content else base64_decode r.content

  -- the response to a flow and a direction stands for these bytes
  abbrev pub Renders : Flow → Text → Text → BodyResponse → Type 0
  Renders row direction bytes r =
      (bytes_of r ≡ bytes)
      × (r.size ≡ length bytes)
      × (r.flow_id ≡ row.facts.id)
      × (r.content_type ≡ type_of direction row)
      × (r.truncated ≡ row.facts.bodies_truncated)

  rendered-Renders :
      (row : Flow) (direction bytes : Text)
      → Renders row direction bytes (rendered enc fetch row direction bytes)
  rendered-Renders row direction bytes = elim (Bool-cases (is_textual (type_of direction row))) [
    | inl textual ↦ rw textual (decoded (enc.utf8 bytes) refl)
    | inr binary ↦ rw binary (base64_law bytes, refl, refl, refl, refl)
  ]
    where
      decoded :
          (o : Option Text)
          → enc.utf8 bytes ≡ o
          → Renders row direction bytes (as_text enc fetch row direction bytes o)
      decoded none e = (base64_law bytes, refl, refl, refl, refl)
      decoded (some text) e = (utf8_law bytes text e, refl, refl, refl, refl)

  -- a reply, and the row, the key and the stored bytes behind it
  abbrev pub Found : Text → Text → List Flow → BodyResponse → Type 0
  Found flow_id direction rows r =
      (row : Flow) × (key : Text) × (bytes : Text) × (find_flow flow_id rows ≡ some row)
      × (ref_of direction row ≡ some key)
      × (fetch key ≡ some bytes)
      × Renders row direction bytes r

  -- Where the two encodings can be undone, a body that `get_body` returns is, decoded as the response says, the one that
  -- the store has under the key of the flow and the direction that were asked for, with its size and its type;
  -- and for a direction other than these two there is no reply.
  pub get_body-Found :
      (flow_id direction : Text) (rows : List Flow) (r : BodyResponse)
      → get_body enc fetch flow_id direction rows ≡ reply r
      → Found flow_id direction rows r × (is_direction enc fetch direction ≡ true)
  unfolding get_body
  get_body-Found flow_id direction rows r h = elim (Bool-cases (is_direction enc fetch direction)) [
    | inl valid ↦ (by_row (find_flow flow_id rows) refl (rw valid at h), valid)
    | inr invalid ↦ absurd (never (rw invalid at h))
  ]
    where
      never : {n : ℕ} → http_error n ≡ reply r → ⊥
      never e = cc

      by_bytes :
          (row : Flow) (key : Text) (o : Option Text)
          → find_flow flow_id rows ≡ some row
          → ref_of direction row ≡ some key
          → fetch key ≡ o
          → with_bytes enc fetch row direction o ≡ reply r
          → Found flow_id direction rows r
      by_bytes row key none f k g e = absurd (never e)
      by_bytes row key (some bytes) f k g e = (
        row,
        key,
        bytes,
        f,
        k,
        g,
        subst (Renders row direction bytes) (reply_same e) (rendered-Renders row direction bytes),
      )

      by_ref :
          (row : Flow) (o : Option Text)
          → find_flow flow_id rows ≡ some row
          → ref_of direction row ≡ o
          → with_ref enc fetch row direction o ≡ reply r
          → Found flow_id direction rows r
      by_ref row none f k e = absurd (never e)
      by_ref row (some key) f k e = by_bytes row key (fetch key) f k refl e

      by_row :
          (o : Option Flow)
          → find_flow flow_id rows ≡ o
          → with_row enc fetch direction o ≡ reply r
          → Found flow_id direction rows r
      by_row none f e = absurd (never e)
      by_row (some row) f e = by_ref row (ref_of direction row) f refl e
