-- ===== src/Webm/Tests.antt =====
-- The encoder test of src/webm.rs as a run of the model, and the theorems at concrete inputs.
use webmetro.Base.{◌≡◌, arith, [], ◌∷◌, ◌++◌, length, ok, some}
use webmetro.ByteOrder.Reference.{reference}
use webmetro.Io.{new_vec}
use webmetro.Ebml.Element.{decode_element}
use webmetro.Webm.{WebmElement, simple_block, webm, encode_webm_element}
use webmetro.Webm.RoundTrip.{decode_element-encode_webm_element}

-- The block of `encode_webm_test`.
abbrev hello : WebmElement
hello = simple_block (record {
  track = 3;
  timecode = 123;
  flags = 0;
  payload = b'H' ∷ b'e' ∷ b'l' ∷ b'l' ∷ b'o' ∷ [];
})

decode_element-encode_webm_element_example :
    let (r, c) = encode_webm_element reference hello new_vec in
    (r ≡ ok tt)
    × (decode_element (webm reference) (c.bytes ++ (0 ∷ [])) ≡ ok (some (hello, length c.bytes)))
decode_element-encode_webm_element_example =
    decode_element-encode_webm_element reference hello (0 ∷ []) (omega arith) (omega arith)
