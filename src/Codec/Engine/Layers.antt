-- ===== src/Codec/Engine/Layers.antt =====
-- `#decode`, `decode`, `#encode` and `encode` of packages/codec/src/Codec.ts over the tables. A
-- handler is run by `run`, which may change any layer and the packet; the promises are functions.
pub mod Tiles
use netkitty.Base.{ℕ, leb, ◌+◌, zero, suc, if◌then◌else◌, Bool, true, false, Option, none, some}
use netkitty.Base.{List, [], ◌∷◌, ◌++◌, length}
use netkitty.Base.Text.{Text, text}
use netkitty.Base.Dict.{text_key}
use netkitty.Base.Dict
use netkitty.Analysis.Layer.{Value}
use netkitty.Codec.Header.{CodecData, CodecErrorInfo, PostHandlerItem, packet_of}
use netkitty.Codec.Handlers.{
  process_packet_decode_post_handlers, process_packet_encode_post_handlers,
}
use netkitty.Codec.Engine.{CodecModuleConstructor, CodecModule, end_pos}
use netkitty.Codec.Engine.Tables.{Tables}
use netkitty.Codec.Engine.Select.{select_codec}

module _ {H : Type 0} (whole : Text → Option ℕ) (lower : Text → Text) where
  -- One layer: the codec is selected and decodes, and the packet goes on behind the layer.
  unfoldable pub decode_layer :
      Tables H → CodecData H → List CodecModule → Option ℕ → CodecData H × CodecModule
  unfolding select_codec
  decode_layer t d ms linktype =
      let (d', m) = (select_codec whole lower t d ms linktype).decode_with d ms in
      (record d' { start_pos = end_pos m }, m)

  -- `none` is fuel that runs out.
  unfoldable pub decode_layers :
      ℕ
      → Tables H
      → CodecData H
      → List CodecModule
      → Option ℕ
      → Option (CodecData H × List CodecModule)
  unfolding decode_layer
  decode_layers zero t d ms linktype = none
  decode_layers (suc fuel) t d ms linktype =
      let step = decode_layer t d ms linktype in
      let rest = decode_layers fuel t step.0 (ms ++ (step.1 ∷ [])) linktype in
      if leb (length step.0.packet) step.0.start_pos
      then some (step.0, ms ++ (step.1 ∷ []))
      else rest

-- The data of a packet that nothing has read yet.
abbrev pub fresh_data : {H : Type 0} → List ℕ → CodecData H
fresh_data packet = record {
  packet = packet;
  packet_length = none;
  start_pos = 0;
  post_handlers = [];
}

module _ {H : Type 0}
    (run : H → CodecData H × List CodecModule → CodecData H × List CodecModule) where
  -- `while (handler) { await handler.handler(); handler = handlers.shift() }`
  unfoldable pub run_handlers :
      List (PostHandlerItem H) → CodecData H × List CodecModule → CodecData H × List CodecModule
  run_handlers [] s = s
  run_handlers (x ∷ xs) s = run_handlers xs (run x.handler s)

  unfoldable pub after_decode : Option (CodecData H × List CodecModule) → Option (List CodecModule)
  unfolding run_handlers process_packet_decode_post_handlers
  after_decode none = none
  after_decode (some (d, ms)) =
      some (run_handlers (process_packet_decode_post_handlers d.post_handlers) (d, ms)).1

  unfoldable pub decode :
      (Text → Option ℕ) → (Text → Text) → Tables H → List ℕ → Option ℕ → Option (List CodecModule)
  unfolding after_decode decode_layers
  decode whole lower t packet linktype =
      after_decode (decode_layers whole lower (length packet + 1) t (fresh_data packet) [] linktype)

-- What `encode` of the layers ends with: the error that `validate` throws, or the data, the
-- layers and the errors so far.
pub data Encoded (H : Type 0) : Type 0 where
  invalid : Encoded H
  encoded : CodecData H → List CodecModule → List CodecErrorInfo → Encoded H

pub record CodecEncodeInput : Type 0 where
  pub id : Text
  pub fields : List (Text × Value)

abbrev pub unknown_id : Text → CodecErrorInfo
unknown_id id = record { id = id; path = []; message = text "Unknown protocol id: " ++ id }

module _ {H : Type 0} where
  -- `#encode`
  unfoldable pub encode_layers :
      Tables H
      → List CodecEncodeInput
      → CodecData H
      → List CodecModule
      → List CodecErrorInfo
      → Encoded H
  encode_layers t [] d ms errors = encoded d ms errors
  encode_layers t (input ∷ inputs) d ms errors =
      elim (Dict.get input.id t.codec_constructor_by_id) [
        | none ↦ encode_layers t inputs d ms (errors ++ (unknown_id input.id ∷ []))
        | some c ↦ elim (c.encode_with d ms input.fields) [
          | none ↦ invalid
          | some step ↦
              encode_layers t inputs (record step.0 { start_pos = end_pos step.1 })
                (ms ++ (step.1 ∷ [])) (errors ++ step.1.errors)
        ]
      ]

  unfoldable pub after_encode :
      (H → CodecData H × List CodecModule → CodecData H × List CodecModule)
      → Encoded H
      → Option (List ℕ × List CodecErrorInfo)
  unfolding packet_of run_handlers process_packet_encode_post_handlers
  after_encode run invalid = none
  after_encode run (encoded d ms errors) = some (
    packet_of (run_handlers run (process_packet_encode_post_handlers d.post_handlers) (d, ms)).0,
    errors,
  )

  -- `encode`, `none` when it throws.
  unfoldable pub encode :
      (H → CodecData H × List CodecModule → CodecData H × List CodecModule)
      → Tables H
      → List CodecEncodeInput
      → Option (List ℕ × List CodecErrorInfo)
  unfolding after_encode encode_layers
  encode run t inputs = after_encode run (encode_layers t inputs (fresh_data []) [] [])
