-- ===== src/Codec/Engine/Layers/Tiles.antt =====
-- Decoding ends, and its layers lie one behind another over the whole packet, when every header
-- stays in the packet and takes at least a byte of what is left.
use netkitty.Base.{ℕ, ◌≤◌, ◌<◌, Option, ◌≡◌}
use netkitty.Base.{List, [], ◌∷◌, length, All}
use netkitty.Base.Text.{Text}
use netkitty.Codec.Header.{CodecData}
use netkitty.Codec.Engine.{CodecModuleConstructor, CodecModule, end_pos}
use netkitty.Codec.Engine.Tables.{Tables}

-- The layers start one where the other ends.
abbrev pub Tiles : ℕ → List CodecModule → ℕ → Type 0
Tiles from [] to = from ≡ to
Tiles from (m ∷ ms) to = (m.start_pos ≡ from) × Tiles (end_pos m) ms to

-- What a header's `decode` does to the packet: nothing; it starts where the packet stands, ends in
-- the packet, and takes a byte where there is one.
pub record IsSteady {H : Type 0} (c : CodecModuleConstructor H) : Type 0 where
  pub keeps : (d : CodecData H) (ms : List CodecModule) → (c.decode_with d ms).0.packet ≡ d.packet
  pub starts :
      (d : CodecData H) (ms : List CodecModule) → (c.decode_with d ms).1.start_pos ≡ d.start_pos
  pub ends :
      (d : CodecData H) (ms : List CodecModule)
      → d.start_pos ≤ length d.packet
      → end_pos (c.decode_with d ms).1 ≤ length d.packet
  pub moves :
      (d : CodecData H) (ms : List CodecModule)
      → d.start_pos < length d.packet
      → d.start_pos < end_pos (c.decode_with d ms).1

module _ {H : Type 0} (whole : Text → Option ℕ) (lower : Text → Text)
    (raw : CodecModuleConstructor H) (cs : List (CodecModuleConstructor H)) (hr : IsSteady raw)
    (all : All IsSteady cs) (linktype : Option ℕ) where
  -- What one layer does.
  record Advances (d : CodecData H) (s : CodecData H × CodecModule) : Type 0 where
    kept : s.0.packet ≡ d.packet
    started : s.1.start_pos ≡ d.start_pos
    behind : s.0.start_pos ≡ end_pos s.1
    inside : d.start_pos ≤ length d.packet → end_pos s.1 ≤ length d.packet
    moved : d.start_pos < length d.packet → d.start_pos < end_pos s.1
