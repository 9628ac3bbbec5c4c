-- ===== src/Codec/Engine/Tables/Raw.antt =====
-- Which codec buildDispatchTable of Codec.ts takes for the data that no codec reads.
use netkitty.Base.{if◌then◌else◌, ◌≡◌, refl, ap, ◌∙◌, arith, Bool-cases, inl, inr}
use netkitty.Base.{List, [], ◌∷◌}
use netkitty.Base.Lists.{each, each-keeps}
use netkitty.Base.Text.{Text}
use netkitty.Base.Dict.{text_key}
use netkitty.Codec.Engine.{CodecModuleConstructor}
use netkitty.Codec.Engine.Tables.{
  Tables, register_key, register_keys, register_id, register_heuristic, register, register_all,
  empty_tables, build_dispatch_table,
}
use netkitty.Codec.Engine.Tables.Buckets.{is_raw}

module _ {H : Type 0} where
  -- The last codec with the id of RawData, or the one that was there.
  abbrev pub raw_of :
      CodecModuleConstructor H → List (CodecModuleConstructor H) → CodecModuleConstructor H
  raw_of raw [] = raw
  raw_of raw (c ∷ cs) = raw_of (if is_raw c then c else raw) cs

  register_id-raw :
      (c : CodecModuleConstructor H) (t : Tables H)
      → (register_id c t).raw_data_codec ≡ t.raw_data_codec
  unfolding register_id
  register_id-raw c t = ground (arith)

  register_key-raw :
      (c : CodecModuleConstructor H) (k : Text) (t : Tables H)
      → (register_key c k t).raw_data_codec ≡ t.raw_data_codec
  unfolding register_key
  register_key-raw c k t = ground (arith)

  register_heuristic-raw :
      (c : CodecModuleConstructor H) (t : Tables H)
      → (register_heuristic c t).raw_data_codec ≡ t.raw_data_codec
  unfolding register_heuristic
  register_heuristic-raw c t = ground (arith)

  register-raw :
      (c : CodecModuleConstructor H) (t : Tables H)
      → (register c t).raw_data_codec ≡ (if is_raw c then c else t.raw_data_codec)
  unfolding register register_keys
  register-raw c t = elim (Bool-cases (is_raw c)) [
    | inl raw ↦ rw raw refl
    | inr keyed ↦ rw keyed (
        register_heuristic-raw c _
        ∙ each-keeps (λ t. t.raw_data_codec) (register_key c) (register_key-raw c) c.match_keys
            (register_id c t)
        ∙ register_id-raw c t)
  ]

  register_all-raw :
      (cs : List (CodecModuleConstructor H)) (t : Tables H)
      → (each register cs t).raw_data_codec ≡ raw_of t.raw_data_codec cs
  unfolding each
  register_all-raw [] t = refl
  register_all-raw (c ∷ cs) t =
      register_all-raw cs (register c t) ∙ ap (λ r. raw_of r cs) (register-raw c t)

  pub build_dispatch_table-raw :
      (raw : CodecModuleConstructor H) (cs : List (CodecModuleConstructor H))
      → (build_dispatch_table raw cs).raw_data_codec ≡ raw_of raw cs
  unfolding build_dispatch_table register_all
  build_dispatch_table-raw raw cs = register_all-raw cs (empty_tables raw)
