-- ===== src/Analysis/Frame.antt =====
-- packages/analysis/src/types/Frame.ts, and the frames that have a flow.
use netkitty.Base.{ℕ, ◌+◌, Option, none, some, List, [], ◌∷◌}
use netkitty.Analysis.Layer.{Layer}
use netkitty.Analysis.ConversationKey.{ConversationFlow, flow_of}

-- A timestamp is a whole number of the smallest unit that the frames have.
pub record Frame : Type 0 where
  pub index : ℕ
  pub timestamp : ℕ
  pub length : ℕ
  pub layers : List Layer

-- The number of frames with a flow, and the number of their bytes.
unfoldable pub flow_weight : Option ConversationFlow → ℕ → ℕ
flow_weight none n = 0
flow_weight (some f) n = n

unfoldable pub flow_count : List Frame → ℕ
flow_count [] = 0
flow_count (x ∷ xs) = flow_count xs + flow_weight (flow_of x.layers) 1

unfoldable pub flow_bytes : List Frame → ℕ
flow_bytes [] = 0
flow_bytes (x ∷ xs) = flow_bytes xs + flow_weight (flow_of x.layers) x.length
