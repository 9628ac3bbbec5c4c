-- ===== src/Analysis/Examples/Index.antt =====
-- Runs of packages/analysis/src/indexer, stores and filter on two frames.
use netkitty.Base.{Option, ℕ, ◌+◌, ◌≡◌, refl, arith, true, some}
use netkitty.Base.{[], ◌∷◌, ◌++◌, length, drop, min, All}
use netkitty.Base.Text.{Text, text, text_eq, decimal}
use netkitty.Base.Dict.{text_key, number_key, get}
use netkitty.Analysis.Layer.{find_layer, to_text, field_value}
use netkitty.Analysis.ConversationKey.{flow_of, canonical_conversation_key, ip_flow, endpoint}
use netkitty.Analysis.Examples.{ip_layer, tcp_layer, layers, flow}
use netkitty.Analysis.Store.{FrameIndexRecord, Store, new_store, append, evict_oldest}
use netkitty.Analysis.Store.Rows.{IsValid, rows, stored}
use netkitty.Analysis.Store.Queue.{append_refines, evict_oldest_refines, new_store-IsValid}
use netkitty.Analysis.FrameIndexer.{Indexer, flow_forward, add}
use netkitty.Analysis.FrameIndexer.Protocols.{AreNumbered}
use netkitty.Analysis.FrameIndexer.Records.{Added, add-Added}
use netkitty.Analysis.Filter.{FilterPredicate, FilterExpression, index_of}
use netkitty.Analysis.Filter.Match.{selector_of, text_of, layer_of, matches_filter}
use netkitty.Analysis.Filter.Indexed.{matches_indexed}
use netkitty.Analysis.Filter.Columns.{IsBare}
use netkitty.Analysis.Filter.Agree.{IsTcp, is_columned, is_decided, matches_indexed-matches_filter}
use netkitty.Analysis.Synthetic.{synthesize_layers, IsDerived, transport, flow_of-synthesize_layers}

abbrev small : Store
small = new_store 1

abbrev entry : FrameIndexRecord
entry = record {
  index = 0;
  file_offset = 40;
  captured_length = 154;
  original_length = 154;
  timestamp = 50;
  protocol_id = 2;
  conversation_hash = 4294967297;
  direction_forward = 1;
}

append_refines_example :
    let (t, index) = append small entry in
    IsValid t
    × (rows t ≡ rows small ++ (stored index entry ∷ []))
    × (index ≡ small.base + length (rows small))
    × (t.base ≡ small.base)
append_refines_example = append_refines small entry (new_store-IsValid 1)

abbrev one_row : Store
one_row = (append small entry).0

one_row-IsValid : IsValid one_row
one_row-IsValid = (append_refines small entry (new_store-IsValid 1)).0

evict_oldest_refines_example :
    let t = evict_oldest one_row 1 in
    IsValid t
    × (rows t ≡ drop (min 1 one_row.size) (rows one_row))
    × (t.base ≡ one_row.base + min 1 one_row.size)
evict_oldest_refines_example = evict_oldest_refines one_row 1 one_row-IsValid

abbrev fresh : Indexer
fresh = record {
  store = new_store 1;
  protocol_ids = [];
  protocol_names = [];
  conversation_keys = [];
}

fresh-AreNumbered : AreNumbered fresh.protocol_ids fresh.protocol_names
unfolding get
fresh-AreNumbered = record {
  below = λ name id h. absurd (ground arith);
  named = λ name id h. absurd (ground arith);
}

add-Added_example :
    let (t, index) = add layers 40 154 154 50 fresh in Added layers 40 154 154 50 fresh t index
add-Added_example =
    add-Added layers 40 154 154 50 fresh (new_store-IsValid 1) fresh-AreNumbered (omega arith)

flow-IsBare : IsBare flow
unfolding index_of
flow-IsBare = record { protocol = refl; source = refl; destination = refl }

layers-IsTcp : IsTcp layers ip_layer tcp_layer
unfolding find_layer layer_of text_of field_value to_text text_eq decimal index_of
layers-IsTcp = record {
  found_ip = refl;
  found_transport = refl;
  id = refl;
  no_udp = refl;
  sip = refl;
  dip = refl;
  srcport = refl;
  dstport = refl;
  bare_srcport = refl;
  bare_dstport = refl;
}

layers-IsBare : IsBare (ip_flow ip_layer (some tcp_layer))
unfolding ip_flow endpoint to_text field_value text_eq decimal index_of
layers-IsBare = record { protocol = refl; source = refl; destination = refl }

abbrev expression : FilterExpression
expression =
    FilterPredicate.protocol (text "tcp")
    ∷ FilterPredicate.field (text "ip.addr") (text "10.0.0.1")
    ∷ []

expression_columned : All (λ p. is_columned p ≡ true) expression
unfolding is_columned is_decided selector_of text_eq
expression_columned = (refl, (refl, tt))

matches_indexed-matches_filter_example :
    matches_indexed expression
      (some (canonical_conversation_key (ip_flow ip_layer (some tcp_layer))))
      (text "tcp")
      (flow_forward (flow_of layers))
    ≡ some (matches_filter layers expression)
matches_indexed-matches_filter_example =
    matches_indexed-matches_filter layers ip_layer tcp_layer layers-IsTcp layers-IsBare (text "tcp")
      expression expression_columned

flow-IsDerived : IsDerived flow
flow-IsDerived =
    transport (text "tcp") (text "10.0.0.1") (text "443") (text "10.0.0.2") (text "5000")
      (unfold text_eq in refl) (unfold index_of in refl) (unfold index_of in refl)

flow_of-synthesize_layers_example :
    flow_of (synthesize_layers (canonical_conversation_key flow) (flow_forward (some flow)))
    ≡ some flow
flow_of-synthesize_layers_example = flow_of-synthesize_layers flow flow-IsBare flow-IsDerived

abbrev tcp_key : ℕ → Option Text
tcp_key hash = some (text "tcp|10.0.0.1:443|10.0.0.2:5000")
