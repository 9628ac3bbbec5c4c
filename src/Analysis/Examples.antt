-- ===== src/Analysis/Examples.antt =====
-- Runs of packages/analysis/src on a few frames.
mod Index
mod Service
use netkitty.Base.{
  ℕ, ◌+◌, ◌*◌, ◌%◌, ◌^◌, ◌≤◌, ◌<◌, ◌≡◌, ◌≢◌, refl, arith, Bool, true, false, Option, none, some,
}
use netkitty.Base.{List, [], ◌∷◌, ◌++◌, ◌==◌, length, drop, min, All, ltb, get_elem?, if◌then◌else◌}
use netkitty.Base.Text.{Text, text, text_eq, text_le, decimal}
use netkitty.Base.Dict.{text_key, number_key, get}
use mathlib.Core.Option
use netkitty.Analysis.Layer.{Layer, Value, string, number, find_layer, to_text, field_value}
use netkitty.Analysis.Frame.{Frame, flow_count, flow_bytes}
use netkitty.Analysis.ConversationKey.{
  ConversationFlow, flow_of, flow_from, ip_flow, endpoint, canonical_conversation_key, hash32,
}
use netkitty.Analysis.ConversationKey.Laws.{
  reversed, canonical_conversation_key-reversed, hash32-lt,
}
use netkitty.Analysis.Conversations
use netkitty.Analysis.Conversations.Totals.{update_all_totals}
use netkitty.Analysis.Conversations.Summaries.{frames_of, summary_of, get-update_all}
use netkitty.Analysis.Endpoints
use netkitty.Analysis.Endpoints.Totals.{Sent, AllBalanced, update_all-Sent, update-AllBalanced}
use netkitty.Analysis.Groups.{group_update_all, fold_group, group_update_all_lem}
use netkitty.Analysis.TcpStream
use netkitty.Analysis.TcpStream.{
  TcpView, PendingSegment, RttSample, TcpStreamDiagnostic, State, new_half, new_stream, seq_lte,
  consumed, end_seq, is_retransmission, send_segment, remaining, samples, summarize_rtt,
}
use netkitty.Analysis.TcpStream.Serial.{seq_lte-wraps}
use netkitty.Analysis.TcpStream.Acks.{send_segment_again, remaining-samples, samples-remaining}
use netkitty.Analysis.TcpStream.Totals.{
  tcp_count, tcp_update_all_total, HasSpread, summarize_rtt-HasSpread,
}

abbrev count : ℕ → Frame → ℕ
count n x = n + 1

abbrev no_streams : State
no_streams = record { streams = []; halves = [] }

abbrev no_number : Text → Option ℕ
no_number s = none

abbrev pub ip_layer : Layer
ip_layer = record {
  id = text "ipv4";
  is_protocol = true;
  fields =
      (text "sip", string (text "10.0.0.1"))
      ∷ (text "dip", string (text "10.0.0.2"))
      ∷ (text "length", number 140)
      ∷ (text "hdrLen", number 20)
      ∷ [];
}

abbrev pub tcp_layer : Layer
tcp_layer = record {
  id = text "tcp";
  is_protocol = true;
  fields =
      (text "srcport", number 443)
      ∷ (text "dstport", number 5000)
      ∷ (text "seq", number 4294967290)
      ∷ (text "ack", number 7)
      ∷ (text "hdrLen", number 20)
      ∷ [];
}

abbrev pub layers : List Layer
layers = ip_layer ∷ tcp_layer ∷ []

abbrev frame : Frame
frame = record { index = 3; timestamp = 50; length = 154; layers = layers }

abbrev pub flow : ConversationFlow
flow = record {
  protocol = text "tcp";
  source = text "10.0.0.1:443";
  destination = text "10.0.0.2:5000";
}

flow_of_test : flow_of layers ≡ some flow
unfolding flow_of flow_from ip_flow endpoint find_layer to_text field_value text_eq decimal
flow_of_test = refl

-- The answer, a pure acknowledgement.
abbrev answer : Frame
answer = record {
  index = 4;
  timestamp = 60;
  length = 54;
  layers =
      record ip_layer {
        fields =
            (text "sip", string (text "10.0.0.2")) ∷ (text "dip", string (text "10.0.0.1")) ∷ [];
      }
      ∷ record tcp_layer {
        fields = (text "srcport", number 5000) ∷ (text "dstport", number 443) ∷ [];
      }
      ∷ [];
}

abbrev frames : List Frame
frames = frame ∷ answer ∷ []

get-update_all_example :
    let key = canonical_conversation_key flow in
    get key (Conversations.update_all [] frames) ≡ summary_of (frames_of key frames)
get-update_all_example = get-update_all (canonical_conversation_key flow) frames

abbrev no_groups : List (Text × ℕ)
no_groups = []

abbrev second_layer : Frame → Text
second_layer x = if x.length == 54 then text "answer" else text "request"

abbrev segment : TcpView
segment = record {
  source = text "10.0.0.1:443";
  destination = text "10.0.0.2:5000";
  seq = 100;
  ack = 7;
  syn = false;
  fin = false;
  ack_flag = true;
  segment_length = 20;
  timestamp = 50;
  index = 3;
}

segment_consumes : 0 < consumed segment
unfolding consumed
segment_consumes = omega arith

segment_apart : (new_half.max_end_seq + 2 ^ 31) % 2 ^ 32 ≢ end_seq segment % 2 ^ 32
unfolding end_seq consumed
segment_apart = λ h. absurd (omega arith)

send_segment_again_example :
    (is_retransmission segment (send_segment segment new_half) ≡ true)
    × (send_segment segment (send_segment segment new_half) ≡ send_segment segment new_half)
send_segment_again_example = send_segment_again segment new_half segment_consumes segment_apart

abbrev waiting : List PendingSegment
waiting =
    record { end_seq = 5; timestamp = 40; index = 1 }
    ∷ record { end_seq = 9; timestamp = 41; index = 2 }
    ∷ []
