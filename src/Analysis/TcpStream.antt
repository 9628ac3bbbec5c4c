-- ===== src/Analysis/TcpStream.antt =====
-- packages/analysis/src/reducers/TcpStreamReducer.ts.
pub mod Serial
pub mod Acks
pub mod Totals
use netkitty.Base.{
  ℕ, ◌+◌, ◌-◌, ◌*◌, ◌%◌, ◌^◌, Bool, true, false, not, ◌&&◌, ◌||◌, Option, none, some,
}
use netkitty.Base.{List, [], ◌∷◌, ◌++◌, map, length, ltb, leb, ◌==◌, if◌then◌else◌, min, max}
use netkitty.Base.Text.{Text, text, text_eq, text_le}
use netkitty.Base.Dict.{text_key, get, alter, put}
use mathlib.Core.Option
use netkitty.Analysis.Layer.{Layer, value_of, find_layer, to_bool, to_number, number_or}
use netkitty.Analysis.ConversationKey.{endpoint}
use netkitty.Analysis.Frame.{Frame}

pub record RttSample : Type 0 where
  pub segment_index : ℕ
  pub ack_index : ℕ
  pub rtt : ℕ

-- The mean is kept as its numerator and denominator.
pub record TcpStreamDiagnostic : Type 0 where
  pub key : Text
  pub endpoint_a : Text
  pub endpoint_b : Text
  pub packets : ℕ
  pub retransmissions : List ℕ
  pub duplicate_acks : List ℕ
  pub rtt_samples : List RttSample
  pub rtt_min : Option ℕ
  pub rtt_max : Option ℕ
  pub rtt_mean : Option (ℕ × ℕ)

pub record TcpView : Type 0 where
  pub source : Text
  pub destination : Text
  pub seq : ℕ
  pub ack : ℕ
  pub syn : Bool
  pub fin : Bool
  pub ack_flag : Bool
  pub segment_length : ℕ
  pub timestamp : ℕ
  pub index : ℕ

pub record PendingSegment : Type 0 where
  pub end_seq : ℕ
  pub timestamp : ℕ
  pub index : ℕ

pub record HalfStream : Type 0 where
  pub max_end_seq : ℕ
  pub has_max_end_seq : Bool
  pub seen_syn : Bool
  pub last_pure_ack : Option ℕ
  pub pending : List PendingSegment

-- `find`
abbrev find : List Layer → Text → Option Layer
find layers id = find_layer (λ other. text_eq other id) layers

-- `((b - a) >>> 0) < 0x80000000`
pub seq_lte : ℕ → ℕ → Bool
seq_lte a b = ltb ((b % 2 ^ 32 + 2 ^ 32 - a % 2 ^ 32) % 2 ^ 32) (2 ^ 31)

module _ (parse : Text → Option ℕ) where
  -- A negative payload and one that is not a number are 0, as subtraction stops at 0.
  payload_of : Option ℕ → ℕ → ℕ
  payload_of none headers = 0
  payload_of (some total) headers = total - headers

  segment_payload : Layer → Layer → ℕ
  unfolding payload_of
  segment_payload ip tcp =
      let header = number_or parse (value_of tcp (text "hdrLen")) 20 in
      if text_eq ip.id (text "ipv4")
      then payload_of (to_number parse (value_of ip (text "length")))
          (number_or parse (value_of ip (text "hdrLen")) 20 + header)
      else payload_of (to_number parse (value_of ip (text "plen"))) header

  view_of : Frame → Layer → Layer → TcpView
  unfolding segment_payload
  view_of x ip tcp = record {
    source = endpoint ip (text "sip") tcp (text "srcport");
    destination = endpoint ip (text "dip") tcp (text "dstport");
    seq = number_or parse (value_of tcp (text "seq")) 0;
    ack = number_or parse (value_of tcp (text "ack")) 0;
    syn = to_bool (value_of tcp (text "flags.syn"));
    fin = to_bool (value_of tcp (text "flags.fin"));
    ack_flag = to_bool (value_of tcp (text "flags.ack"));
    segment_length = segment_payload ip tcp;
    timestamp = x.timestamp;
    index = x.index;
  }

  first_of_two : Option Layer → Option Layer → Option Layer
  first_of_two none other = other
  first_of_two (some l) other = some l

  pub tcp_view_of : Frame → Option TcpView
  unfolding first_of_two view_of
  tcp_view_of x = elim (find x.layers (text "tcp")) [
    | none ↦ none
    | some tcp ↦
        Option.map (λ ip. view_of x ip tcp)
          (first_of_two (find x.layers (text "ipv4")) (find x.layers (text "ipv6")))
  ]

pub record State : Type 0 where
  pub streams : List (Text × TcpStreamDiagnostic)
  pub halves : List (Text × HalfStream)

abbrev pub new_half : HalfStream
new_half = record {
  max_end_seq = 0;
  has_max_end_seq = false;
  seen_syn = false;
  last_pure_ack = none;
  pending = [];
}

abbrev pub first_endpoint : TcpView → Text
first_endpoint v = if text_le v.source v.destination then v.source else v.destination

abbrev pub second_endpoint : TcpView → Text
second_endpoint v = if text_le v.source v.destination then v.destination else v.source

pub stream_key : TcpView → Text
stream_key v = text "tcp|" ++ (first_endpoint v ++ (b'|' ∷ second_endpoint v))

pub half_key : TcpView → Text → Text
half_key v address = stream_key v ++ (b'|' ∷ address)

pub new_stream : TcpView → TcpStreamDiagnostic
new_stream v = record {
  key = stream_key v;
  endpoint_a = first_endpoint v;
  endpoint_b = second_endpoint v;
  packets = 0;
  retransmissions = [];
  duplicate_acks = [];
  rtt_samples = [];
  rtt_min = none;
  rtt_max = none;
  rtt_mean = none;
}

unfoldable pub consumed : TcpView → ℕ
consumed v = v.segment_length + (if v.syn then 1 else 0) + (if v.fin then 1 else 0)

unfoldable pub end_seq : TcpView → ℕ
end_seq v = v.seq + consumed v

-- Whether the segment's sequence space has been sent before.
pub is_retransmission : TcpView → HalfStream → Bool
is_retransmission v h =
    h.has_max_end_seq && seq_lte (end_seq v) h.max_end_seq || v.syn && h.seen_syn

-- `if (consumed > 0)`, on the sender's half.
pub send_segment : TcpView → HalfStream → HalfStream
send_segment v h =
    let ahead = not h.has_max_end_seq || seq_lte h.max_end_seq (end_seq v) in
    if consumed v == 0 then h else record h {
      pending =
          if is_retransmission v h
          then h.pending
          else h.pending
            ++ (record { end_seq = end_seq v; timestamp = v.timestamp; index = v.index } ∷ []);
      max_end_seq = if ahead then end_seq v else h.max_end_seq;
      has_max_end_seq = if ahead then true else h.has_max_end_seq;
      seen_syn = if v.syn then true else h.seen_syn;
    }

pub is_pure_ack : TcpView → Bool
is_pure_ack v = v.ack_flag && consumed v == 0

same_ack : Option ℕ → ℕ → Bool
same_ack none ack = false
same_ack (some last) ack = last == ack

pub is_duplicate_ack : TcpView → HalfStream → Bool
unfolding same_ack
is_duplicate_ack v h = is_pure_ack v && same_ack h.last_pure_ack v.ack

-- `if (view.ackFlag && consumed === 0)`, on the sender's half.
pub note_pure_ack : TcpView → HalfStream → HalfStream
note_pure_ack v h = if is_pure_ack v then record h { last_pure_ack = some v.ack } else h

-- The loop over the other half's segments: those that stay, and the samples of those that the
-- acknowledgement covers. A covered segment with a later timestamp is dropped without a sample.
pub remaining : TcpView → List PendingSegment → List PendingSegment
remaining v [] = []
remaining v (p ∷ ps) = if seq_lte p.end_seq v.ack then remaining v ps else p ∷ remaining v ps

pub samples : TcpView → List PendingSegment → List RttSample
samples v [] = []
samples v (p ∷ ps) =
    if seq_lte p.end_seq v.ack && leb p.timestamp v.timestamp
    then record { segment_index = p.index; ack_index = v.index; rtt = v.timestamp - p.timestamp }
      ∷ samples v ps
    else samples v ps

abbrev half_of : Text → List (Text × HalfStream) → HalfStream
half_of key m = Option.get_or (get key m) new_half

pub count_stream :
    TcpView → HalfStream → HalfStream → HalfStream → TcpStreamDiagnostic → TcpStreamDiagnostic
count_stream v before sent reverse s = record s {
  packets = s.packets + 1;
  retransmissions =
      if not (consumed v == 0) && is_retransmission v before
      then s.retransmissions ++ (v.index ∷ [])
      else s.retransmissions;
  duplicate_acks =
      if is_duplicate_ack v sent then s.duplicate_acks ++ (v.index ∷ []) else s.duplicate_acks;
  rtt_samples = s.rtt_samples ++ (if v.ack_flag then samples v reverse.pending else []);
}

-- The halves of the two directions; they are one object where source and destination are equal, so
-- each is read from the Map when its turn comes.
pub update_view : TcpView → State → State
update_view v s =
    let forward = half_key v v.source in
    let backward = half_key v v.destination in
    let made = alter backward new_half (λ h. h) (alter forward new_half (λ h. h) s.halves) in
    let before = half_of forward made in
    let sent = send_segment v before in
    let noted = put forward (note_pure_ack v sent) made in
    let reverse = half_of backward noted in
    let acked =
      if v.ack_flag
      then put backward (record reverse { pending = remaining v reverse.pending }) noted
      else noted in
    record {
      streams = alter (stream_key v) (new_stream v) (count_stream v before sent reverse) s.streams;
      halves = acked;
    }

update_option : Option TcpView → State → State
update_option none s = s
update_option (some v) s = update_view v s

module _ (parse : Text → Option ℕ) where
  pub update : State → Frame → State
  unfolding update_option
  update s x = update_option (tcp_view_of parse x) s

  pub update_all : State → List Frame → State
  update_all s [] = s
  update_all s (x ∷ xs) = update_all (update s x) xs

sum_rtt : List RttSample → ℕ
sum_rtt [] = 0
sum_rtt (r ∷ rs) = r.rtt + sum_rtt rs

min_rtt : ℕ → List RttSample → ℕ
min_rtt least [] = least
min_rtt least (r ∷ rs) = min_rtt (if ltb r.rtt least then r.rtt else least) rs

max_rtt : ℕ → List RttSample → ℕ
max_rtt most [] = most
max_rtt most (r ∷ rs) = max_rtt (if ltb most r.rtt then r.rtt else most) rs

summary_of : List RttSample → TcpStreamDiagnostic → TcpStreamDiagnostic
summary_of [] s = record s { rtt_min = none; rtt_max = none; rtt_mean = none }
summary_of (r ∷ rs) s = record s {
  rtt_min = some (min_rtt r.rtt rs);
  rtt_max = some (max_rtt r.rtt rs);
  rtt_mean = some (sum_rtt (r ∷ rs), length (r ∷ rs));
}

pub summarize_rtt : TcpStreamDiagnostic → TcpStreamDiagnostic
unfolding summary_of
summarize_rtt s = summary_of s.rtt_samples s

-- `result` writes the summaries into the streams and answers them.
pub result : State → State × List TcpStreamDiagnostic
result s =
    let streams = map (λ (e : Text × TcpStreamDiagnostic). (e.0, summarize_rtt e.1)) s.streams in
    (record s { streams = streams }, map (λ (e : Text × TcpStreamDiagnostic). e.1) streams)

pub reset : State → State
reset s = record { streams = []; halves = [] }
