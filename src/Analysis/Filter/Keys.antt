-- ===== src/Analysis/Filter/Keys.antt =====
-- FilterExpression.ts: the parts of a conversation key and of an endpoint are those it is made of.
use netkitty.Base.{ℕ, suc, ◌+◌, ◌≡◌, refl, ap, ◌∙◌, arith, none, some, [], ◌∷◌, ◌++◌}
use netkitty.Base.{length, drop, take_front, false}
use netkitty.Base.Text.{Text, text, text_eq}
use netkitty.Analysis.Filter.{index_of, last_index_of}
use netkitty.Analysis.Filter.Indexed.{
  before, after, proto_of, endpoints_of, key_endpoint_a, key_endpoint_b, last_part, ip_of, behind,
  port_of,
}

-- The text has no unit `c`.
abbrev pub Lacks : ℕ → Text → Type 0
Lacks c s = index_of c s ≡ none

pub index_of-append : (c : ℕ) (s t : Text) → Lacks c s → index_of c (s ++ (c ∷ t)) ≡ some (length s)
unfolding index_of
index_of-append c [] t h = ground arith
index_of-append c (d ∷ s) t h = ground (arith, index_of-append c s t)

last_index_of-none : (c : ℕ) (s : Text) → Lacks c s → last_index_of c s ≡ none
unfolding index_of last_index_of
last_index_of-none c [] h = refl
last_index_of-none c (d ∷ s) h = ground (arith, last_index_of-none c s)

pub last_index_of-append :
    (c : ℕ) (s t : Text) → Lacks c t → last_index_of c (s ++ (c ∷ t)) ≡ some (length s)
unfolding last_index_of
last_index_of-append c [] t h = ground (arith, last_index_of-none c t h)
last_index_of-append c (d ∷ s) t h = ground (arith, last_index_of-append c s t h)

drop_behind : (s t : Text) (c : ℕ) → drop (suc (length s)) (s ++ (c ∷ t)) ≡ t
drop_behind [] t c = refl
drop_behind (d ∷ s) t c = drop_behind s t c

drop_past : (s t : Text) (c : ℕ) → drop (length s + 1) (s ++ (c ∷ t)) ≡ t
drop_past s t c =
    let next : length s + 1 ≡ suc (length s) = omega arith in
    ap (λ n. drop n (s ++ (c ∷ t))) next ∙ drop_behind s t c

module _ (proto a b : Text) (bare_proto : Lacks b'|' proto) (bare_a : Lacks b'|' a) where
  abbrev key : Text
  key = proto ++ (b'|' ∷ (a ++ (b'|' ∷ b)))

  pub proto_of-key : proto_of key ≡ proto
  unfolding proto_of before
  proto_of-key =
      rw (index_of-append b'|' proto (a ++ (b'|' ∷ b)) bare_proto)
        (take_front proto (b'|' ∷ (a ++ (b'|' ∷ b))))

  endpoints_of-key : endpoints_of key ≡ a ++ (b'|' ∷ b)
  unfolding endpoints_of after
  endpoints_of-key =
      rw (index_of-append b'|' proto (a ++ (b'|' ∷ b)) bare_proto)
        (drop_past proto (a ++ (b'|' ∷ b)) b'|')

  pub key_endpoint_a-key : key_endpoint_a key ≡ a
  unfolding key_endpoint_a before
  key_endpoint_a-key =
      rw (endpoints_of-key, index_of-append b'|' a b bare_a) (take_front a (b'|' ∷ b))

  pub key_endpoint_b-key : key_endpoint_b key ≡ b
  unfolding key_endpoint_b last_part
  key_endpoint_b-key = rw (endpoints_of-key, index_of-append b'|' a b bare_a) (drop_past a b b'|')

-- An endpoint `${address}:${port}` whose port has no colon falls into its two parts.
pub ip_of-endpoint :
    (address port proto : Text)
    → text_eq proto (text "ip") ≡ false
    → Lacks b':' port
    → ip_of (address ++ (b':' ∷ port)) proto ≡ address
unfolding ip_of
ip_of-endpoint address port proto h bare =
    rw (h, last_index_of-append b':' address port bare) (take_front address (b':' ∷ port))

pub port_of-endpoint :
    (address port : Text) → Lacks b':' port → port_of (address ++ (b':' ∷ port)) ≡ port
unfolding port_of behind
port_of-endpoint address port bare =
    rw (last_index_of-append b':' address port bare) (drop_past address port b':')
