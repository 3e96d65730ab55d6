-- ===== src/Parser/Elements/Tlv.antt =====
-- The element parser of core/wlan_parser.c against its specification: the elements of a well-formed
-- list, applied one after the other.
use libuwifi.Base.{
  ℕ, zero, suc, ◌+◌, ◌-◌, ◌≤◌, ◌<◌, ◌^◌, ◌≡◌, refl, inl, inr, ◌∙◌, true, false, Option, some, List,
  [], ◌∷◌, ◌++◌, ltb, arith, length, ◌>>=◌, length-append, drop-length_append, Option-cases,
}
use mathlib.Core.List.{append_assoc}
use libuwifi.Parser.Packet.{Packet}
use libuwifi.Parser.Elements.{parse_element, parse_elements, parse_information_elements, loop_len}
use libuwifi.Parser.Elements.Extend.{parse_element_⊑}

-- An information element; the length byte is that of the payload.
pub record Element : Type 0 where
  pub id : ℕ
  pub payload : List ℕ

abbrev pub encode_one : Element → List ℕ
encode_one e = e.id ∷ length e.payload ∷ e.payload

abbrev pub encode : List Element → List ℕ
encode [] = []
encode (e ∷ es) = encode_one e ++ encode es

-- What the elements say, by the parser's case for each inside its own payload.
abbrev pub apply_all : List Element → Packet → Option Packet
apply_all [] p = some p
apply_all (e ∷ es) p = parse_element e.id (length e.payload) e.payload p >>= apply_all es

-- The last element is not empty. (The loop stops at two bytes, so it does not see an empty one.)
abbrev pub EndsNonempty : List Element → Type 0
EndsNonempty [] = Unit {0}
EndsNonempty (e ∷ []) = 0 < length e.payload
EndsNonempty (e ∷ f ∷ es) = EndsNonempty (f ∷ es)

length-encode_pos :
    (e : Element) (es : List Element) → EndsNonempty (e ∷ es) → 2 < length (encode (e ∷ es))
length-encode_pos e [] h = omega (arith, length-append {0} e.payload [])
length-encode_pos e (f ∷ es) h = omega (arith, length-append {0} e.payload (encode (f ∷ es)))

-- One round of the loop at a complete element.
round :
    (rounds len : ℕ) (e : Element) (rest : List ℕ) (p q : Packet)
    → 2 < len
    → parse_element e.id (length e.payload) e.payload p ≡ some q
    → parse_elements (suc rounds) len (encode_one e ++ rest) p
      ≡ parse_elements rounds (len - (length e.payload + 2)) rest q
unfolding parse_elements
round rounds len e rest p q h parsed =
    let open_round : ltb 2 len ≡ true = ground arith in
    let longer = (parse_element_⊑ e.id (length e.payload) e.payload rest p).keeps q parsed in
    rw (open_round, parse_elements) (rw longer (rw (drop-length_append e.payload rest)))

EndsNonempty-tail : (e : Element) (es : List Element) → EndsNonempty (e ∷ es) → EndsNonempty es
EndsNonempty-tail e [] h = tt
EndsNonempty-tail e (f ∷ es) h = h

pub loop_len_small : (n : ℕ) → n < 2 ^ 31 → loop_len n ≡ n
loop_len_small n h = ground arith

parse_elements-encode :
    (rounds len : ℕ) (es : List Element) (rest : List ℕ) (p q : Packet)
    → EndsNonempty es
    → len ≡ length (encode es)
    → len ≤ rounds
    → apply_all es p ≡ some q
    → parse_elements rounds len (encode es ++ rest) p ≡ some q
unfolding parse_elements
parse_elements-encode zero len [] rest p q ends e fuel done = done
parse_elements-encode (suc rounds) len [] rest p q ends e fuel done =
    let closed : ltb 2 len ≡ false = ground arith in rw (closed, parse_elements) done
parse_elements-encode zero len (x ∷ es) rest p q ends e fuel done =
    absurd (omega (arith, length-encode_pos x es ends))
parse_elements-encode (suc rounds) len (x ∷ es) rest p q ends e fuel done =
    elim (Option-cases (parse_element x.id (length x.payload) x.payload p)) [
      | inl fails ↦ absurd (cc (rw fails at done))
      | inr (m, parsed) ↦ rw (append_assoc (encode_one x) (encode es) rest) (
          round rounds len x (encode es ++ rest) p m (omega (arith, length-encode_pos x es ends))
            parsed
          ∙ parse_elements-encode rounds (len - (length x.payload + 2)) es rest m q
              (EndsNonempty-tail x es ends) (omega (arith, length-append {0} x.payload (encode es)))
              (omega arith) (rw parsed at done))
    ]

-- A list of elements, followed by any bytes, is parsed to its end: the packet is the one that the elements
-- give, applied in order, if the last is not empty and the list has less than 2 ^ 31 bytes.
pub parse_information_elements-encode :
    (es : List Element) (rest : List ℕ) (p q : Packet)
    → EndsNonempty es
    → length (encode es) < 2 ^ 31
    → apply_all es p ≡ some q
    → parse_information_elements (encode es ++ rest) (length (encode es)) p ≡ some q
unfolding parse_information_elements
parse_information_elements-encode es rest p q ends fits done =
    let e : loop_len (length (encode es)) ≡ length (encode es) = loop_len_small _ fits in
    rw e (parse_elements-encode _ _ es rest p q ends refl (omega arith) done)
