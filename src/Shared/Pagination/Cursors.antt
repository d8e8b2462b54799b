-- ===== src/Shared/Pagination/Cursors.antt =====
-- A cursor that was given out is read back.
use claude_at_work_project.Prelude.{
  ℕ, zero, suc, ◌+◌, ◌-◌, ◌%◌, ◌≤◌, ◌≡◌, refl, sym, ◌∙◌, ap, true, false, Option, some, List, [],
  ◌∷◌, ◌++◌, arith, ◌==◌, any, length, Bool-cases, Option-cases, inl, inr, All, ==_refl,
}
use claude_at_work_project.Shared.Pagination.{
  Text, separator, equals_sign, join, split, is_empty, rstrip, padding, padded, parse_parts,
  encode_cursor, decode_raw, decode_cursor,
}

-- What base64 with padding promises: it can be undone, and its text comes in fours, ends in at most
-- two "=", and has no other.
pub record IsBase64 (encode : Text → Text) (decode : Text → Option Text) : Type 0 where
  pub empty : decode [] ≡ some []
  pub undone : (t : Text) → decode (encode t) ≡ some t
  pub body : Text → Text
  pub pad : Text → ℕ
  pub shape : (t : Text) → encode t ≡ body t ++ padding (pad t)
  pub few : (t : Text) → pad t ≤ 2
  pub fours : (t : Text) → (length (body t) + pad t) % 4 ≡ 0
  pub no_other : (t : Text) → any (λ c. c == equals_sign) (body t) ≡ false

rstrip-padding : (n : ℕ) → rstrip (padding n) ≡ []
unfolding rstrip
rstrip-padding zero = refl
rstrip-padding (suc n) = rw (rstrip-padding n) refl

rstrip-++ : (t : Text) (n : ℕ) → any (λ c. c == equals_sign) t ≡ false → rstrip (t ++ padding n) ≡ t
unfolding rstrip
rstrip-++ [] n h = rstrip-padding n
rstrip-++ (x ∷ xs) n h =
    let other : (x == equals_sign) ≡ false = ground arith in
    rw (rstrip-++ xs n (ground (arith, h))) (ground (arith, other))

padded_body :
    (t : Text) (pad : ℕ) → pad ≤ 2 → (length t + pad) % 4 ≡ 0 → padded t ≡ t ++ padding pad
unfolding padded
padded_body t pad few fours =
    let same : (4 - length t % 4) % 4 ≡ pad = omega (arith, few, fours) in
    ap (λ n. t ++ padding n) same

abbrev pub IsPart : Text → Type 0
IsPart p = any (λ c. c == separator) p ≡ false

split_part : (p : Text) → IsPart p → split p ≡ p ∷ []
unfolding split
split_part [] h = refl
split_part (x ∷ xs) h =
    let other : (x == separator) ≡ false = ground arith in
    rw (other, split_part xs (ground (arith, h))) refl

split-++ : (p rest : Text) → IsPart p → split (p ++ (separator ∷ rest)) ≡ p ∷ split rest
unfolding split
split-++ [] rest h = refl
split-++ (x ∷ xs) rest h =
    let other : (x == separator) ≡ false = ground arith in
    rw (other, split-++ xs rest (ground (arith, h))) refl

-- Parts that have no separator are got back, if there are any.
split-join : (p : Text) (ps : List Text) → All IsPart (p ∷ ps) → split (join (p ∷ ps)) ≡ p ∷ ps
unfolding join
split-join p [] h = split_part p h.0
split-join p (q ∷ ps) h =
    split-++ p (join (q ∷ ps)) h.0 ∙ ap (λ rest. p ∷ rest) (split-join q ps h.1)

parse_parts-length :
    {V : Type 0} (parses : List (Text → Option V)) (raws : List Text) (vs : List V)
    → parse_parts parses raws ≡ some vs
    → length raws ≡ length parses
unfolding parse_parts
parse_parts-length [] [] vs e = refl
parse_parts-length [] (raw ∷ raws) vs e = absurd (cc)
parse_parts-length (parse ∷ parses) [] vs e = absurd (cc)
parse_parts-length (parse ∷ parses) (raw ∷ raws) vs e = elim (Option-cases (parse raw)) [
  | inl refused ↦ absurd (cc (rw refused at e))
  | inr (v, read) ↦ elim (Option-cases (parse_parts parses raws)) [
    | inl refused ↦ absurd (cc (rw (read, refused) at e))
    | inr (rest, reads) ↦ ap (λ n. suc n) (parse_parts-length parses raws rest reads)
  ]
]

module _ (encode : Text → Text) (decode : Text → Option Text) (b : IsBase64 encode decode)
    (p : Text) (ps : List Text) (plain : All IsPart (p ∷ ps)) where
  encode_cursor-body : encode_cursor encode (p ∷ ps) ≡ b.body (join (p ∷ ps))
  unfolding encode_cursor
  encode_cursor-body =
      let t = join (p ∷ ps) in ap rstrip (b.shape t) ∙ rstrip-++ (b.body t) (b.pad t) (b.no_other t)

  decode_raw-encode_cursor : decode_raw decode (encode_cursor encode (p ∷ ps)) ≡ some (p ∷ ps)
  unfolding decode_raw
  decode_raw-encode_cursor =
      let t = join (p ∷ ps) in
      let whole : padded (encode_cursor encode (p ∷ ps)) ≡ encode t =
        ap padded encode_cursor-body
        ∙ padded_body (b.body t) (b.pad t) (b.few t) (b.fours t)
        ∙ sym (b.shape t) in
      rw (whole, b.undone t, split-join p ps plain) refl

nil : (t : Text) → is_empty t ≡ true → t ≡ []
nil [] e = refl
nil (x ∷ xs) e = absurd (cc)

is_empty-body :
    (encode : Text → Text) (decode : Text → Option Text) (b : IsBase64 encode decode) (t : Text)
    → is_empty t ≡ false
    → is_empty (b.body t) ≡ false
is_empty-body encode decode b t some_text = elim (Bool-cases (is_empty (b.body t))) [
  | inr e ↦ e
  | inl e ↦
      let no_body = nil (b.body t) e in
      let no_pad : b.pad t ≡ 0 = omega (arith, b.few t, ap length no_body, b.fours t) in
      let no_text : encode t ≡ [] = b.shape t ∙ rw (no_body, no_pad) refl in
      let same : some [] ≡ some t = sym b.empty ∙ ap decode (sym no_text) ∙ b.undone t in
      absurd (cc (some_text, same))
]

-- A cursor of some text is not the empty string, which a route takes for none.
pub is_empty-encode_cursor :
    (encode : Text → Text) (decode : Text → Option Text) (p : Text) (ps : List Text)
    → IsBase64 encode decode
    → is_empty (join (p ∷ ps)) ≡ false
    → All IsPart (p ∷ ps)
    → is_empty (encode_cursor encode (p ∷ ps)) ≡ false
is_empty-encode_cursor encode decode p ps b some_text plain =
    rw (encode_cursor-body encode decode b p ps plain)
      (is_empty-body encode decode b (join (p ∷ ps)) some_text)

-- With base64 as documented: a cursor made of one or more parts, none of which has the separator in
-- it, is read back by as many parsers, as what each parser makes of its part, and as the parts
-- themselves where no parsers are given.
pub decode_cursor-encode_cursor :
    {V : Type 0} (encode : Text → Text) (decode : Text → Option Text)
    (parses : List (Text → Option V)) (p : Text) (ps : List Text) (vs : List V)
    → IsBase64 encode decode
    → All IsPart (p ∷ ps)
    → parse_parts parses (p ∷ ps) ≡ some vs
    → (decode_cursor decode parses (encode_cursor encode (p ∷ ps)) ≡ some vs)
      × (decode_raw decode (encode_cursor encode (p ∷ ps)) ≡ some (p ∷ ps))
unfolding decode_cursor
decode_cursor-encode_cursor encode decode parses p ps vs b plain parsed =
    let back = decode_raw-encode_cursor encode decode b p ps plain in
    let many : (length (p ∷ ps) == length parses) ≡ true =
      rw (parse_parts-length parses (p ∷ ps) vs parsed) (==_refl (length parses)) in
    (rw (back, decode_cursor) (rw many parsed), back)
