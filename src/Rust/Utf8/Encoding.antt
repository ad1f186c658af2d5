-- ===== src/Rust/Utf8/Encoding.antt =====
-- The shape of an encoded character: one lead byte, which tells the length, and continuation bytes.
use org_rs.Prelude.{
  ℕ, suc, ◌+◌, ◌/◌, ◌≡◌, refl, sym, ◌∙◌, ap, true, false, some, List, [], ◌∷◌, ◌++◌, append_assoc,
  arith, ltb, if◌then◌else◌, length,
}
use org_rs.Rust.Str.{Str, is_lead}
use org_rs.Rust.Utf8.{Char, IsChar, encode, encode_all, first_char, continuation}

abbrev pub AllChars : List Char → Type 0
AllChars [] = Unit
AllChars (c ∷ cs) = IsChar c × AllChars cs

abbrev pub AllContinuation : Str → Type 0
AllContinuation [] = Unit
AllContinuation (b ∷ bs) = (is_lead b ≡ false) × AllContinuation bs

-- The length that the lead byte announces.
abbrev pub announced : ℕ → ℕ
announced b = if ltb b 0x80 then 1 else if ltb b 0xe0 then 2 else if ltb b 0xf0 then 3 else 4

pub record Shape (c : Char) : Type 0 where
  pub lead : ℕ
  pub rest : Str
  pub bytes : encode c ≡ lead ∷ rest
  pub is_lead_byte : is_lead lead ≡ true
  pub continues : AllContinuation rest
  pub length_announced : announced lead ≡ suc (length rest)

continuation-not-lead : (x : ℕ) → is_lead (continuation x) ≡ false
continuation-not-lead x = ground arith

abbrev lead_of : Char → ℕ
lead_of c =
    if ltb c 0x80
    then c
    else if ltb c 0x800
    then 192 + c / 64
    else if ltb c 0x10000
    then 224 + c / 4096
    else 240 + c / 262144

abbrev rest_of : Char → Str
rest_of c =
    if ltb c 0x80
    then []
    else if ltb c 0x800
    then continuation c ∷ []
    else if ltb c 0x10000
    then continuation (c / 64) ∷ continuation c ∷ []
    else continuation (c / 4096) ∷ continuation (c / 64) ∷ continuation c ∷ []

encode-lead : (c : Char) → encode c ≡ lead_of c ∷ rest_of c
unfolding encode
encode-lead c = ground arith

lead_of-is_lead : (c : Char) → is_lead (lead_of c) ≡ true
lead_of-is_lead c = ground arith

rest_of-AllContinuation : (c : Char) → AllContinuation (rest_of c)
rest_of-AllContinuation c = ground arith

announced-lead_of : (c : Char) → IsChar c → announced (lead_of c) ≡ suc (length (rest_of c))
announced-lead_of c h = ground arith

pub encode-Shape : (c : Char) → IsChar c → Shape c
encode-Shape c h = record {
  lead = lead_of c;
  rest = rest_of c;
  bytes = encode-lead c;
  is_lead_byte = lead_of-is_lead c;
  continues = rest_of-AllContinuation c;
  length_announced = announced-lead_of c h;
}

pub first_char-encode : (c : Char) (rest : Str) → IsChar c → first_char (encode c ++ rest) ≡ some c
unfolding first_char encode
first_char-encode c rest h = ground arith

pub encode_all-append : (a b : List Char) → encode_all (a ++ b) ≡ encode_all a ++ encode_all b
unfolding encode_all
encode_all-append [] b = refl
encode_all-append (c ∷ a) b =
    ap (λ (t : Str). encode c ++ t) (encode_all-append a b)
    ∙ sym (append_assoc (encode c) (encode_all a) (encode_all b))
