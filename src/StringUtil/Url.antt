-- ===== src/StringUtil/Url.antt =====
-- The URL encodings of src/util/StringUtil.cc, decoded again.
use tinywf.Prelude.{
  ℕ, ◌/◌, ◌%◌, ◌<◌, ◌≡◌, refl, ap, ◌∙◌, Bool, true, false, [], ◌∷◌, ◌++◌, arith, Bool-cases, ◌==◌,
  inl, inr,
}
use tinywf.Prelude.Bytes.{Bytes, to_lower}
use tinywf.StringUtil.{
  is_digit, is_alnum, is_xdigit, hex_value, htoi, itoh, plain, url_decode, kept_in_component,
  kept_in_url, encode_byte, url_encode, url_encode_component,
}

-- A string is a list of bytes below 256.
abbrev pub AllBytes : Bytes → Type 0
AllBytes [] = Unit {0}
AllBytes (c ∷ str) = (c < 256) × AllBytes str

itoh-is_xdigit : (n : ℕ) → n < 16 → is_xdigit (itoh n) ≡ true
unfolding is_xdigit itoh is_digit to_lower
itoh-is_xdigit n h = ground arith

hex_value-itoh : (n : ℕ) → n < 16 → hex_value (itoh n) ≡ n
unfolding hex_value itoh is_digit to_lower
hex_value-itoh n h = ground arith

htoi-itoh : (c : ℕ) → c < 256 → htoi (itoh (c / 16)) (itoh (c % 16)) ≡ c
unfolding htoi
htoi-itoh c h = omega (arith, hex_value-itoh (c / 16), hex_value-itoh (c % 16))

-- An escape decodes to its byte.
decode-escape :
    (c : ℕ) (rest : Bytes)
    → c < 256
    → url_decode (b'%' ∷ itoh (c / 16) ∷ itoh (c % 16) ∷ rest) ≡ c ∷ url_decode rest
unfolding url_decode
decode-escape c rest h = ground (
  arith,
  itoh-is_xdigit (c / 16) (omega arith),
  itoh-is_xdigit (c % 16) (omega arith),
  htoi-itoh c h,
)

-- Any byte but a percent sign decodes alone.
decode-plain :
    (c : ℕ) (rest : Bytes) → (c == b'%') ≡ false → url_decode (c ∷ rest) ≡ plain c ∷ url_decode rest
unfolding url_decode
decode-plain c [] h = refl
decode-plain c (d ∷ []) h = refl
decode-plain c (d ∷ e ∷ rest) h = ground (arith, h)

encode_byte-decode :
    (kept : Bool) (c : ℕ) (rest : Bytes)
    → c < 256
    → (kept ≡ true → (c == b'%') ≡ false)
    → (kept ≡ true → (c == b'+') ≡ false)
    → url_decode (encode_byte kept c ++ rest) ≡ c ∷ url_decode rest
unfolding encode_byte plain
encode_byte-decode kept c rest h k l = elim (Bool-cases (c == b' ')) [
  | inl blank ↦ ground (arith, blank, decode-plain b'+' rest refl)
  | inr other ↦ elim (Bool-cases kept) [
    | inl itself ↦ ground (arith, other, itself, decode-plain c rest (k itself), l itself)
    | inr coded ↦ ground (arith, other, coded, decode-escape c rest h)
  ]
]

kept_in_component-plain :
    (c : ℕ) → kept_in_component c ≡ true → ((c == b'%') ≡ false) × ((c == b'+') ≡ false)
unfolding kept_in_component is_alnum is_digit to_lower
kept_in_component-plain c h = ground arith

kept_in_url-plain : (c : ℕ) → kept_in_url c ≡ true → ((c == b'%') ≡ false) × ((c == b'+') ≡ false)
unfolding kept_in_url
kept_in_url-plain c h = ground (arith, kept_in_component-plain c)

-- Whatever the bytes of a string, decoding what `url_encode` makes of it gives the string again.
pub url_decode-url_encode : (str : Bytes) → AllBytes str → url_decode (url_encode str) ≡ str
unfolding url_encode
url_decode-url_encode [] h = unfold url_decode in refl
url_decode-url_encode (c ∷ str) (h, hs) =
    let kept = kept_in_url-plain c in
    encode_byte-decode (kept_in_url c) c (url_encode str) h (λ k. (kept k).0) (λ k. (kept k).1)
    ∙ ap (◌∷◌ c) (url_decode-url_encode str hs)

-- Whatever the bytes of a string, decoding what `url_encode_component` makes of it gives the string
-- again.
pub url_decode-url_encode_component :
    (str : Bytes) → AllBytes str → url_decode (url_encode_component str) ≡ str
unfolding url_encode_component
url_decode-url_encode_component [] h = unfold url_decode in refl
url_decode-url_encode_component (c ∷ str) (h, hs) =
    let kept = kept_in_component-plain c in
    encode_byte-decode (kept_in_component c) c (url_encode_component str) h (λ k. (kept k).0)
      (λ k. (kept k).1)
    ∙ ap (◌∷◌ c) (url_decode-url_encode_component str hs)
