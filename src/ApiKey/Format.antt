-- ===== src/ApiKey/Format.antt =====
-- The format of API keys: what is generated can be parsed, and what is parsed has the format.
use specter_cloud.Prelude.{
  ℕ, ◌*◌, ◌≡◌, ◌∙◌, refl, ap, sym, inl, inr, Text, non_empty, strip_prefix, split_once, Bool, true,
  false, ◌&&◌, ◌||◌, Option, none, some, [], ◌∷◌, ◌++◌, All, nil, cons, All-append, All-map_fun,
  arith, length, leb, ◌==◌, ==_iff, ==_refl, &&_iff, Bool-cases, Option-cases,
}
use mathlib.Core.List.{reverse, reverse-cons, reverse-reverse}
use specter_cloud.Platform.{Platform}
use specter_cloud.ApiKey.{
  skip_sign, skip_0x, key_tag, prefix_bytes, underscore, generate_api_key, all_digits, skip_space,
  int_accepts, check_shape, split_rest, parse_key,
}

-- a digit that `secrets.token_hex` writes
abbrev pub is_hex : ℕ → Bool
is_hex c = leb 48 c && leb c 57 || leb 97 c && leb c 102

abbrev pub IsHex : Text → Type 0
IsHex s = All (λ c. is_hex c ≡ true) s

reverse-IsHex : {s : Text} → IsHex s → IsHex (reverse s)
reverse-IsHex nil = nil
reverse-IsHex (cons {x} {xs} h rest) =
    rw reverse-cons (All-append (reverse-IsHex rest) (cons h nil))

skip_space-hex : {s : Text} → IsHex s → skip_space s ≡ s
unfolding skip_space
skip_space-hex nil = refl
skip_space-hex (cons {x} h rest) = ground arith

all_digits-hex : (platform : Platform) {s : Text} → IsHex s → all_digits platform s ≡ true
unfolding all_digits
all_digits-hex platform nil = refl
all_digits-hex platform (cons {x} h rest) = ground (arith, all_digits-hex platform rest)

trimmed : {s : Text} → IsHex s → reverse (skip_space (reverse (skip_space s))) ≡ s
trimmed {s} h = rw (skip_space-hex h, skip_space-hex (reverse-IsHex h)) (reverse-reverse s)

skip_sign-hex : {s : Text} → IsHex s → skip_sign s ≡ s
skip_sign-hex nil = refl
skip_sign-hex (cons {x} h rest) = ground arith

skip_0x-hex : {s : Text} → IsHex s → skip_0x s ≡ s
skip_0x-hex nil = refl
skip_0x-hex (cons h nil) = refl
skip_0x-hex (cons {x} h (cons {x = y} k rest)) = ground arith

int_accepts-hex :
    (platform : Platform) {s : Text} → IsHex s → non_empty s ≡ true → int_accepts platform s ≡ true
unfolding int_accepts
int_accepts-hex platform {s} h n =
    ap (λ d. non_empty d && all_digits platform d)
      (ap (λ t. skip_0x (skip_sign t)) (trimmed h) ∙ ap skip_0x (skip_sign-hex h) ∙ skip_0x-hex h)
    ∙ rw (n, all_digits-hex platform h) refl

strip_prefix-append : (tag s : Text) → strip_prefix tag (tag ++ s) ≡ some s
unfolding strip_prefix
strip_prefix-append [] s = refl
strip_prefix-append (t ∷ tag) s = ground (arith, strip_prefix-append tag s)

pub split_once-append :
    (sep : ℕ) {a : Text} (b : Text)
    → All (λ c. (c == sep) ≡ false) a
    → split_once sep (a ++ sep ∷ b) ≡ some (a, b)
unfolding split_once
split_once-append sep b nil = rw (==_refl sep) refl
split_once-append sep b (cons h rest) = rw (h, split_once-append sep b rest) refl

strip_prefix-some : (tag s : Text) {r : Text} → strip_prefix tag s ≡ some r → s ≡ tag ++ r
unfolding strip_prefix
strip_prefix-some [] s e = cc e
strip_prefix-some (t ∷ tag) [] e = absurd (cc e)
strip_prefix-some (t ∷ tag) (c ∷ s) e = elim (Bool-cases (t == c)) [
  | inl same ↦ let rest = strip_prefix-some tag s (rw same at e) in cc ((==_iff t c).0 same, rest)
  | inr other ↦ absurd (cc (rw other at e))
]

pub split_once-some :
    (sep : ℕ) (s : Text) {a b : Text} → split_once sep s ≡ some (a, b) → s ≡ a ++ sep ∷ b
unfolding split_once
split_once-some sep [] e = absurd (cc e)
split_once-some sep (c ∷ s) {a} {b} e = elim (Bool-cases (c == sep)) [
  | inl same ↦
      let q : some ([], s) ≡ some (a, b) = rw same at e in
      ap (λ x. x ∷ s) ((==_iff c sep).0 same) ∙ ap glue q
  | inr other ↦ elim (Option-cases (split_once sep s)) [
    | inl n ↦ absurd (cc (rw (other, n) at e))
    | inr ((a', b'), q) ↦
        let parts : some (c ∷ a', b') ≡ some (a, b) = rw (other, q) at e in
        ap (λ t. c ∷ t) (split_once-some sep s q) ∙ ap glue parts
  ]
]
  where
    glue : Option (Text × Text) → Text
    glue none = []
    glue (some (x, y)) = x ++ sep ∷ y

check_shape-some :
    (platform : Platform) (o : Option (Text × Text)) {prefix secret : Text}
    → check_shape platform o ≡ some (prefix, secret)
    → (o ≡ some (prefix, secret)) × (length prefix ≡ prefix_bytes * 2) × (non_empty secret ≡ true)
check_shape-some platform none e = absurd (cc e)
check_shape-some platform (some (p, s)) {prefix} {secret} e =
    elim (Bool-cases (length p == 8 && non_empty s)) [
      | inl shape ↦ elim (Bool-cases (int_accepts platform p)) [
        | inl number ↦
            let q : some (p, s) ≡ some (prefix, secret) = rw (shape, number) at e in
            let both = (&&_iff (length p == 8) (non_empty s)).0 shape in
            (
              q,
              ap (λ o. length (first o)) (sym q) ∙ (==_iff (length p) 8).0 both.0,
              ap (λ o. non_empty (second o)) (sym q) ∙ both.1,
            )
        | inr other ↦ absurd (cc (rw (shape, other) at e))
      ]
      | inr other ↦ absurd (cc (rw other at e))
    ]
  where
    first : Option (Text × Text) → Text
    first none = []
    first (some (x, y)) = x

    second : Option (Text × Text) → Text
    second none = []
    second (some (x, y)) = y

long_non_empty : (s : Text) → length s ≡ 8 → non_empty s ≡ true
long_non_empty [] e = absurd (omega (arith, e))
long_non_empty (c ∷ s) e = refl

hex_apart : {s : Text} → IsHex s → All (λ c. (c == underscore) ≡ false) s
hex_apart h = All-map_fun (λ c p. ground arith) h

-- A key that is generated from eight hexadecimal digits and a secret that is not empty is parsed
-- into just these, underscores in the secret included.
pub parse_key-generate_api_key :
    (platform : Platform) (prefix secret : Text)
    → IsHex prefix
    → length prefix ≡ prefix_bytes * 2
    → non_empty secret ≡ true
    → parse_key platform (generate_api_key platform prefix secret).0 ≡ some (prefix, secret)
unfolding parse_key generate_api_key
parse_key-generate_api_key platform prefix secret h n s =
    ap (λ o. check_shape platform (split_rest o))
      (strip_prefix-append key_tag (prefix ++ underscore ∷ secret))
    ∙ ap (check_shape platform) (split_once-append underscore secret (hex_apart h))
    ∙ rw (n, s, int_accepts-hex platform h (long_non_empty prefix n)) refl

-- What is parsed has the format: the tag, eight characters, an underscore and a secret that is not
-- empty.
pub parse_key-format :
    (platform : Platform) (raw prefix secret : Text)
    → parse_key platform raw ≡ some (prefix, secret)
    → (raw ≡ key_tag ++ prefix ++ underscore ∷ secret)
      × (length prefix ≡ prefix_bytes * 2)
      × (non_empty secret ≡ true)
unfolding parse_key
parse_key-format platform raw prefix secret e = elim (Option-cases (strip_prefix key_tag raw)) [
  | inl n ↦ absurd (cc (rw n at e))
  | inr (rest, q) ↦
      let (found, size, secret_given) =
        check_shape-some platform (split_once underscore rest) (rw q at e) in
      (
        strip_prefix-some key_tag raw q
            ∙ ap (λ t. key_tag ++ t) (split_once-some underscore rest found),
        size,
        secret_given,
      )
]
