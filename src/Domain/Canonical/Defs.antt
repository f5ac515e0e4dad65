-- ===== src/Domain/Canonical/Defs.antt =====
-- src/domain/canonical.ts: JSON with sorted keys and no incidental whitespace.
use institutional_tokenizati.Base.{
  ℕ, zero, suc, ◌+◌, ◌/◌, ◌%◌, Bool, true, false, List, [], ◌∷◌, ◌++◌, Text, codes, text_le, ltb,
  ◌==◌, if◌then◌else◌,
}

-- The numbers that the program serialises are natural.
mutual
  pub data JsonValue : Type 0 where
    str : Text → JsonValue
    num : ℕ → JsonValue
    bool : Bool → JsonValue
    null : JsonValue
    arr : Items → JsonValue
    obj : Fields → JsonValue

  pub data Items : Type 0 where
    nil : Items
    cons : JsonValue → Items → Items

  pub data Fields : Type 0 where
    end : Fields
    field : Text → JsonValue → Fields → Fields

-- What the host gives: `createHash('sha256')` in hexadecimal, and the text of a UUID. Identifiers
-- are UUIDs in the program and numbers here.
pub record Host : Type 0 where
  pub sha256_hex : Text → Text
  pub uuid_text : ℕ → Text

-- The decimal digits of a number, with fuel: a number has at most as many digits as its value
-- plus one.
decimal_from : ℕ → ℕ → Text → Text
decimal_from zero n acc = acc
decimal_from (suc fuel) n acc =
    let rest = decimal_from fuel (n / 10) ((b'0' + n % 10) ∷ acc) in
    if ltb n 10 then (b'0' + n) ∷ acc else rest

unfoldable pub decimal : ℕ → Text
unfolding decimal_from
decimal n = decimal_from (suc n) n []

unfoldable pub hex_digit : ℕ → ℕ
hex_digit n = if ltb n 10 then b'0' + n else 87 + n

-- `JSON.stringify` of one code unit of well-formed text
unfoldable pub escape : ℕ → Text
unfolding hex_digit
escape c =
    if c == 34
    then 92 ∷ 34 ∷ []
    else if c == 92
    then 92 ∷ 92 ∷ []
    else if c == 8
    then 92 ∷ b'b' ∷ []
    else if c == 9
    then 92 ∷ b't' ∷ []
    else if c == 10
    then 92 ∷ b'n' ∷ []
    else if c == 12
    then 92 ∷ b'f' ∷ []
    else if c == 13
    then 92 ∷ b'r' ∷ []
    else if ltb c 32
    then 92 ∷ b'u' ∷ b'0' ∷ b'0' ∷ hex_digit (c / 16) ∷ hex_digit (c % 16) ∷ []
    else c ∷ []

unfoldable pub escape_all : Text → Text
unfolding escape
escape_all [] = []
escape_all (c ∷ s) = escape c ++ escape_all s

unfoldable pub quote : Text → Text
unfolding escape_all
quote s = 34 ∷ (escape_all s ++ (34 ∷ []))

-- `parts.join(',')`
unfoldable pub join : List Text → Text
join [] = []
join (p ∷ []) = p
join (p ∷ q ∷ ps) = p ++ (44 ∷ join (q ∷ ps))

-- A rendered member of an object goes where the sorted keys have it.
unfoldable pub insert_part : Text → Text → List (Text × Text) → List (Text × Text)
insert_part k p [] = (k, p) ∷ []
insert_part k p ((j, q) ∷ ps) =
    if text_le k j then (k, p) ∷ (j, q) ∷ ps else (j, q) ∷ insert_part k p ps

unfoldable pub parts_of : List (Text × Text) → List Text
parts_of [] = []
parts_of ((k, p) ∷ ps) = p ∷ parts_of ps

unfoldable mutual
  unfolding quote join decimal insert_part parts_of

  pub canonical_json : JsonValue → Text
  canonical_json (str s) = quote s
  canonical_json (num n) = decimal n
  canonical_json (bool true) = codes "true"
  canonical_json (bool false) = codes "false"
  canonical_json null = codes "null"
  canonical_json (arr xs) = b'[' ∷ (join (canonical_items xs) ++ (b']' ∷ []))
  canonical_json (obj fs) = b'{' ∷ (join (parts_of (sorted_parts fs)) ++ (b'}' ∷ []))

  pub canonical_items : Items → List Text
  canonical_items nil = []
  canonical_items (cons x xs) = canonical_json x ∷ canonical_items xs

  pub sorted_parts : Fields → List (Text × Text)
  sorted_parts end = []
  sorted_parts (field k v fs) = insert_part k (quote k ++ (58 ∷ canonical_json v)) (sorted_parts fs)

-- `canonicalHash`
unfoldable pub canonical_hash : Host → JsonValue → Text
canonical_hash host value = host.sha256_hex (canonical_json value)
