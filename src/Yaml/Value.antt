-- ===== src/Yaml/Value.antt =====
-- Keys and values of src/qofconfig.c.
use Prim.Native.String.{String}
use text.Mathlib.Text.{starts_with}
use qof.Base.{Bool, List, Option, [], none, not, replicate, some, ℕ, ◌∷◌}
use qof.IfMap.{Addr6}

-- `yaml_event_t`, by what the code looks at; `other` is an alias or no event.
pub data Event : Type 0 where
  stream_start stream_end document_start document_end : Event
  sequence_start sequence_end mapping_start mapping_end other : Event
  scalar : String → Event

-- What is left to parse. `none` is a failure of the parser, and so is the end of the list.
abbrev pub Events : Type 0
Events = List (Option Event)

-- `ended` is a return of `FALSE` without an error, `failed` one with an error; `undefined` is undefined
-- behaviour. A parser that returns gives what is left.
pub data Parsed {ℓ} (A : Type ℓ) : Type ℓ where
  got : A → Events → Parsed A
  ended : Events → Parsed A
  failed : Parsed A
  undefined : Parsed A
  out_of_fuel : Parsed A

abbrev pub Parser {ℓ} : Type ℓ → Type ℓ
Parser A = Events → Parsed A

abbrev pub and_then {ℓ κ} : {A : Type ℓ} {B : Type κ} → Parsed A → (A → Parser B) → Parsed B
and_then (got a rest) f = f a rest
and_then (ended rest) f = ended rest
and_then failed f = failed
and_then undefined f = undefined
and_then out_of_fuel f = out_of_fuel

infixl 5 ◌>>=◌
abbrev pub ◌>>=◌ {ℓ κ} : {A : Type ℓ} {B : Type κ} → Parser A → (A → Parser B) → Parser B
◌>>=◌ p f es = and_then (p es) f

-- A loop over a parser goes on with what is got, and is done where the parser has ended.
abbrev pub or_done {ℓ κ} :
    {A : Type ℓ} {B : Type κ} → Parsed A → (A → Parser B) → (Events → Parsed B) → Parsed B
or_done (got a rest) f done = f a rest
or_done (ended rest) f done = done rest
or_done failed f done = failed
or_done undefined f done = undefined
or_done out_of_fuel f done = out_of_fuel

abbrev pub return {ℓ} : {A : Type ℓ} → A → Parser A
return a es = got a es

abbrev pub fail {ℓ} : {A : Type ℓ} → Parser A
fail es = failed

-- `yaml_parser_parse`
unfoldable pub next_event : Parser Event
next_event [] = failed
next_event (none ∷ es) = failed
next_event (some e ∷ es) = got e es

abbrev pub key_of : Event → Parser String
key_of (scalar t) es = got t es
key_of mapping_end es = ended es
key_of _ es = failed

abbrev pub value_of : Event → Parser String
value_of (scalar t) es = got t es
value_of sequence_end es = ended es
value_of _ es = failed

unfoldable pub parse_key : Parser String
parse_key = do e ← next_event; key_of e

unfoldable pub parse_value : Parser String
parse_value = do e ← next_event; value_of e

-- The calls of the C library, on the first 80 bytes of a text: what `sscanf` finds for each format, with the mask if there is one, and
-- the address that `inet_pton` writes: of version 4 as the word that the host reads from the four bytes
-- in network order; `ntohl` turns it round.
pub record Scan : Type 0 where
  pub u32 : String → Option ℕ
  pub u64 : String → Option ℕ
  pub v4 : String → Option (String × Option ℕ)
  pub v6 : String → Option (String × Option ℕ)
  pub mac : String → Option (List ℕ)
  pub pton4 : String → Option ℕ
  pub pton6 : String → Option Addr6
  pub ntohl : ℕ → ℕ

abbrev pub require {ℓ} : {A : Type ℓ} → Option A → Parser A
require none es = failed
require (some a) es = got a es

abbrev pub mask_or : ℕ → Option ℕ → ℕ
mask_or d none = d
mask_or d (some m) = m

module _ (scan : Scan) where
  unfoldable pub parse_u32 : Parser ℕ
  parse_u32 = do t ← parse_value; require (scan.u32 t)

  unfoldable pub parse_u64 : Parser ℕ
  parse_u64 = do t ← parse_value; require (scan.u64 t)

  -- Only a text that begins with the digit 0 is false.
  unfoldable pub parse_bool : Parser Bool
  parse_bool = do t ← parse_value; return (not (starts_with t "0"))

  -- `ntohl` is applied to the result of `inet_pton`, which stays 0 or not; the address stays as it is.
  unfoldable pub parse_prefixed_v4 : Parser (ℕ × ℕ)
  parse_prefixed_v4 = do
    t ← parse_value
    (a, m) ← require (scan.v4 t)
    addr ← require (scan.pton4 a)
    return (addr, mask_or 32 m)

  unfoldable pub parse_prefixed_v6 : Parser (Addr6 × ℕ)
  parse_prefixed_v6 = do
    t ← parse_value
    (a, m) ← require (scan.v6 t)
    addr ← require (scan.pton6 a)
    return (addr, mask_or 128 m)

  abbrev pub no_addr6 : Addr6
  no_addr6 = replicate 16 0

  abbrev pub address_4_or_6 : String → Option (String × Option ℕ) → Parser (ℕ × Addr6 × ℕ)
  address_4_or_6 t none = do
    (a, m) ← require (scan.v6 t)
    addr ← require (scan.pton6 a)
    return (0, addr, mask_or 128 m)
  address_4_or_6 t (some (a, m)) = do
    addr ← require (scan.pton4 a)
    return (scan.ntohl addr, no_addr6, mask_or 32 m)

  -- The text is scanned as version 4 first, and as version 6 where that fails.
  unfoldable pub parse_prefixed_v4_or_6 : Parser (ℕ × Addr6 × ℕ)
  parse_prefixed_v4_or_6 = do t ← parse_value; address_4_or_6 t (scan.v4 t)

  unfoldable pub parse_mac48 : Parser (List ℕ)
  parse_mac48 = do t ← parse_value; require (scan.mac t)
