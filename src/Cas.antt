-- ===== src/Cas.antt =====
-- src/cas.rs: hashes in hexadecimal, the in-memory store, and the store that hydrates from a remote.
-- BLAKE3 is a parameter, `hash_bytes`.
pub mod Hex
pub mod Hydration
use lunar_fs.Base.{
  ℕ, zero, suc, ◌+◌, ◌-◌, ◌*◌, ◌/◌, ◌%◌, ◌<◌, ◌≤◌, Bool, true, false, not, ◌&&◌, Option, none, some,
  List, [], ◌∷◌, ◌++◌, Bytes, Outcome, ok, err, ◌>>=◌, ◌==◌, list_eq, nat_eq, leb, ltb, ◌=ℕ=◌,
  length, if◌then◌else◌,
}
use lunar_fs.Base.Dict.{Dict, get, insert, contains_key}
use lunar_fs.Base.Text.{hex_digit}

-- The kinds of `io::Error` that the modelled code tells apart; the messages are dropped.
pub data IoError : Type 0 where
  not_found invalid_input invalid_data other : IoError

-- `[u8; 32]`: the lists of 32 bytes.
abbrev pub Hash : Type 0
Hash = Bytes

unfoldable pub hash_to_hex : Hash → Bytes
hash_to_hex [] = []
hash_to_hex (b ∷ h) = hex_digit (b / 16) ∷ hex_digit (b % 16) ∷ hash_to_hex h

-- A digit of `u8::from_str_radix(_, 16)`.
unfoldable pub digit_value : ℕ → Option ℕ
digit_value c =
    if leb b'0' c && leb c b'9'
    then some (c - b'0')
    else if leb b'a' c && leb c b'f'
    then some (c - b'a' + 10)
    else if leb b'A' c && leb c b'F'
    then some (c - b'A' + 10)
    else none

-- `u8::from_str_radix` on two bytes: a leading '+' is a sign.
unfoldable pub from_str_radix : ℕ → ℕ → Option ℕ
unfolding digit_value
from_str_radix c d = if c =ℕ= b'+' then digit_value d else (elim (digit_value c) [
  | none ↦ none
  | some hi ↦ elim (digit_value d) [ none ↦ none | some lo ↦ some (hi * 16 + lo) ]
])

-- The loop over the chunks of two bytes. A chunk cut inside a character is no UTF-8, and holds a
-- byte that is no digit: both come to `invalid_input`.
unfoldable pub parse_pairs : Bytes → Outcome IoError Hash
parse_pairs (c ∷ d ∷ s) = elim (from_str_radix c d) [
  | none ↦ err IoError.invalid_input
  | some b ↦ parse_pairs s >>= λ rest. ok (b ∷ rest)
]
parse_pairs (c ∷ []) = ok []
parse_pairs [] = ok []

unfoldable pub hex_to_hash : Bytes → Outcome IoError Hash
hex_to_hash s = if length s =ℕ= 64 then parse_pairs s else err IoError.invalid_input

-- The trait `Store`, over the state that its implementation keeps. `get` may write.
pub record Store : Type 1 where
  pub State : Type 0
  pub put : State → Bytes → Outcome IoError (Hash × State)
  pub get : State → Hash → Outcome IoError (Option Bytes × State)
  pub has : State → Hash → Bool

abbrev pub Blobs : Type 0
Blobs = Dict Hash Bytes

module _ (hash_bytes : Bytes → Hash) where
  -- `entry(hash).or_insert_with(..)`
  unfoldable pub mem_put : Blobs → Bytes → Hash × Blobs
  mem_put blobs bytes =
      let hash = hash_bytes bytes in
      (hash, if contains_key blobs hash then blobs else insert blobs hash bytes)

  abbrev pub mem_store : Store
  mem_store = record {
    State = Blobs;
    put = λ blobs bytes. ok (mem_put blobs bytes);
    get = λ blobs hash. ok (get blobs hash, blobs);
    has = λ blobs hash. contains_key blobs hash;
  }

  -- A store over a local one that fetches what it lacks. The remote is not under the repository's
  -- control: `fetch_blob` is what it answers.
  module _ (local : Store) (fetch_blob : Hash → Outcome IoError (Option Bytes)) where
    unfoldable pub verify :
        Hash → Bytes → local.State → Outcome IoError (Option Bytes × local.State)
    verify hash fetched s =
        if not (hash_bytes fetched == hash)
        then err IoError.invalid_data
        else (local.put s fetched >>= λ (_, s'). ok (some fetched, s'))

    unfoldable pub fetch_missing : Hash → local.State → Outcome IoError (Option Bytes × local.State)
    unfolding verify
    fetch_missing hash s = fetch_blob hash >>= λ answer. elim answer [
      | none ↦ ok (none, s)
      | some bytes ↦ verify hash bytes s
    ]

    unfoldable pub hydrating_get : local.State → Hash → Outcome IoError (Option Bytes × local.State)
    unfolding fetch_missing
    hydrating_get s hash = local.get s hash >>= λ (found, s'). elim found [
      | some bytes ↦ ok (some bytes, s')
      | none ↦ fetch_missing hash s'
    ]

    abbrev pub hydrating_store : Store
    hydrating_store = record {
      State = local.State;
      put = local.put;
      get = hydrating_get;
      has = local.has;
    }
