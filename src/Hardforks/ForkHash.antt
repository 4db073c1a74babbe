-- ===== src/Hardforks/ForkHash.antt =====
-- packages/web3-qrl-accounts/src/common/common.ts: fork hashes. The checksum `CRC32.buf` is an
-- argument, on bytes.
use web3_js.Common.{
  ℕ, Bool, false, not, ◌&&◌, Option, none, some, List, [], ◌∷◌, ◌++◌, String, Text, nat_eq, ◌%◌,
  if◌then◌else◌, ◌==◌, string_eq_instance, text_same_instance, codes, length,
}
use web3_js.JsMap.{is_some}
use web3_js.Hex.{
  to_string_16, pad_start, hex_to_uint8_array, uint8_array_to_hex_string, BytesResult, bytes,
}
use web3_js.Fault.{Fault, Result, ok, err, ◌>>=◌, type_error, no_fork_hash, genesis_hash_required}
use web3_js.Hardforks.{HardforkConfig, Rules}
use web3_js.Hardforks.Settings.{or_default}
use web3_js.Hardforks.Select.{get_hardfork, time_or_block, is_applied, filter}

-- `hexToBytes` puts `0x` in front of a text without it.
abbrev bytes_of : BytesResult → Result (List ℕ)
bytes_of (bytes bs) = ok bs
bytes_of _ = err type_error

unfoldable pub hex_to_bytes : Text → Result (List ℕ)
hex_to_bytes s = bytes_of (hex_to_uint8_array (codes "0x" ++ s))

-- `blockOrTime.toString(16).padStart(16, '0')` as bytes.
unfoldable pub block_bytes : ℕ → Result (List ℕ)
unfolding hex_to_bytes
block_bytes n = hex_to_bytes (pad_start (to_string_16 n) 16 (codes "0"))

-- A start that is hashed: none of `null`, 0 and the one before.
abbrev pub new_start : Option ℕ → ℕ → Option ℕ
new_start none previous = none
new_start (some t) previous =
    if nat_eq t 0 then none else if nat_eq t previous then none else some t

abbrev pub start_then : Option ℕ → List ℕ → List ℕ
start_then none ts = ts
start_then (some t) ts = t ∷ ts

abbrev pub start_or : ℕ → Option ℕ → ℕ
start_or previous none = previous
start_or previous (some t) = t

-- The starts that go into the hash of a hardfork.
unfoldable pub hashed_starts : String → List HardforkConfig → ℕ → List ℕ
hashed_starts h [] previous = []
hashed_starts h (f ∷ fs) previous =
    let start = new_start (time_or_block f) previous in
    start_then start (if f.name == h then [] else hashed_starts h fs (start_or previous start))

unfoldable pub concat_bytes : List ℕ → Result (List ℕ)
unfolding block_bytes
concat_bytes [] = ok []
concat_bytes (t ∷ ts) = do bs ← block_bytes t; rest ← concat_bytes ts; ok (bs ++ rest)

-- `padToEven` of the hex digits.
abbrev pub pad_to_even : Text → Text
pad_to_even s = if nat_eq (length s % 2) 0 then s else (48 ∷ s)

unfoldable pub int_to_uint8_array : ℕ → Result (List ℕ)
unfolding hex_to_bytes
int_to_uint8_array n = hex_to_bytes (pad_to_even (to_string_16 n))

module _ (crc32 : List ℕ → ℕ) where
  unfoldable pub calc_fork_hash : String → List HardforkConfig → List ℕ → Result Text
  unfolding hashed_starts concat_bytes int_to_uint8_array
  calc_fork_hash h fs genesis = do
    bs ← concat_bytes (hashed_starts h fs 0)
    code ← int_to_uint8_array (crc32 (genesis ++ bs))
    ok (uint8_array_to_hex_string code)

  abbrev computed : String → List HardforkConfig → Option (List ℕ) → Result Text
  computed h fs none = err genesis_hash_required
  computed h fs (some genesis) = calc_fork_hash h fs genesis

  abbrev kept_or : Option Text → Result Text → Result Text
  kept_or none rest = rest
  kept_or (some x) rest = ok x

  unfoldable pub fork_hash_of : String → List HardforkConfig → Option (List ℕ) → Result Text
  unfolding calc_fork_hash
  fork_hash_of h fs genesis = elim (get_hardfork h fs) [
    | none ↦ err no_fork_hash
    | some f ↦
        if is_applied f then kept_or f.fork_hash (computed h fs genesis) else err no_fork_hash
  ]

  abbrev pub fork_hash : Option String → Option (List ℕ) → Rules → Result Text
  fork_hash h genesis r = fork_hash_of (or_default h r.hardfork) r.chain.hardforks genesis

  abbrev pub lacks_hash : HardforkConfig → Bool
  lacks_hash f = not (is_some f.fork_hash) && is_some (time_or_block f)

  abbrev pub on_hash :
      Result Text
      → List HardforkConfig
      → (Text → Option Fault × List HardforkConfig)
      → Option Fault × List HardforkConfig
  on_hash (err e) all go = (some e, all)
  on_hash (ok x) all go = go x

  -- The loop of `setForkHashes`; `seen` are the hardforks before, with their hashes set.
  unfoldable pub set_hashes :
      List ℕ → List HardforkConfig → List HardforkConfig → Option Fault × List HardforkConfig
  set_hashes genesis seen [] = (none, seen)
  set_hashes genesis seen (f ∷ fs) =
      if lacks_hash f
      then on_hash (fork_hash_of f.name (seen ++ (f ∷ fs)) (some genesis)) (seen ++ (f ∷ fs))
          (λ x. set_hashes genesis (seen ++ (record f { fork_hash = some x } ∷ [])) fs)
      else set_hashes genesis (seen ++ (f ∷ [])) fs

  unfoldable pub set_fork_hashes : List ℕ → Rules → Option Fault × Rules
  unfolding set_hashes
  set_fork_hashes genesis r =
      let (failed, fs) = set_hashes genesis [] r.chain.hardforks in
      (failed, record r { chain = record r.chain { hardforks = fs } })

abbrev last_or : Option HardforkConfig → List HardforkConfig → Option HardforkConfig
last_or o [] = o
last_or o (f ∷ fs) = last_or (some f) fs

abbrev has_hash : Text → HardforkConfig → Bool
has_hash x f = elim f.fork_hash [ none ↦ false | some y ↦ x == y ]

unfoldable pub hardfork_for_fork_hash : Text → Rules → Option HardforkConfig
hardfork_for_fork_hash x r = last_or none (filter (has_hash x) r.chain.hardforks)
