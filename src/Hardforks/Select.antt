-- ===== src/Hardforks/Select.antt =====
-- packages/web3-qrl-accounts/src/common/common.ts: the hardfork of a block and a time, and what a
-- hardfork's entry says.
use web3_js.Common.{
  ℕ, zero, suc, ◌-◌, max, min, Bool, true, false, ◌&&◌, ◌||◌, Option, none, some, List, [], ◌∷◌,
  String, ltb, leb, nat_eq, if◌then◌else◌, ◌==◌, string_eq_instance, length, drop, slice_to,
}
use mathlib.Core.List.{reverse}
use web3_js.JsMap.{is_some}
use web3_js.Fault.{
  Fault, Result, ok, err, type_error, no_hardfork_at_zero, timestamp_too_low, timestamp_too_high,
}
use web3_js.Hardforks.{Block, absent, null, number, HardforkConfig, Rules, Spec, set_hardfork}
use web3_js.Hardforks.Settings.{or_default, activates}

module _ {ℓ} {A : Type ℓ} where
  abbrev pub find_index : (A → Bool) → List A → Option ℕ
  find_index p [] = none
  find_index p (x ∷ xs) =
      if p x then some 0 else elim (find_index p xs) [ none ↦ none | some i ↦ some (suc i) ]

  abbrev pub find : (A → Bool) → List A → Option A
  find p [] = none
  find p (x ∷ xs) = if p x then some x else find p xs

  abbrev pub filter : (A → Bool) → List A → List A
  filter p [] = []
  filter p (x ∷ xs) = if p x then x ∷ filter p xs else filter p xs

  abbrev pub at? : List A → ℕ → Option A
  at? [] i = none
  at? (x ∷ xs) zero = some x
  at? (x ∷ xs) (suc i) = at? xs i

abbrev pub not_null : Block → Bool
not_null null = false
not_null _ = true

abbrev pub block_above : ℕ → Block → Bool
block_above n (number b) = ltb n b
block_above n _ = false

abbrev pub time_above : Option ℕ → Option ℕ → Bool
time_above (some t) (some s) = ltb t s
time_above _ _ = false

abbrev same_block : Block → Block → Bool
same_block absent absent = true
same_block null null = true
same_block (number a) (number b) = nat_eq a b
same_block _ _ = false

abbrev pub same_time : Option ℕ → Option ℕ → Bool
same_time none none = true
same_time (some a) (some b) = nat_eq a b
same_time _ _ = false

abbrev pub is_applied : HardforkConfig → Bool
is_applied f = not_null f.block || is_some f.timestamp

abbrev pub is_above : ℕ → Option ℕ → HardforkConfig → Bool
is_above n t f = block_above n f.block || time_above t f.timestamp

abbrev pub same_start : HardforkConfig → HardforkConfig → Bool
same_start f g = same_block f.block g.block && same_time f.timestamp g.timestamp

-- The `for` loop: on while the next hardfork starts together with this one.
abbrev pub last_together : ℕ → List HardforkConfig → ℕ
last_together i [] = i
last_together i (f ∷ []) = i
last_together i (f ∷ g ∷ fs) =
    let on = last_together (suc i) (g ∷ fs) in if same_start f g then on else i

abbrev pub latest_time : List HardforkConfig → ℕ → ℕ
latest_time [] acc = acc
latest_time (f ∷ fs) acc = latest_time fs (max (elim f.timestamp [ none ↦ 0 | some t ↦ t ]) acc)

abbrev pub earliest_time : ℕ → List HardforkConfig → ℕ → ℕ
earliest_time t [] acc = acc
earliest_time t (f ∷ fs) acc =
    earliest_time t fs (min (elim f.timestamp [ none ↦ t | some s ↦ s ]) acc)

-- `hfIndex -= stepBack`, where a failed search gives -1.
abbrev pub step_back : ℕ → Option ℕ → ℕ
step_back i none = suc i
step_back i (some k) = i - k

abbrev pub start_index : List HardforkConfig → ℕ → Option ℕ → ℕ
start_index hfs i (some t) = i - 1
start_index hfs i none =
    step_back i (find_index (λ f. not_null f.block) (reverse (slice_to i hfs))) - 1

-- `if (timestamp)`: no time, or time 0, is not checked.
abbrev check_times : List HardforkConfig → ℕ → ℕ → Option ℕ → Option Fault
check_times hfs start last none = none
check_times hfs start last (some zero) = none
check_times hfs start last (some (suc s)) =
    let t = suc s in
    if ltb t (latest_time (slice_to start hfs) 0)
    then some timestamp_too_low
    else if ltb (earliest_time t (drop (suc last) hfs) t) t
    then some timestamp_too_high
    else none

abbrev pub name_at : Option HardforkConfig → Result String
name_at none = err type_error
name_at (some f) = ok f.name

abbrev pub checked_name : Option Fault → Option HardforkConfig → Result String
checked_name (some e) f = err e
checked_name none f = name_at f

unfoldable pub select_from : List HardforkConfig → ℕ → Option ℕ → Result String
select_from hfs i t =
    let start = start_index hfs i t in
    let last = last_together start (drop start hfs) in
    checked_name (check_times hfs start last t) (at? hfs last)

abbrev pub select_found : List HardforkConfig → Option ℕ → Option ℕ → Result String
select_found hfs t none = select_from hfs (length hfs) t
select_found hfs t (some zero) = err no_hardfork_at_zero
select_found hfs t (some (suc i)) = select_from hfs (suc i) t

unfoldable pub select_hardfork : List HardforkConfig → ℕ → Option ℕ → Result String
unfolding select_from
select_hardfork all n t =
    let hfs = filter is_applied all in select_found hfs t (find_index (is_above n t) hfs)

abbrev pub get_hardfork_by_block_number : ℕ → Option ℕ → Rules → Result String
get_hardfork_by_block_number n t r = select_hardfork r.chain.hardforks n t

abbrev pub set_selected : Rules → Result String → Option Fault × Rules
set_selected r (err e) = (some e, r)
set_selected r (ok h) = set_hardfork h r

unfoldable pub set_hardfork_by_block_number : ℕ → Option ℕ → Rules → Option Fault × Rules
set_hardfork_by_block_number n t r = set_selected r (get_hardfork_by_block_number n t r)

unfoldable pub get_hardfork : String → List HardforkConfig → Option HardforkConfig
get_hardfork h [] = none
get_hardfork h (f ∷ fs) = if f.name == h then some f else get_hardfork h fs

abbrev block_number : Block → Option ℕ
block_number (number b) = some b
block_number _ = none

abbrev entry_block : Option HardforkConfig → Option ℕ
entry_block none = none
entry_block (some f) = block_number f.block

abbrev entry_time : Option HardforkConfig → Option ℕ
entry_time none = none
entry_time (some f) = f.timestamp

unfoldable pub hardfork_block : Option String → Rules → Option ℕ
unfolding get_hardfork
hardfork_block h r = entry_block (get_hardfork (or_default h r.hardfork) r.chain.hardforks)

unfoldable pub hardfork_timestamp : Option String → Rules → Option ℕ
unfolding get_hardfork
hardfork_timestamp h r = entry_time (get_hardfork (or_default h r.hardfork) r.chain.hardforks)

-- A hardfork at block 0 is not active anywhere by this test.
abbrev active_from : Option ℕ → ℕ → Bool
active_from none n = false
active_from (some zero) n = false
active_from (some (suc b)) n = leb (suc b) n

unfoldable pub hardfork_is_active_on_block : Option String → ℕ → Rules → Bool
unfolding hardfork_block
hardfork_is_active_on_block h n r = active_from (hardfork_block h r) n

unfoldable pub active_on_block : ℕ → Rules → Bool
unfolding hardfork_is_active_on_block
active_on_block n r = hardfork_is_active_on_block none n r

unfoldable pub qip_block : ℕ → List (String × Option Spec) → Rules → Result (Option ℕ)
unfolding hardfork_block
qip_block qip [] r = ok none
qip_block qip ((n, none) ∷ cs) r = err type_error
qip_block qip ((n, some s) ∷ cs) r =
    let rest = qip_block qip cs r in
    if activates qip s.spec_qips then ok (hardfork_block (some n) r) else rest

-- `hf.timestamp ?? hf.block`, with `undefined` and `null` alike.
abbrev pub time_or_block : HardforkConfig → Option ℕ
time_or_block f = elim f.timestamp [ some t ↦ some t | none ↦ block_number f.block ]

abbrev pub other_start : Option ℕ → Option ℕ → Bool
other_start c none = false
other_start none (some t) = true
other_start (some s) (some t) = if nat_eq s t then false else true

abbrev pub next_after : Option ℕ → List HardforkConfig → Option ℕ
next_after c fs = elim (find (λ f. other_start c (time_or_block f)) fs) [
  | none ↦ none
  | some f ↦ time_or_block f
]

unfoldable pub next_of : String → List HardforkConfig → Option ℕ
next_of h [] = none
next_of h (f ∷ fs) = if f.name == h then next_after (time_or_block f) fs else next_of h fs

unfoldable pub next_hardfork_block_or_timestamp : Option String → Rules → Option ℕ
unfolding next_of
next_hardfork_block_or_timestamp h r = next_of (or_default h r.hardfork) r.chain.hardforks
