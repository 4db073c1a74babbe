-- ===== src/Http/Merged.antt =====
-- packages/web3-providers-http/src/index.ts: writing the chunks at their offsets joins them.
use mathlib.Core.List.{append_assoc}
use web3_js.Common.{
  ℕ, zero, suc, ◌+◌, ◌≡◌, refl, ap, sym, ◌∙◌, some, List, [], ◌∷◌, ◌++◌, Text, length,
  length-append, arith,
}
use web3_js.Fault.{ok}
use web3_js.Http.{set_at, zeros, merge_from, with_merged, decode_chunks}

abbrev pub total_length : List (List ℕ) → ℕ
total_length [] = 0
total_length (c ∷ cs) = length c + total_length cs

abbrev pub join : List (List ℕ) → List ℕ
join [] = []
join (c ∷ cs) = c ++ join cs

pub length-join : (cs : List (List ℕ)) → length (join cs) ≡ total_length cs
length-join [] = refl
length-join (c ∷ cs) = omega (arith, length-append c (join cs), length-join cs)

zeros-add : (n m : ℕ) → zeros (n + m) ≡ zeros n ++ zeros m
zeros-add zero m = ap zeros (omega arith)
zeros-add (suc n) m = ap zeros (succ n m) ∙ ap (λ zs. 0 ∷ zs) (zeros-add n m)
  where
    succ : (n m : ℕ) → suc n + m ≡ suc (n + m)
    succ n m = omega arith

set_at_front : (c rest : List ℕ) → set_at (zeros (length c) ++ rest) c 0 ≡ some (c ++ rest)
set_at_front [] rest = refl
set_at_front (b ∷ bs) rest = rw (set_at_front bs rest) refl

set_at_offset :
    (xs : List ℕ) (b : ℕ) (bs rest : List ℕ)
    → set_at (xs ++ (zeros (length (b ∷ bs)) ++ rest)) (b ∷ bs) (length xs)
      ≡ some (xs ++ ((b ∷ bs) ++ rest))
set_at_offset [] b bs rest = set_at_front (b ∷ bs) rest
set_at_offset (x ∷ xs) b bs rest = rw (set_at_offset xs b bs rest) refl

set_at-append :
    (xs c rest : List ℕ)
    → set_at (xs ++ (zeros (length c) ++ rest)) c (length xs) ≡ some (xs ++ (c ++ rest))
set_at-append xs [] rest = refl
set_at-append xs (b ∷ bs) rest = set_at_offset xs b bs rest

merge_from-join :
    (cs : List (List ℕ)) (xs : List ℕ)
    → merge_from cs (length xs) (xs ++ zeros (total_length cs)) ≡ some (xs ++ join cs)
merge_from-join [] xs = refl
merge_from-join (c ∷ cs) xs =
    ap (merge_from (c ∷ cs) (length xs))
      (ap (λ zs. xs ++ zs) (zeros-add (length c) (total_length cs)))
    ∙ ap (λ o. with_merged o (λ m. merge_from cs (length xs + length c) m))
        (set_at-append xs c (zeros (total_length cs)))
    ∙ ap (λ n. merge_from cs n (xs ++ (c ++ zeros (total_length cs)))) (sym (length-append xs c))
    ∙ ap (merge_from cs (length (xs ++ c))) (sym (append_assoc xs c (zeros (total_length cs))))
    ∙ merge_from-join cs (xs ++ c)
    ∙ ap (λ zs. some zs) (append_assoc xs c (join cs))

pub decode_chunks-join :
    (decode : List ℕ → Text) (cs : List (List ℕ)) (n : ℕ)
    → n ≡ total_length cs
    → decode_chunks decode cs n ≡ ok (decode (join cs))
unfolding decode_chunks
decode_chunks-join decode cs n e = rw e (rw (merge_from-join cs []) refl)
