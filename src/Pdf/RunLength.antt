-- ===== src/Pdf/RunLength.antt =====
-- `runLengthDecode` of apps/web/src/lib/pdf/filters.ts
use munichat.Prelude.{
  ℕ, zero, suc, ◌-◌, ◌≤◌, ◌<◌, ◌≡◌, refl, ap, ◌∙◌, false, List, [], ◌∷◌, ◌++◌, arith, ltb, ◌==◌,
  if◌then◌else◌, All, replicate, length,
}

-- Where the loop stands: before a length byte, inside a literal run with that many bytes to come
-- besides the next, or before the byte that is repeated.
pub data Mode : Type 0 where
  header : Mode
  copy : ℕ → Mode
  fill : ℕ → Mode

abbrev pub mode_of : ℕ → Mode
mode_of len = if ltb len 128 then copy len else fill (257 - len)

-- A byte that the data ends before is `undefined`, which a `Uint8Array` holds as 0.
unfoldable pub run_length_loop : Mode → List ℕ → List ℕ
run_length_loop (fill n) [] = replicate n 0
run_length_loop header [] = []
run_length_loop (copy n) [] = []
run_length_loop header (len ∷ data') =
    let rest = run_length_loop (mode_of len) data' in if len == 128 then [] else rest
run_length_loop (copy zero) (b ∷ data') = b ∷ run_length_loop header data'
run_length_loop (copy (suc n)) (b ∷ data') = b ∷ run_length_loop (copy n) data'
run_length_loop (fill n) (b ∷ data') = replicate n b ++ run_length_loop header data'

unfoldable pub run_length_decode : List ℕ → List ℕ
unfolding run_length_loop
run_length_decode data' = run_length_loop header data'

-- What an encoder may write: literal runs of 1 to 128 bytes, and runs of 2 to 128 equal bytes.
pub data Run : Type 0 where
  literal : ℕ → List ℕ → Run
  repeated : ℕ → ℕ → Run

abbrev pub IsRun : Run → Type 0
IsRun (literal b bs) = length bs < 128
IsRun (repeated n b) = (2 ≤ n) × (n ≤ 128)

abbrev pub written : List Run → List ℕ → List ℕ
written [] rest = 128 ∷ rest
written (literal b bs ∷ runs) rest = length bs ∷ b ∷ (bs ++ written runs rest)
written (repeated n b ∷ runs) rest = (257 - n) ∷ b ∷ written runs rest

abbrev pub expanded : List Run → List ℕ
expanded [] = []
expanded (literal b bs ∷ runs) = b ∷ (bs ++ expanded runs)
expanded (repeated n b ∷ runs) = replicate n b ++ expanded runs

copy-append :
    (b : ℕ) (bs rest : List ℕ)
    → run_length_loop (copy (length bs)) (b ∷ (bs ++ rest))
      ≡ b ∷ (bs ++ run_length_loop header rest)
unfolding run_length_loop
copy-append b [] rest = refl
copy-append b (c ∷ bs) rest = ap (λ t. b ∷ t) (copy-append c bs rest)

header-literal :
    (n : ℕ) (data' : List ℕ)
    → n < 128
    → run_length_loop header (n ∷ data') ≡ run_length_loop (copy n) data'
unfolding run_length_loop
header-literal n data' h = ground arith

header-repeated :
    (n b : ℕ) (data' : List ℕ)
    → 2 ≤ n
    → n ≤ 128
    → run_length_loop header ((257 - n) ∷ b ∷ data') ≡ replicate n b ++ run_length_loop header data'
unfolding run_length_loop
header-repeated n b data' h k =
    let counted : mode_of (257 - n) ≡ fill n = ground arith in
    let goes_on : (257 - n == 128) ≡ false = ground arith in
    rw goes_on (ap (λ m. run_length_loop m (b ∷ data')) counted)

-- Decoding gives back what the runs stand for, and stops at the end mark whatever follows it.
pub run_length_decode-written :
    (runs : List Run) (rest : List ℕ)
    → All IsRun runs
    → run_length_decode (written runs rest) ≡ expanded runs
unfolding run_length_decode
run_length_decode-written [] rest h = refl
run_length_decode-written (literal b bs ∷ runs) rest (small, h) =
    header-literal (length bs) (b ∷ (bs ++ written runs rest)) small
    ∙ copy-append b bs (written runs rest)
    ∙ ap (λ t. b ∷ (bs ++ t)) (run_length_decode-written runs rest h)
run_length_decode-written (repeated n b ∷ runs) rest ((lo, hi), h) =
    header-repeated n b (written runs rest) lo hi
    ∙ ap (λ t. replicate n b ++ t) (run_length_decode-written runs rest h)
