-- ===== src/Accounting/Depreciation.antt =====
-- The monthly depreciation and its identifiers
-- (src/modules/accounting/bridge/depreciation.logic.ts).
pub mod Bounds
use ume_pms_v2_backend.Prelude.{
  ℕ, zero, suc, ◌+◌, ◌-◌, ◌*◌, ◌/◌, ◌%◌, ◌≡◌, Bool, true, false, not, ◌&&◌, Option, none, some,
  List, [], ◌∷◌, ◌++◌, Text, codes, is_digit, keep, take, length, ℤ, pos, ◌+ℤ◌, ◌-ℤ◌, leb_ℤ, ltb_ℤ,
  round2, Result, ok, err, ◌>>=◌, ◌>>◌, throw_if, if◌then◌else◌, ltb, leb, ◌==◌,
}
use ume_pms_v2_backend.Accounting.Months.{
  ScheduleError, bad_namespace, amount_not_positive, last_day_of_month, months_between,
}

-- The value of a hexadecimal digit.
abbrev hex_value : ℕ → Option ℕ
hex_value c =
    if is_digit c
    then some (c - 48)
    else (if leb 97 c && leb c 102
        then some (c - 87)
        else (if leb 65 c && leb c 70 then some (c - 55) else none))

abbrev hex_pair : Option ℕ → Option ℕ → List ℕ → List ℕ
hex_pair (some a) (some b) rest = (16 * a + b) ∷ rest
hex_pair _ _ rest = []

-- `Buffer.from(s, 'hex')`: up to the first pair that is none.
unfoldable pub from_hex : Text → List ℕ
from_hex (a ∷ b ∷ s) = let rest = from_hex s in hex_pair (hex_value a) (hex_value b) rest
from_hex _ = []

abbrev hex_digit : ℕ → ℕ
hex_digit d = if ltb d 10 then 48 + d else 87 + d

unfoldable pub to_hex : List ℕ → Text
to_hex [] = []
to_hex (b ∷ bs) = hex_digit (b / 16) ∷ hex_digit (b % 16) ∷ to_hex bs

-- The version in the sixth byte, the variant in the eighth.
unfoldable pub stamp : List ℕ → List ℕ
stamp (b0 ∷ b1 ∷ b2 ∷ b3 ∷ b4 ∷ b5 ∷ b6 ∷ b7 ∷ b8 ∷ bs) =
    b0 ∷ b1 ∷ b2 ∷ b3 ∷ b4 ∷ b5 ∷ (b6 % 16 + 80) ∷ b7 ∷ (b8 % 64 + 128) ∷ bs
stamp bs = bs

abbrev pub drop : ℕ → Text → Text
drop zero s = s
drop (suc n) [] = []
drop (suc n) (c ∷ s) = drop n s

unfoldable pub with_dashes : Text → Text
with_dashes s =
    take 8 s
    ++ (45
        ∷ (take 4 (drop 8 s)
            ++ (45 ∷ (take 4 (drop 12 s) ++ (45 ∷ (take 4 (drop 16 s) ++ (45 ∷ drop 20 s)))))))

-- `sha1` gives the digest of some bytes followed by those of a name in UTF-8.
unfoldable pub deterministic_uuid :
    (List ℕ → Text → List ℕ) → Text → Text → Result ScheduleError Text
deterministic_uuid sha1 namespace name = do
  let ns = from_hex (keep (λ c. not (c == 45)) namespace)
  throw_if (not (length ns == 16)) bad_namespace
  ok (with_dashes (to_hex (stamp (take 16 (sha1 ns name)))))

pub record DepreciationMonth : Type 0 where
  pub month : Text
  pub accounting_date : Text
  pub amount : ℤ
  pub source_id : Text
  pub source_reference : Text

module _ (sha1 : List ℕ → Text → List ℕ) where
  unfoldable pub charge_months :
      Text → Text → ℤ → List Text → Result ScheduleError (List DepreciationMonth)
  charge_months vessel_id namespace amount [] = ok []
  charge_months vessel_id namespace amount (month ∷ months) = do
    date ← last_day_of_month month
    source_id ←
        deterministic_uuid sha1 namespace (codes "depreciation:" ++ (vessel_id ++ (58 ∷ month)))
    rest ← charge_months vessel_id namespace amount months
    ok (
        record {
          month = month;
          accounting_date = date;
          amount = amount;
          source_id = source_id;
          source_reference = codes "DEP-" ++ month;
        }
        ∷ rest)

  unfoldable pub plan_depreciation :
      Text → Text → Text → ℤ → Text → Result ScheduleError (List DepreciationMonth)
  plan_depreciation vessel_id from to monthly_amount namespace = do
    let amount = round2 monthly_amount
    throw_if (leb_ℤ amount (pos 0)) amount_not_positive
    months ← months_between from to
    charge_months vessel_id namespace amount months

pub data CarryingError : Type 0 where
  fully_depreciated charge_above_carrying : CarryingError

-- 500_000 units are 0.005.
unfoldable pub assert_within_carrying_amount : ℤ → ℤ → ℤ → Result CarryingError (Unit {0})
assert_within_carrying_amount cost_eur accumulated_eur charge_eur = do
  let remaining = round2 (cost_eur -ℤ accumulated_eur)
  throw_if (leb_ℤ remaining (pos 0)) fully_depreciated
  throw_if (ltb_ℤ (remaining +ℤ pos 500_000) (round2 charge_eur)) charge_above_carrying
