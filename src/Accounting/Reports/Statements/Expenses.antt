-- ===== src/Accounting/Reports/Statements/Expenses.antt =====
-- The sections of the expenses and their total (buildIncomeStatement).
use ume_pms_v2_backend.Prelude.{
  ◌≡◌, refl, Bool, true, false, not, ◌&&◌, ◌||◌, List, [], ◌∷◌, ◌++◌, Text, codes, text_eq,
  text_eq→eq, text_eq_refl, ℤ, pos, pos_part, neg_part, ◌+ℤ◌, round2_fix, keep, any_by-append, All,
  All-keep, All-impl, Elem, All-Elem, Bool-cases, inl, inr, int_laws, IsCents, if◌then◌else◌,
  false≢true, ap, sym, ◌∙◌, zero-+ℤ,
}
use Prim.Native.String.{String}
use ume_pms_v2_backend.Accounting.Posting.Types.{expense, revenue}
use ume_pms_v2_backend.Accounting.Reports.Statements.{
  AccountBalance, StatementLine, revenue_label, credit_side, sum_lines, debit_side, lines_of,
  group_of, pick, claims, section, other_section, reduce_totals, expense_sections,
  build_income_statement,
}
use ume_pms_v2_backend.Accounting.Reports.Statements.Sums.{
  total_of, AreCents, total_of-IsCents, sum_lines_lem, HasCentSides, debit_balance, lines_of-total,
}

-- A chosen line claims `x` when `x` itself is chosen, for a choice by the code.
claims-keep :
    (q : Text → Bool) (x : StatementLine) (xs : List StatementLine)
    → claims (keep (λ y. q y.code) xs) x ≡ q x.code && claims xs x
claims-keep q x [] = elim (Bool-cases (q x.code)) [ inl e ↦ rw e refl | inr e ↦ rw e refl ]
claims-keep q x (y ∷ xs) = elim (Bool-cases (text_eq y.code x.code)) [
  | inl same ↦
      let moved : q y.code ≡ q x.code = ap q (text_eq→eq y.code x.code same) in
      elim (Bool-cases (q x.code)) [
        | inl e ↦ rw (moved, e) (rw same refl)
        | inr e ↦ rw (moved, e) (claims-keep q x xs ∙ rw e refl)
      ]
  | inr other ↦ elim (Bool-cases (q y.code)) [
    | inl e ↦ rw (e, other) (claims-keep q x xs)
    | inr e ↦ rw (e, other) (claims-keep q x xs)
  ]
]

and_true : (b : Bool) → b && true ≡ b
and_true true = refl
and_true false = refl

claims_self : (x : StatementLine) (xs : List StatementLine) → Elem x xs → claims xs x ≡ true
claims_self x [] h = elim h [ ]
claims_self x (y ∷ xs) (inl e) = rw (sym e, text_eq_refl x.code) refl
claims_self x (y ∷ xs) (inr m) =
    rw (claims_self x xs m)
      (elim (Bool-cases (text_eq y.code x.code)) [ inl e ↦ rw e refl | inr e ↦ rw e refl ])

-- What a line adds to a section, if it is in it.
abbrev share : Bool → ℤ → ℤ
share b a = if b then a else pos 0

total_of-keep_by :
    (p : StatementLine → Bool) (x : StatementLine) (xs : List StatementLine)
    → total_of (keep p (x ∷ xs)) ≡ share (p x) x.amount +ℤ total_of (keep p xs)
total_of-keep_by p x xs = elim (Bool-cases (p x)) [
  | inl e ↦ rw e refl
  | inr e ↦ rw e (omega int_laws)
]

-- At most one of three tests holds.
record Exclusive (v a f : Bool) : Type 0 where
  va : v ≡ true → a ≡ true → ⊥
  vf : v ≡ true → f ≡ true → ⊥
  af : a ≡ true → f ≡ true → ⊥

shares_add :
    (v a f : Bool) (x : ℤ)
    → Exclusive v a f
    → share v x +ℤ share a x +ℤ share f x +ℤ share (not (v || (a || f))) x ≡ x
shares_add true true f x h = absurd (h.va refl refl)
shares_add true false true x h = absurd (h.vf refl refl)
shares_add false true true x h = absurd (h.af refl refl)
shares_add true false false x h = omega int_laws
shares_add false true false x h = omega int_laws
shares_add false false true x h = omega int_laws
shares_add false false false x h = omega int_laws

interleave :
    (a b c d r s t u : ℤ) {x y : ℤ}
    → a +ℤ b +ℤ c +ℤ d ≡ x
    → r +ℤ s +ℤ t +ℤ u ≡ y
    → (a +ℤ r) +ℤ (b +ℤ s) +ℤ (c +ℤ t) +ℤ (d +ℤ u) ≡ x +ℤ y
interleave a b c d r s t u h k =
    let hp = ap pos_part h in
    let hn = ap neg_part h in let kp = ap pos_part k in let kn = ap neg_part k in omega int_laws

-- Four sections that part the lines have the total of all lines.
module _ (v a f o : StatementLine → Bool)
    (apart : (x : StatementLine) → Exclusive (v x) (a x) (f x)) where
  parted :
      (xs : List StatementLine)
      → All (λ x. o x ≡ not (v x || (a x || f x))) xs
      → total_of (keep v xs) +ℤ total_of (keep a xs) +ℤ total_of (keep f xs) +ℤ total_of (keep o xs)
        ≡ total_of xs
  parted [] h = omega int_laws
  parted (x ∷ xs) h =
      let here = shares_add (v x) (a x) (f x) x.amount (apart x) in
      let rest = parted xs h.1 in
      rw
        (
          total_of-keep_by v x xs,
          total_of-keep_by a x xs,
          total_of-keep_by f x xs,
          total_of-keep_by o x xs,
          h.0,
        )
        (interleave (share (v x) x.amount) (share (a x) x.amount) (share (f x) x.amount) _
          (total_of (keep v xs)) (total_of (keep a xs)) (total_of (keep f xs)) _ here rest)

-- The tag of a line says which section takes it.
abbrev pub tagged : List AccountBalance → String → StatementLine → Bool
tagged rows key x = text_eq (group_of rows x.code) (codes key)

tags_apart : (s k l : Text) → text_eq k l ≡ false → text_eq s k ≡ true → text_eq s l ≡ true → ⊥
tags_apart s k l differ h j =
    let same : text_eq k l ≡ true = rw (text_eq→eq s k h) at j in false≢true (sym differ ∙ same)

tags-Exclusive :
    (rows : List AccountBalance) (x : StatementLine)
    → Exclusive (tagged rows "VESSEL_OPEX" x) (tagged rows "ADMIN" x) (tagged rows "FINANCE" x)
unfolding text_eq
tags-Exclusive rows x =
    let g = group_of rows x.code in
    record {
      va = tags_apart g (codes "VESSEL_OPEX") (codes "ADMIN") refl;
      vf = tags_apart g (codes "VESSEL_OPEX") (codes "FINANCE") refl;
      af = tags_apart g (codes "ADMIN") (codes "FINANCE") refl;
    }

claims-pick :
    (rows : List AccountBalance) (key : String) (xs : List StatementLine) (x : StatementLine)
    → Elem x xs
    → claims (pick rows (codes key) xs) x ≡ tagged rows key x
unfolding pick
claims-pick rows key xs x m =
    claims-keep (λ c. text_eq (group_of rows c) (codes key)) x xs
    ∙ rw (claims_self x xs m) (and_true (tagged rows key x))

pub claims_lem :
    (rows : List AccountBalance) (xs : List StatementLine) (x : StatementLine)
    → Elem x xs
    → not (
        claims
          (pick rows (codes "VESSEL_OPEX") xs
            ++ (pick rows (codes "ADMIN") xs ++ pick rows (codes "FINANCE") xs))
          x)
      ≡ not (tagged rows "VESSEL_OPEX" x || (tagged rows "ADMIN" x || tagged rows "FINANCE" x))
claims_lem rows xs x m =
    let test = λ (y : StatementLine). text_eq y.code x.code in
    rw
      (
        any_by-append test (pick rows (codes "VESSEL_OPEX") xs)
            (pick rows (codes "ADMIN") xs ++ pick rows (codes "FINANCE") xs),
        any_by-append test (pick rows (codes "ADMIN") xs) (pick rows (codes "FINANCE") xs),
        claims-pick rows "VESSEL_OPEX" xs x m,
        claims-pick rows "ADMIN" xs x m,
        claims-pick rows "FINANCE" xs x m,
      )
      refl

-- The line of an expense is in one section, and the sections are summed exactly.
module _ (rows : List AccountBalance) (xs : List StatementLine) where
  abbrev chosen : String → List StatementLine
  chosen key = pick rows (codes key) xs

  abbrev others : List StatementLine
  others =
      keep (λ x. not (claims (chosen "VESSEL_OPEX" ++ (chosen "ADMIN" ++ chosen "FINANCE")) x)) xs

  sections-parted :
      total_of (chosen "VESSEL_OPEX")
        +ℤ total_of (chosen "ADMIN")
        +ℤ total_of (chosen "FINANCE")
        +ℤ total_of others
      ≡ total_of xs
  unfolding pick
  sections-parted =
      parted (tagged rows "VESSEL_OPEX") (tagged rows "ADMIN") (tagged rows "FINANCE") _
        (tags-Exclusive rows) xs (All-impl _ _ xs (λ x m. claims_lem rows xs x m) (All-Elem xs))

other_total :
    (a : ℤ) (os : List StatementLine)
    → AreCents os
    → reduce_totals a (other_section os) ≡ a +ℤ total_of os
unfolding reduce_totals text_eq
other_total a [] h = omega int_laws
other_total a (x ∷ os) h = rw (sum_lines_lem (x ∷ os) h) refl

module _ (rows : List AccountBalance) (h : All HasCentSides rows) where
  abbrev all_lines : List StatementLine
  all_lines = lines_of expense debit_side rows

  kept-AreCents : (p : StatementLine → Bool) → AreCents (keep p all_lines)
  kept-AreCents p =
      All-keep (λ (x : StatementLine). IsCents x.amount) p all_lines
        (lines_of-total expense debit_side rows h).1

  chosen-sum :
      (key : String) → sum_lines (chosen rows all_lines key) ≡ total_of (chosen rows all_lines key)
  unfolding pick
  chosen-sum key = sum_lines_lem (chosen rows all_lines key) (kept-AreCents (tagged rows key))

  reduce-sections :
      (label : Text) (revenues : List StatementLine)
      → reduce_totals (pos 0) (section (codes "revenue") label revenues ∷ expense_sections rows)
        ≡ total_of all_lines
  unfolding reduce_totals text_eq expense_sections
  reduce-sections label revenues =
      rw (chosen-sum "VESSEL_OPEX", chosen-sum "ADMIN", chosen-sum "FINANCE")
        (other_total _ (others rows all_lines) (kept-AreCents _)
          ∙ rw (zero-+ℤ (total_of (chosen rows all_lines "VESSEL_OPEX")))
              (sections-parted rows all_lines))

pub total_expense-debit_balance :
    (rows : List AccountBalance)
    → All HasCentSides rows
    → (build_income_statement rows).total_expense ≡ debit_balance expense rows
unfolding build_income_statement
total_expense-debit_balance rows h =
    let lines = lines_of-total expense debit_side rows h in
    rw
      (
        reduce-sections rows h revenue_label (lines_of revenue credit_side rows),
        round2_fix (total_of (all_lines rows h)) (total_of-IsCents (all_lines rows h) lines.1),
      )
      lines.0
